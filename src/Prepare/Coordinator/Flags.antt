-- ===== src/Prepare/Coordinator/Flags.antt =====
-- What the creation round and the joins keep true of both domains and of the flags they share.
use gst_app.Prelude.{
  ℕ, ◌≡◌, ◌⊎◌, refl, inl, inr, ℤ, pos, IsNegative, Bool, true, false, ◌||◌, Bool-cases, arith,
  if◌then◌else◌,
}
use gst_app.Prepare.Transaction.{Domain, remember_error, create_worker, join_worker}
use gst_app.Prepare.Transaction.Stages.{
  NonPositive, Planned, Worked, create_worker-Worked, Joined, first_join_error_nonpos,
  join_worker-Joined,
}
use gst_app.Prepare.Coordinator.{Progress, create_phase, join_phase, join_error}

-- Remembering keeps a first error, and takes up a negative one.
remember_nonpos : (e f : ℤ) → NonPositive f → NonPositive (remember_error e f)
unfolding remember_error
remember_nonpos e f h = ground arith

pub remember-IsNegative :
    (e f : ℤ)
    → NonPositive f
    → (IsNegative (remember_error e f) → IsNegative e ⊎ IsNegative f)
      × (IsNegative e → IsNegative (remember_error e f))
      × (IsNegative f → IsNegative (remember_error e f))
unfolding remember_error
remember-IsNegative e f h = (ground arith, ground arith, ground arith)

-- The shared flags after the creation round.
pub record Created (p : Progress) : Type 0 where
  pub stop0 : Bool
  pub stop1 : Bool
  pub worked0 : Worked p.d0 stop0
  pub worked1 : Worked p.d1 stop1
  pub failed : p.global_failure ≡ (stop0 || stop1)
  pub nonpos : NonPositive p.first_error
  pub remembered : p.global_failure ≡ true → IsNegative p.first_error
  pub caused : IsNegative p.first_error → p.global_failure ≡ true

-- The flags at the end: every error is remembered, and nothing else is.
pub record Accounted (p : Progress) : Type 0 where
  pub nonpos : NonPositive p.first_error
  pub known0 : IsNegative p.d0.report.error → IsNegative p.first_error
  pub known1 : IsNegative p.d1.report.error → IsNegative p.first_error
  pub failing : p.global_failure ≡ true → IsNegative p.first_error
  pub caused :
      IsNegative p.first_error
      → (p.global_failure ≡ true) ⊎ (IsNegative p.d0.report.error) ⊎ (IsNegative p.d1.report.error)

Planned-Worked : (d : Domain) → Planned d → d.report.error ≡ pos 0 → Worked d false
Planned-Worked d p e = ground arith

pub create_phase-Created :
    (with_commit : Bool) (generation : ℕ) (p : Progress)
    → Planned p.d0
    → Planned p.d1
    → p.d0.report.error ≡ pos 0
    → p.d1.report.error ≡ pos 0
    → p.first_error ≡ pos 0
    → p.global_failure ≡ false
    → Created (create_phase with_commit generation p)
unfolding create_phase
create_phase-Created with_commit generation p p0 p1 e0 e1 f g =
    let w0 = create_worker-Worked with_commit generation p.d0 p0 e0 in
    let w1 = create_worker-Worked with_commit generation p.d1 p1 e1 in
    elim (Bool-cases (create_worker with_commit generation p.d0).1) [
      | inl s0 ↦ rw s0 (record {
        stop0 = true;
        stop1 = false;
        worked0 = rw s0 at w0;
        worked1 = Planned-Worked p.d1 p1 e1;
        failed = refl;
        nonpos = remember_nonpos _ p.first_error (inl f);
        remembered = λ h. (remember-IsNegative _ p.first_error (inl f)).1 (w0.stop s0);
        caused = λ h. refl;
      })
      | inr s0 ↦ elim (Bool-cases (create_worker with_commit generation p.d1).1) [
        | inl s1 ↦
            rw (s0, s1)
              (record {
                stop0 = false;
                stop1 = true;
                worked0 = rw s0 at w0;
                worked1 = rw s1 at w1;
                failed = refl;
                nonpos = remember_nonpos _ p.first_error (inl f);
                remembered = λ h. (remember-IsNegative _ p.first_error (inl f)).1 (w1.stop s1);
                caused = λ h. refl;
              })
        | inr s1 ↦
            rw (s0, s1)
              (record {
                stop0 = false;
                stop1 = false;
                worked0 = rw s0 at w0;
                worked1 = rw s1 at w1;
                failed = g;
                nonpos = inl f;
                remembered = λ h. ground arith;
                caused = λ h. ground arith;
              })
      ]
    ]

pub Joined-mono : (d : Domain) (f g : Bool) → (f ≡ true → g ≡ true) → Joined d f → Joined d g
Joined-mono d f g grows j = ground arith

pub join_phase-Joined :
    (p : Progress)
    → Created p
    → Joined (join_phase p).d0 (join_phase p).global_failure
      × Joined (join_phase p).d1 (join_phase p).global_failure
unfolding join_phase
join_phase-Joined p c = (
  Joined-mono _ ((join_worker p.d0).1 || c.stop0) _ (λ h. ground arith)
      (join_worker-Joined p.d0 c.stop0 c.worked0),
  Joined-mono _ ((join_worker p.d1).1 || c.stop1) _ (λ h. ground arith)
      (join_worker-Joined p.d1 c.stop1 c.worked1),
)

pub or3 : (a b c : Bool) → (a || b || c) ≡ true → (a ≡ true) ⊎ (b ≡ true) ⊎ (c ≡ true)
or3 a b c h = ground arith

or_first : (a b c : Bool) → a ≡ true → (a || b || c) ≡ true
or_first a b c h = ground arith

or_second : (a b c : Bool) → b ≡ true → (a || b || c) ≡ true
or_second a b c h = ground arith

or_third : (a b c : Bool) → c ≡ true → (a || b || c) ≡ true
or_third a b c h = ground arith

-- A domain's own errors, remembered after `f`.
abbrev pub taken : Bool → ℤ → ℤ → ℤ
taken active e f = if active then remember_error e f else f

pub taken_facts :
    (active : Bool) (e f : ℤ)
    → NonPositive f
    → (active ≡ false → e ≡ pos 0)
    → NonPositive (taken active e f)
      × (IsNegative (taken active e f) → IsNegative e ⊎ IsNegative f)
      × (IsNegative e → IsNegative (taken active e f))
      × (IsNegative f → IsNegative (taken active e f))
unfolding remember_error
taken_facts active e f h off = (ground arith, ground arith, ground arith, ground arith)

join_error_facts :
    (d : Domain) (stopped : Bool)
    → Worked d stopped
    → NonPositive (join_error d)
      × (IsNegative (join_error d) → (join_worker d).1 ≡ true)
      × ((join_worker d).1 ≡ true → IsNegative (join_error d))
unfolding join_worker
join_error_facts d stopped w =
    let n = first_join_error_nonpos d.answers.joins in (ground arith, ground arith, ground arith)

pub join_phase-Accounted : (p : Progress) → Created p → Accounted (join_phase p)
unfolding join_phase
join_phase-Accounted p c =
    let a = (join_worker p.d0).0 in
    let b = (join_worker p.d1).0 in
    let bad0 = (join_worker p.d0).1 in
    let bad1 = (join_worker p.d1).1 in
    let ja = join_worker-Joined p.d0 c.stop0 c.worked0 in
    let jb = join_worker-Joined p.d1 c.stop1 c.worked1 in
    let ea = join_error_facts p.d0 c.stop0 c.worked0 in
    let eb = join_error_facts p.d1 c.stop1 c.worked1 in
    let f1 = taken_facts true (join_error p.d0) p.first_error c.nonpos (λ h. cc) in
    let f2 = taken_facts true (join_error p.d1) _ f1.0 (λ h. cc) in
    let f3 = taken_facts a.target.active a.report.error _ f2.0 ja.off in
    let f4 = taken_facts b.target.active b.report.error _ f3.0 jb.off in
    record {
      nonpos = f4.0;
      known0 = λ h. f4.3 (f3.2 h);
      known1 = λ h. f4.2 h;
      failing = λ h. elim (or3 p.global_failure bad0 bad1 h) [
        | inl failed ↦ f4.3 (f3.3 (f2.3 (f1.3 (c.remembered failed))))
        | inr (inl h0) ↦ f4.3 (f3.3 (f2.3 (f1.2 (ea.2 h0))))
        | inr (inr h1) ↦ f4.3 (f3.3 (f2.2 (eb.2 h1)))
      ];
      caused = λ h. elim (f4.1 h) [
        | inl e1 ↦ inr (inr e1)
        | inr h3 ↦ elim (f3.1 h3) [
          | inl e0 ↦ inr (inl e0)
          | inr h2 ↦ inl (elim (f2.1 h2) [
            | inl j1 ↦ or_third p.global_failure bad0 bad1 (eb.1 j1)
            | inr h1 ↦ elim (f1.1 h1) [
              | inl j0 ↦ or_second p.global_failure bad0 bad1 (ea.1 j0)
              | inr h0 ↦ or_first p.global_failure bad0 bad1 (c.caused h0)
            ]
          ])
        ]
      ];
    }
