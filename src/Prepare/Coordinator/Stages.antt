-- ===== src/Prepare/Coordinator/Stages.antt =====
-- What the last phases keep true of both domains and of the flags they share.
use gst_app.Prepare.Coordinator.Flags.{
  Accounted, taken_facts, or3, Joined-mono, create_phase-Created, join_phase-Joined,
  join_phase-Accounted,
}
use gst_app.Prelude.Errno.{estale}
use gst_app.Prelude.{ℕ, ◌≡◌, refl, inl, inr, pos, Bool, true, false, ◌||◌, Bool-cases, arith}
use gst_app.Prepare.Transaction.{Domain, remember_error, check_after}
use gst_app.Prepare.Transaction.Stages.{
  Planned, Joined, Checked, check_after-Checked, check_after_error, check_after_keeps,
}
use gst_app.Prepare.Coordinator.{
  Progress, check_phase, epoch_phase, has_epoch, run_workers, stale_epoch, epochs_differ,
}

-- The domains at the end of the transaction, before it is settled.
pub record Final (generation : ℕ) (p : Progress) : Type 0 where
  pub checked0 : Checked generation p.d0 p.global_failure
  pub checked1 : Checked generation p.d1 p.global_failure
  pub accounted : Accounted p

Checked-mono :
    (generation : ℕ) (d : Domain) (f g : Bool)
    → (f ≡ true → g ≡ true)
    → Checked generation d f
    → Checked generation d g
Checked-mono generation d f g grows k = record {
  joined = Joined-mono d f g grows k.joined;
  settled = λ calm on. k.settled (ground arith) on;
}

check_phase-Final :
    (generation : ℕ) (p : Progress)
    → Joined p.d0 p.global_failure
    → Joined p.d1 p.global_failure
    → Accounted p
    → Final generation (check_phase generation p)
unfolding check_phase
check_phase-Final generation p j0 j1 a =
    let bad0 = (check_after generation p.d0).1 in
    let bad1 = (check_after generation p.d1).1 in
    let e0 = check_after_error generation p.d0 in
    let e1 = check_after_error generation p.d1 in
    let s0 = check_after_keeps generation p.d0 in
    let s1 = check_after_keeps generation p.d1 in
    let f1 = taken_facts true (check_after generation p.d0).2 p.first_error a.nonpos (λ h. cc) in
    let f2 = taken_facts true (check_after generation p.d1).2 _ f1.0 (λ h. cc) in
    record {
      checked0 =
          Checked-mono generation _ (bad0 || p.global_failure) _ (λ h. ground arith)
            (check_after-Checked generation p.d0 p.global_failure j0);
      checked1 =
          Checked-mono generation _ (bad1 || p.global_failure) _ (λ h. ground arith)
            (check_after-Checked generation p.d1 p.global_failure j1);
      accounted = record {
        nonpos = f2.0;
        known0 = λ h. elim (s0.1 h) [
          | inl old ↦ f2.3 (f1.3 (a.known0 old))
          | inr h0 ↦ f2.3 (f1.2 (e0.0 h0))
        ];
        known1 =
            λ h. elim (s1.1 h) [ inl old ↦ f2.3 (f1.3 (a.known1 old)) | inr h1 ↦ f2.2 (e1.0 h1) ];
        failing = λ h. elim (or3 p.global_failure bad0 bad1 h) [
          | inl failed ↦ f2.3 (f1.3 (a.failing failed))
          | inr (inl h0) ↦ f2.3 (f1.2 (e0.0 h0))
          | inr (inr h1) ↦ f2.2 (e1.0 h1)
        ];
        caused = λ h. elim (Bool-cases (p.global_failure || bad0 || bad1)) [
          | inl failed ↦ inl failed
          | inr calm ↦
              let c0 : bad0 ≡ false = ground arith in
              let c1 : bad1 ≡ false = ground arith in
              let g : p.global_failure ≡ false = ground arith in
              elim (f2.1 h) [
                | inl x1 ↦ absurd (ground (arith, e1.1 c1))
                | inr h1 ↦ elim (f1.1 h1) [
                  | inl x0 ↦ absurd (ground (arith, e0.1 c0))
                  | inr h0 ↦ elim (a.caused h0) [
                    | inl failed ↦ absurd (ground arith)
                    | inr (inl n0) ↦ inr (inl (s0.0 n0))
                    | inr (inr n1) ↦ inr (inr (s1.0 n1))
                  ]
                ]
              ]
        ];
      };
    }

stale-Checked :
    (generation : ℕ) (d : Domain) (failed : Bool)
    → d.target.active ≡ true
    → Checked generation d failed
    → Checked generation (stale_epoch d) true
stale-Checked generation d failed on k = ground arith

stale-Accounted :
    (p : Progress)
    → Accounted p
    → Accounted (record p {
      d1 = stale_epoch p.d1;
      first_error = remember_error estale p.first_error;
      global_failure = true;
    })
unfolding remember_error
stale-Accounted p a = ground arith

epoch_phase-Final :
    (generation : ℕ) (p : Progress) → Final generation p → Final generation (epoch_phase p)
unfolding epoch_phase
epoch_phase-Final generation p f = elim (Bool-cases (epochs_differ p)) [
  | inl differ ↦ rw differ (record {
    checked0 = Checked-mono generation p.d0 p.global_failure true (λ h. refl) f.checked0;
    checked1 = stale-Checked generation p.d1 p.global_failure (ground arith) f.checked1;
    accounted = stale-Accounted p f.accounted;
  })
  | inr same ↦ rw same f
]

-- Without a failure the domains that have an epoch have the same one.
epoch_phase-agrees :
    (p : Progress)
    → (epoch_phase p).global_failure ≡ false
    → has_epoch (epoch_phase p).d0 ≡ true
    → has_epoch (epoch_phase p).d1 ≡ true
    → (epoch_phase p).d0.report.after.epoch ≡ (epoch_phase p).d1.report.after.epoch
unfolding epoch_phase
epoch_phase-agrees p = ground arith

pub run_workers-agrees :
    (with_commit : Bool) (generation : ℕ) (p : Progress)
    → let q : Progress = run_workers with_commit generation p in
      q.global_failure ≡ false
      → has_epoch q.d0 ≡ true
      → has_epoch q.d1 ≡ true
      → q.d0.report.after.epoch ≡ q.d1.report.after.epoch
unfolding run_workers
run_workers-agrees with_commit generation p = epoch_phase-agrees _

-- Planned domains, worked on by both workers, end in a final state.
pub run_workers-Final :
    (with_commit : Bool) (generation : ℕ) (p : Progress)
    → Planned p.d0
    → Planned p.d1
    → p.d0.report.error ≡ pos 0
    → p.d1.report.error ≡ pos 0
    → p.first_error ≡ pos 0
    → p.global_failure ≡ false
    → Final generation (run_workers with_commit generation p)
unfolding run_workers
run_workers-Final with_commit generation p p0 p1 e0 e1 f g =
    let c = create_phase-Created with_commit generation p p0 p1 e0 e1 f g in
    let j = join_phase-Joined _ c in
    epoch_phase-Final generation _
      (check_phase-Final generation _ j.0 j.1 (join_phase-Accounted _ c))
