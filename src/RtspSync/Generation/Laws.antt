-- ===== src/RtspSync/Generation/Laws.antt =====
-- What the owners of a generation can rely on, whatever the interleaving.
use gst_app.Prelude.{
  ℕ, suc, ◌+◌, ◌≡◌, inl, inr, refl, true, false, List, [], ◌∷◌, ◌++◌, some, Option-cases, arith,
  subst, ◌<◌,
}
use gst_app.RtspSync.Generation.{
  Generation, Shared, live, freed, Atom, take_ref, drop_ref, check_cancelled, set_active,
  set_cancelled, clear_active, generation_unref, generation_set_active, step, is_active, run,
}

-- The cancellation has been seen, or the generation is gone.
IsCancelled : Shared → Type 0
IsCancelled (live g) = g.cancelled ≡ true
IsCancelled (freed n) = Unit {0}

IsCancelled-inactive : (s : Shared) → IsCancelled s → is_active s ≡ false
unfolding IsCancelled is_active
IsCancelled-inactive (live g) h = ground arith
IsCancelled-inactive (freed n) h = refl

step-IsCancelled : (a : Atom) (s t : Shared) → IsCancelled s → step a s ≡ some t → IsCancelled t
unfolding step IsCancelled generation_set_active generation_unref
step-IsCancelled a (freed n) t h e = absurd (ground arith)
step-IsCancelled a (live g) (freed n) h e = tt
step-IsCancelled take_ref (live g) (live k) h e = ground arith
step-IsCancelled drop_ref (live g) (live k) h e = ground arith
step-IsCancelled check_cancelled (live g) (live k) h e = ground arith
step-IsCancelled set_active (live g) (live k) h e = ground arith
step-IsCancelled set_cancelled (live g) (live k) h e = ground arith
step-IsCancelled clear_active (live g) (live k) h e = ground arith

run-IsCancelled :
    (ops : List Atom) (s t : Shared) → IsCancelled s → run ops s ≡ some t → IsCancelled t
unfolding run
run-IsCancelled [] s t h e = let eq : s ≡ t = ground arith in subst IsCancelled eq h
run-IsCancelled (a ∷ rest) s t h e = elim (Option-cases (step a s)) [
  | inl stuck ↦ absurd (ground arith)
  | inr (next, moved) ↦
      run-IsCancelled rest next t (step-IsCancelled a s next h moved) (rw (moved, run) at e)
]

run-append :
    (before after : List Atom) (s t : Shared)
    → run (before ++ after) s ≡ some t
    → (u : Shared) × (run before s ≡ some u) × (run after u ≡ some t)
unfolding run
run-append [] after s t e = (s, refl, e)
run-append (a ∷ before) after s t e = elim (Option-cases (step a s)) [
  | inl stuck ↦ absurd (ground arith)
  | inr (next, moved) ↦
      let (u, f, g) = run-append before after next t (rw (moved, run) at e) in
      (u, rw (moved, run) f, g)
]

set_cancelled-IsCancelled : (s t : Shared) → step set_cancelled s ≡ some t → IsCancelled t
unfolding step IsCancelled
set_cancelled-IsCancelled (freed n) t e = absurd (ground arith)
set_cancelled-IsCancelled (live g) (freed n) e = tt
set_cancelled-IsCancelled (live g) (live k) e = ground arith

-- Once a deactivation has set its flag, no operation of any thread, in any order, makes the
-- generation active again, not even an activation that made its check before.
pub run-inactive :
    (before after : List Atom) (s t : Shared)
    → run (before ++ set_cancelled ∷ after) s ≡ some t
    → is_active t ≡ false
unfolding run
run-inactive before after s t e =
    let (u, f, g) = run-append before (set_cancelled ∷ after) s t e in
    elim (Option-cases (step set_cancelled u)) [
      | inl stuck ↦ absurd (ground arith)
      | inr (next, moved) ↦ IsCancelled-inactive t (
          run-IsCancelled after next t (set_cancelled-IsCancelled u next moved)
            (rw (moved, run) at g))
    ]

-- How often the operations take and drop a reference.
abbrev pub takes : List Atom → ℕ
takes [] = 0
takes (take_ref ∷ rest) = suc (takes rest)
takes (drop_ref ∷ rest) = takes rest
takes (check_cancelled ∷ rest) = takes rest
takes (set_active ∷ rest) = takes rest
takes (set_cancelled ∷ rest) = takes rest
takes (clear_active ∷ rest) = takes rest

abbrev pub drops : List Atom → ℕ
drops [] = 0
drops (take_ref ∷ rest) = drops rest
drops (drop_ref ∷ rest) = suc (drops rest)
drops (check_cancelled ∷ rest) = drops rest
drops (set_active ∷ rest) = drops rest
drops (set_cancelled ∷ rest) = drops rest
drops (clear_active ∷ rest) = drops rest

-- The owners that are left after `dropped` releases of `owners`.
abbrev pub Owned : ℕ → ℕ → Shared → Type 0
Owned owners dropped (live g) = (0 < g.ref_count) × (g.ref_count + dropped ≡ owners)
Owned owners dropped (freed n) = (n ≡ 1) × (dropped ≡ owners)

step-Owned :
    (a : Atom) (g : Generation) (t : Shared)
    → 0 < g.ref_count
    → step a (live g) ≡ some t
    → Owned (g.ref_count + takes (a ∷ [])) (drops (a ∷ [])) t
unfolding step generation_set_active generation_unref
step-Owned take_ref g (live k) h e = ground arith
step-Owned take_ref g (freed n) h e = ground arith
step-Owned drop_ref g (live k) h e = ground arith
step-Owned drop_ref g (freed n) h e = ground arith
step-Owned check_cancelled g (live k) h e = ground arith
step-Owned check_cancelled g (freed n) h e = ground arith
step-Owned set_active g (live k) h e = ground arith
step-Owned set_active g (freed n) h e = ground arith
step-Owned set_cancelled g (live k) h e = ground arith
step-Owned set_cancelled g (freed n) h e = ground arith
step-Owned clear_active g (live k) h e = ground arith
step-Owned clear_active g (freed n) h e = ground arith

takes-cons : (a : Atom) (rest : List Atom) → takes (a ∷ rest) ≡ takes (a ∷ []) + takes rest
takes-cons take_ref rest = omega arith
takes-cons _ rest = omega arith

drops-cons : (a : Atom) (rest : List Atom) → drops (a ∷ rest) ≡ drops (a ∷ []) + drops rest
drops-cons take_ref rest = omega arith
drops-cons _ rest = omega arith

run-freed :
    (ops : List Atom) (n : ℕ) (t : Shared) → run ops (freed n) ≡ some t → (ops ≡ []) × (t ≡ freed n)
unfolding run step
run-freed [] n t e = (refl, ground arith)
run-freed (a ∷ rest) n t e = absurd (ground arith)

-- Owners and releases that are counted in other terms.
Owned-shift :
    (owners dropped more owners' dropped' : ℕ) (s : Shared)
    → owners + more ≡ owners'
    → dropped + more ≡ dropped'
    → Owned owners dropped s
    → Owned owners' dropped' s
Owned-shift owners dropped more owners' dropped' (live g) p q o = (o.0, omega (arith, o.1))
Owned-shift owners dropped more owners' dropped' (freed n) p q o = (o.0, omega (arith, o.1))

-- From a live generation, the references that are taken less those that are dropped are the owners
-- that are left; the generation is freed, and its data destroyed once, exactly when there are none.
pub run-Owned :
    (ops : List Atom) (g : Generation) (t : Shared)
    → 0 < g.ref_count
    → run ops (live g) ≡ some t
    → Owned (g.ref_count + takes ops) (drops ops) t
unfolding run
run-Owned [] g t h e =
    let eq : live g ≡ t = ground arith in subst (Owned (g.ref_count + 0) 0) eq (h, omega arith)
run-Owned (a ∷ rest) g t h e = elim (Option-cases (step a (live g))) [
  | inl stuck ↦ absurd (ground arith)
  | inr (freed n, moved) ↦
      let o = step-Owned a g (freed n) h moved in
      let (none_left, eq) = run-freed rest n t (rw (moved, run) at e) in rw (none_left, eq) o
  | inr (live k, moved) ↦
      let o = step-Owned a g (live k) h moved in
      let later = run-Owned rest k t o.0 (rw (moved, run) at e) in
      Owned-shift (k.ref_count + takes rest) (drops rest) (drops (a ∷ [])) _ _ t
        (omega (arith, takes-cons a rest, o.1)) (omega (arith, drops-cons a rest)) later
]
