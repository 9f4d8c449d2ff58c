-- ===== src/EncoderStat/Raise.antt =====
-- The loop of encoderStat.cpp that raises a maximum, under any interference.
use gst_app.Prelude.{
  ℕ, zero, suc, ◌≡◌, ◌⊎◌, inl, inr, refl, sym, Bool, true, false, not, ◌&&◌, Bool-cases, List, [],
  ◌∷◌, get_or, All, arith,
}
use gst_app.EncoderStat.{Stage, load, exchange, ended, enter, advance, set_stage}

abbrev pub Among : {A : Type 0} → A → List A → Type 0
Among a [] = ⊥
Among a (b ∷ bs) = (a ≡ b) ⊎ Among a bs

-- The largest of the start value and of the values in the list: no less than any of them, and one
-- of them.
abbrev pub Peak : {A : Type 0} → (A → A → Type 0) → A → A → List A → Type 0
Peak LE start maximum settled =
    ((maximum ≡ start) ⊎ Among maximum settled) × LE start maximum × All (λ v. LE v maximum) settled

-- What a call adds to the values of the calls that have ended, from where it stood and where it
-- stands.
abbrev pub settle : {A : Type 0} → Stage A → Stage A → List A → List A
settle (ended v) after settled = settled
settle (load v) (ended w) settled = v ∷ settled
settle (load v) (load w) settled = settled
settle (load v) (exchange w m) settled = settled
settle (exchange v m) (ended w) settled = v ∷ settled
settle (exchange v m) (load w) settled = settled
settle (exchange v m) (exchange w n) settled = settled

All-raise :
    {A : Type 0} (P Q : A → Type 0) (vs : List A) → ((v : A) → P v → Q v) → All P vs → All Q vs
All-raise P Q [] give h = tt
All-raise P Q (v ∷ vs) give h = (give v h.0, All-raise P Q vs give h.1)

pub All-get_or :
    {A : Type 0} (P : A → Type 0) (xs : List A) (k : ℕ) (d : A) → P d → All P xs → P (get_or xs k d)
All-get_or P [] k d h all = h
All-get_or P (x ∷ xs) zero d h all = all.0
All-get_or P (x ∷ xs) (suc k) d h all = All-get_or P xs k d h all.1

pub All-set_stage :
    {A : Type 0} (P : Stage A → Type 0) (k : ℕ) (s : Stage A) (xs : List (Stage A))
    → P s
    → All P xs
    → All P (set_stage k s xs)
All-set_stage P k s [] h all = tt
All-set_stage P zero s (x ∷ xs) h all = (h, all.1)
All-set_stage P (suc k) s (x ∷ xs) h all = (all.0, All-set_stage P k s xs h all.1)

-- What stands at a place that was set. Out of range nothing was there, and nothing is set.
pub get_or-set_stage :
    {A : Type 0} (k : ℕ) (s d : Stage A) (xs : List (Stage A))
    → (get_or xs k d ≡ d → s ≡ d)
    → get_or (set_stage k s xs) k d ≡ s
get_or-set_stage k s d [] none_there = sym (none_there refl)
get_or-set_stage zero s d (x ∷ xs) none_there = refl
get_or-set_stage (suc k) s d (x ∷ xs) none_there = get_or-set_stage k s d xs none_there

pub advance_ended :
    {A : Type 0} (less same : A → A → Bool) (spurious : Bool) (current v : A) (stage : Stage A)
    → stage ≡ ended v
    → (advance less same spurious current stage).1 ≡ ended v
unfolding advance
advance_ended less same spurious current v stage e = rw e refl

abbrev pub IsEnded : {A : Type 0} → Stage A → Type 0
IsEnded (load v) = ⊥
IsEnded (exchange v m) = ⊥
IsEnded (ended v) = Unit

-- A call exchanges only a value that is less than its own.
abbrev pub Rises : {A : Type 0} → (A → A → Bool) → Stage A → Type 0
Rises less (load v) = Unit
Rises less (exchange v m) = less m v ≡ true
Rises less (ended v) = Unit

-- An order with a test for `<` and one for `=`.
pub record IsOrder {A : Type 0} (LE : A → A → Type 0) (less same : A → A → Bool) : Type 0 where
  pub below : (a b : A) → less a b ≡ true → LE a b
  pub above : (a b : A) → less a b ≡ false → LE b a
  pub reflexive : (a : A) → LE a a
  pub transitive : (a b c : A) → LE a b → LE b c → LE a c
  pub same_is : (a b : A) → same a b ≡ true → a ≡ b
  pub is_same : (a : A) → same a a ≡ true

module _ {A : Type 0} (LE : A → A → Type 0) (less same : A → A → Bool)
    (order : IsOrder LE less same) (start : A) where
  abbrev Moved : List A → Stage A → A × Stage A → Type 0
  Moved settled before r = Peak LE start r.0 (settle before r.1 settled) × Rises less r.1

  -- A call that is still to do something enters the loop, or ends.
  enter-Moved :
      (settled : List A) (before : Stage A) (v current : A)
      → settle before (ended v) settled ≡ v ∷ settled
      → ((m : A) → settle before (exchange v m) settled ≡ settled)
      → Peak LE start current settled
      → Moved settled before (current, enter less same v current)
  unfolding enter
  enter-Moved settled before v current ends stays peak = elim (Bool-cases (less current v)) [
    | inl rises ↦ rw (rises, stays current) (peak, rises)
    | inr covered ↦
        rw (covered, ends)
          (
            (
              elim peak.0 [ inl first ↦ inl first | inr one ↦ inr (inr one) ],
              peak.1,
              (order.above current v covered, peak.2),
            ),
            tt,
          )
  ]

  store-Peak :
      (settled : List A) (v current : A)
      → LE current v
      → Peak LE start current settled
      → Peak LE start v (v ∷ settled)
  store-Peak settled v current up peak = (
    inr (inl refl),
    order.transitive start current v peak.1 up,
    (
      order.reflexive v,
      All-raise _ _ settled (λ w low. order.transitive w current v low up) peak.2,
    ),
  )

  -- A step of any call leaves the maximum the largest of the values of the calls that have ended.
  pub advance-Moved :
      (spurious : Bool) (settled : List A) (current : A) (stage : Stage A)
      → Rises less stage
      → Peak LE start current settled
      → Moved settled stage (advance less same spurious current stage)
  unfolding advance
  advance-Moved spurious settled current (load v) rises peak =
      enter-Moved settled (load v) v current refl (λ m. refl) peak
  advance-Moved spurious settled current (ended v) rises peak = (peak, tt)
  advance-Moved spurious settled current (exchange v m) rises peak =
      elim (Bool-cases (same current m && not spurious)) [
        | inl stores ↦
            let is_m = order.same_is current m (ground arith) in
            rw stores
              (store-Peak settled v current (order.below current v (rw is_m rises)) peak, tt)
        | inr failed ↦
            rw failed (enter-Moved settled (exchange v m) v current refl (λ n. refl) peak)
      ]

  -- Once a call has loaded what the atomic holds, its next step ends it, if nothing comes between
  -- and the exchange does not fail for no reason.
  enter-IsEnded :
      (v current : A) → IsEnded (advance less same false current (enter less same v current)).1
  unfolding enter advance
  enter-IsEnded v current = elim (Bool-cases (less current v)) [
    | inl rises ↦ rw (rises, order.is_same current) tt
    | inr covered ↦ rw covered tt
  ]

  pub advance-IsEnded :
      (current : A) (stage : Stage A)
      → let r = advance less same false current stage in IsEnded (advance less same false r.0 r.1).1
  unfolding advance
  advance-IsEnded current (load v) = unfold advance in enter-IsEnded v current
  advance-IsEnded current (ended v) = tt
  advance-IsEnded current (exchange v m) = elim (Bool-cases (same current m)) [
    | inl stores ↦ rw stores tt
    | inr failed ↦ rw failed (enter-IsEnded v current)
  ]
