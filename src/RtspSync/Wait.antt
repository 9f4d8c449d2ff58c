-- ===== src/RtspSync/Wait.antt =====
-- `rtsp_sync_generation_wait`: a delay in slices that a deactivation ends. What the flags, the
-- cancel function and the clock answer in each round of the loop is an argument.
pub mod Laws
use gst_app.Prelude.{
  ℕ, ◌+◌, ◌-◌, ◌^◌, ℤ, pos, negsuc, is_neg, pos_part, is_pos, Bool, true, false, ◌||◌, not, List,
  [], ◌∷◌, Option, none, some, ltb, leb, if◌then◌else◌,
}

-- What one round sees: whether the generation is active, whether the caller cancels, and the clock.
pub record Round : Type 0 where
  pub active : Bool
  pub cancelled : Bool
  pub now : ℕ

abbrev pub max_int64 : ℕ
max_int64 = 2 ^ 63 - 1

unfoldable pub deadline_for : ℕ → ℕ → ℕ
deadline_for started duration =
    if ltb (max_int64 - started) duration then max_int64 else started + duration

-- The time that a round sleeps.
abbrev pub nap : ℕ → ℕ → ℕ → ℕ
nap deadline slice now =
    let remaining = deadline - now in if ltb remaining slice then remaining else slice

-- The loop: the answer and the naps; `none` means that all of the rounds have slept.
unfoldable pub wait_loop : ℕ → ℕ → List Round → Option Bool × List ℕ
wait_loop deadline slice [] = (none, [])
wait_loop deadline slice (r ∷ rest) =
    let later = wait_loop deadline slice rest in
    if not r.active || r.cancelled
    then (some false, [])
    else if leb deadline r.now
    then (some true, [])
    else (later.0, nap deadline slice r.now ∷ later.1)

unfoldable pub generation_wait : ℤ → ℤ → ℕ → List Round → Option Bool × List ℕ
unfolding deadline_for
generation_wait duration_us slice_us started rounds =
    if is_neg duration_us || not (is_pos slice_us)
    then (some false, [])
    else wait_loop (deadline_for started (pos_part duration_us)) (pos_part slice_us) rounds
