-- ===== src/RtspSync/Generation.antt =====
-- The reference count and the two flags of an `RtspSyncGeneration`, at the grain of its atomic
-- operations. A freed generation is a state of its own, so that a use after the last release shows.
pub mod Laws
use gst_app.Prelude.{
  ℕ, zero, suc, ◌+◌, Bool, true, false, ◌&&◌, not, List, [], ◌∷◌, ◌++◌, Option, none, some,
  if◌then◌else◌,
}

-- `activating` counts the calls of `rtsp_sync_generation_activate` that have seen no cancellation
-- and have not set the flag yet.
pub record Generation : Type 0 where
  pub ref_count : ℕ
  pub id : ℕ
  pub active : Bool
  pub cancelled : Bool
  pub activating : ℕ

-- A generation, or what is left of it: how often its data was destroyed.
pub data Shared : Type 0 where
  live : Generation → Shared
  freed : ℕ → Shared

unfoldable pub generation_new : ℕ → Shared
generation_new id =
    live (record { ref_count = 1; id = id; active = false; cancelled = false; activating = 0 })

-- The atomic operations of the calls.
pub data Atom : Type 0 where
  take_ref drop_ref check_cancelled set_active set_cancelled clear_active : Atom

-- The operations of one call, in their order; `activate` sets the flag only after a check that
-- found no cancellation.
abbrev pub deactivate : List Atom
deactivate = set_cancelled ∷ clear_active ∷ []

-- `rtsp_sync_generation_unref`: the last release destroys the data and frees the generation.
unfoldable pub generation_unref : Generation → Shared
generation_unref g = elim g.ref_count [
  | zero ↦ live g
  | suc zero ↦ freed 1
  | suc (suc n) ↦ live (record g { ref_count = suc n })
]

-- A call that passed its check sets the flag; without such a call there is no such operation.
generation_set_active : Generation → Option Shared
generation_set_active g = elim g.activating [
  | zero ↦ none
  | suc n ↦ some (live (record g { active = true; activating = n }))
]

-- An operation on a freed generation is undefined: `none`.
unfoldable pub step : Atom → Shared → Option Shared
unfolding generation_unref generation_set_active
step a (freed n) = none
step take_ref (live g) = some (live (record g { ref_count = g.ref_count + 1 }))
step drop_ref (live g) = some (generation_unref g)
step check_cancelled (live g) =
    some (live (if g.cancelled then g else record g { activating = g.activating + 1 }))
step set_active (live g) = generation_set_active g
step set_cancelled (live g) = some (live (record g { cancelled = true }))
step clear_active (live g) = some (live (record g { active = false }))

-- `rtsp_sync_generation_is_active`.
unfoldable pub is_active : Shared → Bool
is_active (freed n) = false
is_active (live g) = g.active && not g.cancelled

-- The operations of all threads, in the order in which they take effect.
unfoldable pub run : List Atom → Shared → Option Shared
run [] s = some s
run (a ∷ rest) s = elim (step a s) [ none ↦ none | some next ↦ run rest next ]
