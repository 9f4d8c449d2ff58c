-- ===== src/Prepare/Generation.antt =====
-- `max9296_prepare_generate_generation`: numbers that are never reused in a process. The clock, the
-- process id and the writes of other threads are arguments.
pub mod Laws
use gst_app.Prelude.{
  ℕ, zero, suc, ◌+◌, ◌*◌, ◌%◌, ◌^◌, List, [], ◌∷◌, Option, none, some, ltb, ◌==◌, if◌then◌else◌,
  bit_xor,
}

abbrev pub u64 : ℕ → ℕ
u64 n = n % 2 ^ 64

-- `none` is a failed clock; a reading is its seconds and nanoseconds.
unfoldable pub candidate_for : Option (ℕ × ℕ) → ℕ → ℕ
candidate_for none pid = 1
candidate_for (some (sec, nsec)) pid =
    let mixed = bit_xor (u64 (u64 (sec * 1000000000) + nsec)) (u64 (pid * 2 ^ 32)) in
    if mixed == 0 then 1 else mixed

-- What the call has stored and returned, and how many of its exchanges failed before.
pub record Issued : Type 0 where
  pub failed : ℕ
  pub stored : ℕ
  pub returned : ℕ

unfoldable pub next_generation : ℕ → ℕ → ℕ
next_generation candidate observed =
    if ltb observed candidate then candidate else u64 (observed + 1)

abbrev one_more : Option Issued → Option Issued
one_more none = none
one_more (some i) = some (record i { failed = i.failed + 1 })

-- The loop: the list holds the value of `last_generation` at each compare-exchange. `none` means
-- that all of those exchanges failed, and the loop goes on.
unfoldable pub exchange_loop : ℕ → ℕ → List ℕ → Option Issued
exchange_loop candidate observed [] = none
exchange_loop candidate observed (current ∷ rest) =
    let next = next_generation candidate observed in
    let again = exchange_loop candidate current rest in
    if current == observed
    then some (record { failed = 0; stored = next; returned = if next == 0 then 1 else next })
    else one_more again
