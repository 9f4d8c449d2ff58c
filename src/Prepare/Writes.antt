-- ===== src/Prepare/Writes.antt =====
-- The retry loops of max9296Prepare.cpp over the sysfs files. What a call of `write_file`,
-- `write_file_with_commit` or `read_file` answers is an argument: a function of the attempt.
pub mod Laws
use gst_app.Prelude.{
  ℕ, zero, suc, ◌+◌, ℤ, pos, is_neg, pos_part, eqb_ℤ, List, take, Bool, true, false, ◌&&◌, ◌||◌,
  not, Option, none, some, ltb, if◌then◌else◌,
}
use gst_app.Prelude.Errno.{eio, eagain, einval, eoverflow}
use gst_app.Prepare.Types.{PrepareStatus, Result, ok, err}
use gst_app.Prepare.Status.{parse_status}

-- The value of one write call, and what it stored through `committed`.
pub record WriteAnswer : Type 0 where
  pub result : ℤ
  pub committed : Bool

pub record WriteResult : Type 0 where
  pub result : ℤ
  pub committed : Bool

-- Without `write_file_with_commit` the flag stays false.
unfoldable pub write_outcome : Bool → ℕ → WriteAnswer → WriteResult
write_outcome with_commit length a = record {
  result = a.result;
  committed = (with_commit && a.committed) || eqb_ℤ a.result (pos length);
}

-- The outcome is final: it is not an uncommitted EAGAIN.
abbrev pub is_final : WriteResult → Bool
is_final o = o.committed || not (eqb_ℤ o.result eagain)

-- The loop with `left` attempts to go; with the outcome, how many calls were made.
retry_loop : Bool → ℕ → (ℕ → WriteAnswer) → ℕ → ℕ → WriteResult → WriteResult × ℕ
retry_loop with_commit length answers zero attempt outcome = (outcome, attempt)
retry_loop with_commit length answers (suc left) attempt outcome =
    let o = write_outcome with_commit length (answers attempt) in
    let rest = retry_loop with_commit length answers left (attempt + 1) o in
    if is_final o then (o, attempt + 1) else rest

unfoldable pub retry_write : Bool → ℕ → (ℕ → WriteAnswer) → WriteResult × ℕ
unfolding retry_loop write_outcome
retry_write with_commit length answers =
    retry_loop with_commit length answers 3 0 (record { result = eio; committed = false })

-- The value of one read call and the bytes in the buffer after it.
pub record ReadAnswer : Type 0 where
  pub result : ℤ
  pub buffer : List ℕ

read_loop : (ℕ → ReadAnswer) → ℕ → ℕ → ReadAnswer → ReadAnswer
read_loop answers zero attempt last = last
read_loop answers (suc left) attempt last =
    let a = answers attempt in
    let rest = read_loop answers left (attempt + 1) a in if eqb_ℤ a.result eagain then rest else a

-- The status is stored only where the whole line is accepted.
unfoldable pub read_status : (ℕ → ReadAnswer) → Result PrepareStatus
unfolding read_loop
read_status answers =
    let a = read_loop answers 3 0 (record { result = eio; buffer = List.[] }) in
    if is_neg a.result
    then err a.result
    else if ltb 1024 (pos_part a.result)
    then err eoverflow
    else elim (parse_status (take (pos_part a.result) a.buffer)) [
      | none ↦ err einval
      | some status ↦ ok status
    ]
