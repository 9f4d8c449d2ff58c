-- ===== src/Prepare/Transaction/Final.antt =====
-- `validate_final_status`: what a domain that passes it looks like.
use gst_app.Prelude.{ℕ, ◌≡◌, ◌≢◌, ◌⊎◌, ◌↔◌, pos, IsNegative, arith}
use gst_app.Prepare.Types.{
  ready, consumed, Disposition, warm, new_prepare, PrepareStatus, PrepareTarget,
}
use gst_app.Prepare.Classify.Laws.{Fingerprint, Fingerprint-iff}
use gst_app.Prepare.Transaction.{validate_final_status}

-- A domain that streams can start on: its state and lease are those of its disposition, and it is
-- in
-- the requested configuration, without an error, under the generation that was asked for.
pub record IsSettled (t : PrepareTarget) (before after : PrepareStatus) (p : Disposition)
    (generation : ℕ) : Type 0 where
  pub reused : p ≡ warm → (after.state ≡ consumed) × (after.lease ≡ 0)
  pub prepared : p ≢ warm → (after.state ≡ ready) × (after.lease ≡ 1) × (after.last_errno ≡ pos 0)
  pub fresh : p ≡ new_prepare → after.generation ≡ generation
  pub kept : p ≢ new_prepare → after.generation ≡ before.generation
  pub epoch : after.epoch ≢ 0
  pub matches : after.match ≡ 1
  pub healthy : after.worker_errno ≡ pos 0
  pub fingerprint : Fingerprint t after

module _ (t : PrepareTarget) (before after : PrepareStatus) (p : Disposition) (generation : ℕ) where
  pub validate-IsSettled :
      validate_final_status t before after p generation ≡ pos 0
      → IsSettled t before after p generation
  unfolding validate_final_status
  validate-IsSettled h = ground (arith, Fingerprint-iff t after)

  pub validate_nonpos :
      (validate_final_status t before after p generation ≡ pos 0)
      ⊎ IsNegative (validate_final_status t before after p generation)
  unfolding validate_final_status
  validate_nonpos = ground arith

  IsSettled-validate :
      IsSettled t before after p generation
      → validate_final_status t before after p generation ≡ pos 0
  unfolding validate_final_status
  IsSettled-validate h = ground (arith, Fingerprint-iff t after)

  -- `validate_final_status` gives no error exactly for a domain that is settled: it has the state,
  -- lease, generation, epoch, match flag, worker error and fingerprint that its disposition asks
  -- for,
  -- and without a warm reuse no last error.
  pub validate_iff :
      (validate_final_status t before after p generation ≡ pos 0)
      ↔ IsSettled t before after p generation
  validate_iff = (validate-IsSettled, IsSettled-validate)
