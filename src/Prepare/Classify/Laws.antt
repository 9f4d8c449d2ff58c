-- ===== src/Prepare/Classify/Laws.antt =====
-- When each disposition is chosen.
use gst_app.Prelude.{◌≡◌, ◌≢◌, ◌⊎◌, ◌↔◌, ℤ, pos, true, same_bytes_iff, arith}
use gst_app.Prelude.Errno.{ebusy, eproto}
use gst_app.Prepare.Types.{
  PrepareState, idle, preparing, ready, stale, consumed, failed, expired, warm, refresh_ready,
  new_prepare, PrepareStatus, PrepareTarget, ok, err,
}
use gst_app.Prepare.Classify.{classify, c_string, bus_code, has_current_fingerprint}

-- The status describes the target: the same mode and table by name, size, rate and channels, and
-- the bus code.
pub record Fingerprint (t : PrepareTarget) (s : PrepareStatus) : Type 0 where
  pub mode : c_string s.mode ≡ c_string t.mode
  pub table : c_string s.table ≡ c_string t.table
  pub width : s.width ≡ t.width
  pub height : s.height ≡ t.height
  pub fps : s.fps ≡ t.fps
  pub code : s.code ≡ bus_code
  pub enable : s.enable ≡ t.enable

pub Fingerprint-iff :
    (t : PrepareTarget) (s : PrepareStatus) → (has_current_fingerprint t s ≡ true) ↔ Fingerprint t s
unfolding has_current_fingerprint
Fingerprint-iff t s = ground (
  arith,
  same_bytes_iff (c_string s.mode) (c_string t.mode),
  same_bytes_iff (c_string s.table) (c_string t.table),
)

-- A configuration of the driver that this request can use as it stands.
pub record Current (t : PrepareTarget) (s : PrepareStatus) : Type 0 where
  pub matches : s.match ≢ 0
  pub healthy : s.worker_errno ≡ pos 0
  pub generation : s.generation ≢ 0
  pub epoch : s.epoch ≢ 0
  pub fingerprint : Fingerprint t s

-- A state from which a preparation starts anew, whatever it was for.
abbrev pub IsRestartable : PrepareState → Type 0
IsRestartable st = (st ≡ idle) ⊎ (st ≡ failed) ⊎ (st ≡ expired) ⊎ (st ≡ stale)

module _ (t : PrepareTarget) (s : PrepareStatus) where
  -- A domain is reused warm exactly when its lease is spent and it is current, refreshed exactly
  -- when it is ready under a live lease and current, and prepared anew exactly when no lease is
  -- held, the worker is healthy, and the state is restartable or consumed but no longer current.
  pub classify_iff :
      ((classify t s ≡ ok warm) ↔ ((s.state ≡ consumed) × (s.lease ≡ 0) × Current t s))
      × ((classify t s ≡ ok refresh_ready) ↔ ((s.state ≡ ready) × (s.lease ≢ 0) × Current t s))
      × ((classify t s ≡ ok new_prepare) ↔ (
          (s.lease ≡ 0)
          × (s.worker_errno ≡ pos 0)
          × (IsRestartable s.state ⊎ (s.state ≡ consumed) × ¬ Current t s)))
  unfolding classify
  classify_iff = (
    ground (arith, Fingerprint-iff t s),
    ground (arith, Fingerprint-iff t s),
    ground (arith, Fingerprint-iff t s),
  )

  -- The call fails exactly when a preparation is running, or a lease is held in a state that is not
  -- ready.
  classify-err_iff :
      (e : ℤ)
      → (classify t s ≡ err e) ↔ (
          ((s.state ≡ preparing) × (e ≡ ebusy))
          ⊎ ((s.state ≢ preparing) × (s.state ≢ ready) × (s.lease ≢ 0) × (e ≡ eproto)))
  unfolding classify
  classify-err_iff e = ground arith
