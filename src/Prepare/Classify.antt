-- ===== src/Prepare/Classify.antt =====
-- `max9296_prepare_classify`: what a domain's status before the transaction calls for.
pub mod Laws
use gst_app.Prelude.{
  ℕ, zero, suc, List, [], ◌∷◌, Bool, true, false, ◌&&◌, ◌||◌, not, same_bytes, is_zero, is_neg,
  ◌==◌, ◌!=◌, if◌then◌else◌, ℤ,
}
use gst_app.Prelude.Errno.{ebusy, eproto, estale, eio}
use gst_app.Prepare.Types.{
  PrepareState, idle, preparing, ready, stale, consumed, failed, expired, Disposition, warm,
  refresh_ready, new_prepare, fail, PrepareStatus, PrepareTarget, Result, ok, err,
}

-- The enumeration's values, by which states are compared.
abbrev pub state_index : PrepareState → ℕ
state_index idle = 0
state_index preparing = 1
state_index ready = 2
state_index stale = 3
state_index consumed = 4
state_index failed = 5
state_index expired = 6

abbrev pub is_state : PrepareState → PrepareState → Bool
is_state a b = state_index a == state_index b

-- The text that a `char` buffer holds: what stands before the first NUL.
unfoldable pub c_string : List ℕ → List ℕ
c_string [] = []
c_string (c ∷ cs) = if c == 0 then [] else c ∷ c_string cs

-- `strcmp(a, b) == 0`.
abbrev pub strings_equal : List ℕ → List ℕ → Bool
strings_equal a b = same_bytes (c_string a) (c_string b)

-- The media bus code of the driver's format.
abbrev pub bus_code : ℕ
bus_code = 0x2006

unfoldable pub has_current_fingerprint : PrepareTarget → PrepareStatus → Bool
has_current_fingerprint target status =
    strings_equal status.mode target.mode
    && strings_equal status.table target.table
    && status.width == target.width
    && status.height == target.height
    && status.fps == target.fps
    && status.code == bus_code
    && status.enable == target.enable

leased : PrepareTarget → PrepareStatus → Result Disposition
leased target status =
    if not (is_state status.state ready)
    then err eproto
    else if status.match != 0
        && is_zero status.worker_errno
        && status.generation != 0
        && status.epoch != 0
        && has_current_fingerprint target status
    then ok refresh_ready
    else ok fail

consumed_before : PrepareTarget → PrepareStatus → Result Disposition
consumed_before target status =
    if not (is_zero status.worker_errno)
    then ok fail
    else if status.match != 0
        && status.generation != 0
        && status.epoch != 0
        && has_current_fingerprint target status
    then ok warm
    else ok new_prepare

-- A call that returns an error leaves the disposition at `fail`.
unfoldable pub classify : PrepareTarget → PrepareStatus → Result Disposition
unfolding leased consumed_before
classify target status =
    if is_state status.state preparing
    then err ebusy
    else if status.lease != 0
    then leased target status
    else if is_state status.state consumed
    then consumed_before target status
    else if is_state status.state ready
    then ok fail
    else if is_zero status.worker_errno
        && (is_state status.state idle
            || is_state status.state failed
            || is_state status.state expired
            || is_state status.state stale)
    then ok new_prepare
    else ok fail

-- The error of a domain whose disposition is `fail`.
unfoldable pub failed_disposition_error : PrepareStatus → ℤ
failed_disposition_error status =
    if not (is_zero status.worker_errno)
    then if is_neg status.worker_errno then status.worker_errno else eio
    else estale
