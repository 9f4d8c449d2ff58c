-- ===== src/Prepare/Transaction/Stages.antt =====
-- What each phase of the transaction keeps true of one domain.
use gst_app.Prelude.{
  ℕ, ◌≡◌, ◌≢◌, ◌⊎◌, refl, inl, inr, ℤ, pos, IsNegative, List, [], ◌∷◌, length, Bool, true, false,
  ◌||◌, arith, leb, ◌-◌, if◌then◌else◌,
}
use gst_app.Prepare.Types.{fail, PrepareStatus, PrepareTarget, DomainReport, ok, err, Result-cases}
use gst_app.Prepare.Classify.{classify, failed_disposition_error}
use gst_app.Prepare.Writes.{WriteResult, retry_write, read_status}
use gst_app.Prepare.Transaction.{
  Answers, Domain, start_domain, pthread_error, read_before, classify_domain, decide,
  prepare_command, store_result, prepare_worker, create_worker, first_join_error, join_worker,
  note_failure, check_after, is_refresh,
}
use gst_app.Prepare.Transaction.Final.{IsSettled, validate-IsSettled, validate_nonpos}

-- No error, or a negative one.
abbrev pub NonPositive : ℤ → Type 0
NonPositive e = (e ≡ pos 0) ⊎ IsNegative e

-- Nothing has been written for the domain yet, and no worker was started.
pub record Untouched (d : Domain) : Type 0 where
  pub no_stores : d.stores ≡ 0
  pub no_cancels : d.cancels ≡ 0
  pub not_created : d.created ≡ false
  pub not_rejected : d.write_rejected ≡ false
  pub not_owned : d.report.rollback_owned ≡ false
  pub nonpos : NonPositive d.report.error
  pub off : d.target.active ≡ false → d.report.error ≡ pos 0

pub start-Untouched : (t : PrepareTarget) (a : Answers) → Untouched (start_domain t a)
unfolding start_domain
start-Untouched t a = ground arith

pub read_status-IsNegative : (answers : _) (e : ℤ) → read_status answers ≡ err e → IsNegative e
unfolding read_status
read_status-IsNegative answers e h = ground arith

pub read_before-Untouched : (d : Domain) → Untouched d → Untouched (read_before d)
unfolding read_before
read_before-Untouched d u = elim (Result-cases (read_status d.answers.before)) [
  | inl (s, e) ↦ ground arith
  | inr (x, e) ↦ ground (arith, read_status-IsNegative d.answers.before x e)
]

classify-IsNegative :
    (t : PrepareTarget) (s : PrepareStatus) (e : ℤ) → classify t s ≡ err e → IsNegative e
unfolding classify
classify-IsNegative t s e h = ground arith

pub failed_disposition_error-IsNegative :
    (s : PrepareStatus) → IsNegative (failed_disposition_error s)
unfolding failed_disposition_error
failed_disposition_error-IsNegative s = ground arith

-- A domain whose plan is made: active domains were classified without error.
pub record Planned (d : Domain) : Type 0 where
  pub untouched : Untouched d
  pub plan :
      d.target.active ≡ true
      → d.report.error ≡ pos 0
      → (classify d.target d.report.before ≡ ok d.disposition) × (d.disposition ≢ fail)

pub classify_domain-Planned :
    (d : Domain) → Untouched d → d.report.error ≡ pos 0 → Planned (classify_domain d)
unfolding classify_domain decide
classify_domain-Planned d u e = elim (Result-cases (classify d.target d.report.before)) [
  | inl (s, c) ↦ ground (arith, failed_disposition_error-IsNegative d.report.before)
  | inr (x, c) ↦ ground (arith, classify-IsNegative d.target d.report.before x c)
]

-- The fields that the workers and the coordinator leave alone after the plan.
pub record SamePlan (d e : Domain) : Type 0 where
  pub target : e.target ≡ d.target
  pub answers : e.answers ≡ d.answers
  pub disposition : e.disposition ≡ d.disposition
  pub before : e.report.before ≡ d.report.before

-- After the creation round: a worker that ran owns what it committed, and a domain without one has
-- an error only where the creation failed.
pub record Worked (d : Domain) (stopped : Bool) : Type 0 where
  pub nonpos : NonPositive d.report.error
  pub no_cancels : d.cancels ≡ 0
  pub not_rejected : d.write_rejected ≡ false
  pub owner : d.report.rollback_owned ≡ true → (d.created ≡ true) × (d.target.active ≡ true)
  pub off : d.target.active ≡ false → d.report.error ≡ pos 0
  pub idle : d.created ≡ false → stopped ≡ false → d.report.error ≡ pos 0
  pub stop : stopped ≡ true → IsNegative d.report.error
  pub runs : d.created ≡ true → d.target.active ≡ true

store_result_nonpos :
    (length : ℕ) (preexisting : Bool) (w : WriteResult) (r : DomainReport)
    → r.error ≡ pos 0
    → NonPositive (store_result length preexisting w r).error
unfolding store_result
store_result_nonpos length preexisting w r h = ground arith

-- The command and the time that the worker of a domain works with.
abbrev pub command_for : ℕ → Domain → List ℕ
command_for generation d =
    prepare_command (if is_refresh d.disposition then d.report.before.generation else generation)
      d.target

abbrev elapsed_for : Domain → ℕ
elapsed_for d =
    if leb d.answers.started d.answers.finished then d.answers.finished - d.answers.started else 0

prepare_worker-Worked :
    (with_commit : Bool) (generation : ℕ) (d : Domain)
    → Planned d
    → d.target.active ≡ true
    → d.report.error ≡ pos 0
    → Worked (record (prepare_worker with_commit generation d) { created = true }) false
unfolding prepare_worker
prepare_worker-Worked with_commit generation d p on e = ground (
  arith,
  store_result_nonpos (length (command_for generation d)) (is_refresh d.disposition)
      (retry_write with_commit (length (command_for generation d)) d.answers.store).0
      (record (d.report) { elapsed_ns = elapsed_for d }),
)

pub create_worker-Worked :
    (with_commit : Bool) (generation : ℕ) (d : Domain)
    → Planned d
    → d.report.error ≡ pos 0
    → Worked (create_worker with_commit generation d).0 (create_worker with_commit generation d).1
unfolding create_worker pthread_error
create_worker-Worked with_commit generation d p e =
    ground (arith, prepare_worker-Worked with_commit generation d p)

-- After the join: an error is the driver's refusal of the store, or fails the whole transaction.
pub record Joined (d : Domain) (failed : Bool) : Type 0 where
  pub nonpos : NonPositive d.report.error
  pub no_cancels : d.cancels ≡ 0
  pub owner : d.report.rollback_owned ≡ true → d.target.active ≡ true
  pub off : d.target.active ≡ false → d.report.error ≡ pos 0
  pub rejected : d.write_rejected ≡ true → IsNegative d.report.error
  pub reported : IsNegative d.report.error → (d.write_rejected ≡ true) ⊎ (failed ≡ true)

pub first_join_error_nonpos : (joins : List ℤ) → NonPositive (first_join_error joins)
unfolding first_join_error pthread_error
first_join_error_nonpos [] = inl refl
first_join_error_nonpos (result ∷ rest) = ground arith

pub join_worker-Joined :
    (d : Domain) (stopped : Bool)
    → Worked d stopped
    → Joined (join_worker d).0 ((join_worker d).1 || stopped)
unfolding join_worker
join_worker-Joined d stopped w = ground (arith, first_join_error_nonpos d.answers.joins)

-- A failed join leaves an error behind.
pub join_worker-failed :
    (d : Domain) (stopped : Bool)
    → Worked d stopped
    → (join_worker d).1 ≡ true
    → IsNegative (first_join_error d.answers.joins) × (d.created ≡ true)
unfolding join_worker
join_worker-failed d stopped w h = ground (arith, first_join_error_nonpos d.answers.joins)

-- The final status of the domain is the one that streams can start on.
abbrev pub Settled : ℕ → Domain → Type 0
Settled generation d = IsSettled d.target d.report.before d.report.after d.disposition generation

-- After the final status was read: without a failure of the whole transaction, an active domain is
-- settled or its store was refused.
pub record Checked (generation : ℕ) (d : Domain) (failed : Bool) : Type 0 where
  pub joined : Joined d failed
  pub settled :
      failed ≡ false
      → d.target.active ≡ true
      → (d.write_rejected ≡ true) ⊎ ((d.report.error ≡ pos 0) × Settled generation d)

pub check_after-Checked :
    (generation : ℕ) (d : Domain) (failed : Bool)
    → Joined d failed
    → Checked generation (check_after generation d).0 ((check_after generation d).1 || failed)
unfolding check_after note_failure
check_after-Checked generation d failed j = elim (Result-cases (read_status d.answers.after)) [
  | inl (s, e) ↦ ground (
    arith,
    validate-IsSettled d.target d.report.before s d.disposition generation,
    validate_nonpos d.target d.report.before s d.disposition generation,
  )
  | inr (x, e) ↦ ground (arith, read_status-IsNegative d.answers.after x e)
]

-- The error that the coordinator remembers of the check is negative exactly where the check failed.
pub check_after_error :
    (generation : ℕ) (d : Domain)
    → ((check_after generation d).1 ≡ true → IsNegative (check_after generation d).2)
      × ((check_after generation d).1 ≡ false → (check_after generation d).2 ≡ pos 0)
unfolding check_after
check_after_error generation d = elim (Result-cases (read_status d.answers.after)) [
  | inl (s, e) ↦ ground arith
  | inr (x, e) ↦ ground (arith, read_status-IsNegative d.answers.after x e)
]

-- The check keeps an error, and adds one only where it fails.
pub check_after_keeps :
    (generation : ℕ) (d : Domain)
    → (IsNegative d.report.error → IsNegative (check_after generation d).0.report.error)
      × (IsNegative (check_after generation d).0.report.error
          → IsNegative d.report.error ⊎ ((check_after generation d).1 ≡ true))
unfolding check_after note_failure
check_after_keeps generation d = elim (Result-cases (read_status d.answers.after)) [
  | inl (s, e) ↦ (ground arith, ground arith)
  | inr (x, e) ↦ (ground (arith, read_status-IsNegative d.answers.after x e), ground arith)
]

pub create_worker-SamePlan :
    (with_commit : Bool) (generation : ℕ) (d : Domain)
    → SamePlan d (create_worker with_commit generation d).0
unfolding create_worker prepare_worker store_result
create_worker-SamePlan with_commit generation d = ground arith

pub join_worker-SamePlan : (d : Domain) → SamePlan d (join_worker d).0
unfolding join_worker
join_worker-SamePlan d = ground arith

pub check_after-SamePlan : (generation : ℕ) (d : Domain) → SamePlan d (check_after generation d).0
unfolding check_after note_failure
check_after-SamePlan generation d = ground arith

pub SamePlan-trans : {a b c : Domain} → SamePlan a b → SamePlan b c → SamePlan a c
SamePlan-trans p q = ground arith
