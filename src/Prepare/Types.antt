-- ===== src/Prepare/Types.antt =====
-- The data types of max9296Prepare.h. Texts are byte lists, an array over the two CSI domains is a
-- `Two`, and a pointer that the code always sets is taken as the value behind it.
use gst_app.Prelude.{ℕ, ℤ, List, Bool, ◌≡◌, ◌⊎◌, inl, inr, refl}

pub data PrepareState : Type 0 where
  idle preparing ready stale consumed failed expired : PrepareState

pub data PrepareAction : Type 0 where
  skipped legacy warm_reused ready_refreshed cold_prepared action_failed : PrepareAction

pub data Disposition : Type 0 where
  warm refresh_ready new_prepare fail : Disposition

pub record Two {ℓ} (A : Type ℓ) : Type ℓ where
  pub csi0 : A
  pub csi1 : A

pub record PrepareInput : Type 0 where
  pub width : ℕ
  pub height : ℕ
  pub fps : Two ℕ
  pub ch0 : ℕ
  pub ch1 : ℕ
  pub ch2 : ℕ
  pub ch3 : ℕ
  pub generation : ℕ

pub record PrepareStatus : Type 0 where
  pub state : PrepareState
  pub generation : ℕ
  pub epoch : ℕ
  pub mode : List ℕ
  pub table : List ℕ
  pub width : ℕ
  pub height : ℕ
  pub fps : ℕ
  pub code : ℕ
  pub enable : ℕ
  pub last_errno : ℤ
  pub worker_errno : ℤ
  pub lease : ℕ
  pub match : ℕ

pub record PrepareTarget : Type 0 where
  pub active : Bool
  pub csi : ℕ
  pub path : List ℕ
  pub width : ℕ
  pub height : ℕ
  pub fps : ℕ
  pub enable : ℕ
  pub mode : List ℕ
  pub table : List ℕ

pub record DomainReport : Type 0 where
  pub active : Bool
  pub rollback_owned : Bool
  pub action : PrepareAction
  pub error : ℤ
  pub rollback_error : ℤ
  pub elapsed_ns : ℕ
  pub before : PrepareStatus
  pub after : PrepareStatus

pub record PrepareReport : Type 0 where
  pub legacy_fallback : Bool
  pub generation : ℕ
  pub error : ℤ
  pub domain : Two DomainReport

-- A value or a negative error code.
pub data Result {ℓ} (A : Type ℓ) : Type ℓ where
  ok : A → Result A
  err : ℤ → Result A

pub Result-cases {ℓ} :
    {A : Type ℓ} (r : Result A) → ((a : A) × (r ≡ ok a)) ⊎ ((e : ℤ) × (r ≡ err e))
Result-cases (ok a) = inl (a, refl)
Result-cases (err e) = inr (e, refl)
