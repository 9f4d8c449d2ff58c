-- ===== src/Prepare/Status/Fields.antt =====
-- Each field of the status line by itself: its key, its value in print, and what storing it does.
use gst_app.Prelude.{
  ℕ, ◌^◌, ◌≤◌, ◌<◌, ◌≡◌, refl, List, length, All, true, false, some, codes, arith,
}
use gst_app.Prepare.Types.{
  PrepareState, idle, preparing, ready, stale, consumed, failed, expired, PrepareStatus,
}
use gst_app.Prepare.Number.{decimal, decimal_ℤ, is_space}
use gst_app.Prepare.Number.Decimal.{
  IsInt32, parse_unsigned-decimal, parse_uint32-decimal, parse_int-decimal,
}
use gst_app.Prepare.Status.{
  Field, field_index, status_field, store_field, parse_state, copy_token, parse_flag,
}

-- The key of a field, as the driver prints it.
abbrev pub key : Field → List ℕ
key Field.state = codes "state"
key Field.generation = codes "generation"
key Field.epoch = codes "epoch"
key Field.mode = codes "mode"
key Field.table = codes "table"
key Field.width = codes "width"
key Field.height = codes "height"
key Field.fps = codes "fps"
key Field.code = codes "code"
key Field.enable = codes "enable"
key Field.errno = codes "errno"
key Field.worker_errno = codes "worker_errno"
key Field.lease = codes "lease"
key Field.match = codes "match"

abbrev pub state_name : PrepareState → List ℕ
state_name idle = codes "IDLE"
state_name preparing = codes "PREPARING"
state_name ready = codes "READY"
state_name stale = codes "STALE"
state_name consumed = codes "CONSUMED"
state_name failed = codes "FAILED"
state_name expired = codes "EXPIRED"

-- The value of a field in print.
abbrev pub value_text : PrepareStatus → Field → List ℕ
value_text s Field.state = state_name s.state
value_text s Field.generation = decimal s.generation
value_text s Field.epoch = decimal s.epoch
value_text s Field.mode = s.mode
value_text s Field.table = s.table
value_text s Field.width = decimal s.width
value_text s Field.height = decimal s.height
value_text s Field.fps = decimal s.fps
value_text s Field.code = decimal s.code
value_text s Field.enable = decimal s.enable
value_text s Field.errno = decimal_ℤ s.last_errno
value_text s Field.worker_errno = decimal_ℤ s.worker_errno
value_text s Field.lease = decimal s.lease
value_text s Field.match = decimal s.match

-- No white space, so that the text is one token.
abbrev pub IsWord : List ℕ → Type 0
IsWord text = All (λ c. is_space c ≡ false) text

-- A name that fits the 16-byte buffers of the status.
abbrev pub IsName : List ℕ → Type 0
IsName text = IsWord text × (0 < length text) × (length text < 16)

-- The ranges of the status fields.
pub record IsStatus (s : PrepareStatus) : Type 0 where
  pub generation : s.generation < 2 ^ 64
  pub epoch : s.epoch < 2 ^ 64
  pub mode : IsName s.mode
  pub table : IsName s.table
  pub width : s.width < 2 ^ 32
  pub height : s.height < 2 ^ 32
  pub fps : s.fps < 2 ^ 32
  pub code : s.code < 2 ^ 32
  pub enable : s.enable < 2 ^ 32
  pub last_errno : IsInt32 s.last_errno
  pub worker_errno : IsInt32 s.worker_errno
  pub lease : s.lease ≤ 1
  pub match : s.match ≤ 1

-- `q` has the field of `s`.
abbrev pub Agrees : PrepareStatus → PrepareStatus → Field → Type 0
Agrees s q Field.state = q.state ≡ s.state
Agrees s q Field.generation = q.generation ≡ s.generation
Agrees s q Field.epoch = q.epoch ≡ s.epoch
Agrees s q Field.mode = q.mode ≡ s.mode
Agrees s q Field.table = q.table ≡ s.table
Agrees s q Field.width = q.width ≡ s.width
Agrees s q Field.height = q.height ≡ s.height
Agrees s q Field.fps = q.fps ≡ s.fps
Agrees s q Field.code = q.code ≡ s.code
Agrees s q Field.enable = q.enable ≡ s.enable
Agrees s q Field.errno = q.last_errno ≡ s.last_errno
Agrees s q Field.worker_errno = q.worker_errno ≡ s.worker_errno
Agrees s q Field.lease = q.lease ≡ s.lease
Agrees s q Field.match = q.match ≡ s.match

-- `q` with the field of `s`.
abbrev pub copied : PrepareStatus → PrepareStatus → Field → PrepareStatus
copied s q Field.state = record q { state = s.state }
copied s q Field.generation = record q { generation = s.generation }
copied s q Field.epoch = record q { epoch = s.epoch }
copied s q Field.mode = record q { mode = s.mode }
copied s q Field.table = record q { table = s.table }
copied s q Field.width = record q { width = s.width }
copied s q Field.height = record q { height = s.height }
copied s q Field.fps = record q { fps = s.fps }
copied s q Field.code = record q { code = s.code }
copied s q Field.enable = record q { enable = s.enable }
copied s q Field.errno = record q { last_errno = s.last_errno }
copied s q Field.worker_errno = record q { worker_errno = s.worker_errno }
copied s q Field.lease = record q { lease = s.lease }
copied s q Field.match = record q { match = s.match }

pub status_field-key : (f : Field) → status_field (key f) ≡ some f
unfolding status_field
status_field-key Field.state = refl
status_field-key _ = refl

parse_state-name : (s : PrepareState) → parse_state (state_name s) ≡ some s
unfolding parse_state
parse_state-name idle = refl
parse_state-name _ = refl

parse_flag-decimal : (n : ℕ) → n ≤ 1 → parse_flag (decimal n) ≡ some n
unfolding parse_flag
parse_flag-decimal n h = rw (parse_uint32-decimal n false (omega arith), parse_flag) (ground arith)

copy_token-name : (text : List ℕ) → IsName text → copy_token 16 text ≡ some text
unfolding copy_token
copy_token-name text h = ground arith

pub store_field-value_text :
    (s q : PrepareStatus) (f : Field)
    → IsStatus s
    → store_field f (value_text s f) q ≡ some (copied s q f)
unfolding store_field
store_field-value_text s q Field.state v = rw (parse_state-name s.state)
store_field-value_text s q Field.generation v =
    rw (parse_unsigned-decimal s.generation false v.generation)
store_field-value_text s q Field.epoch v = rw (parse_unsigned-decimal s.epoch false v.epoch)
store_field-value_text s q Field.mode v = rw (copy_token-name s.mode v.mode)
store_field-value_text s q Field.table v = rw (copy_token-name s.table v.table)
store_field-value_text s q Field.width v = rw (parse_uint32-decimal s.width false v.width)
store_field-value_text s q Field.height v = rw (parse_uint32-decimal s.height false v.height)
store_field-value_text s q Field.fps v = rw (parse_uint32-decimal s.fps false v.fps)
store_field-value_text s q Field.code v = rw (parse_uint32-decimal s.code true v.code)
store_field-value_text s q Field.enable v = rw (parse_uint32-decimal s.enable false v.enable)
store_field-value_text s q Field.errno v = rw (parse_int-decimal s.last_errno v.last_errno)
store_field-value_text s q Field.worker_errno v =
    rw (parse_int-decimal s.worker_errno v.worker_errno)
store_field-value_text s q Field.lease v = rw (parse_flag-decimal s.lease v.lease)
store_field-value_text s q Field.match v = rw (parse_flag-decimal s.match v.match)

pub copied_self : (s q : PrepareStatus) (f : Field) → Agrees s (copied s q f) f
copied_self s q Field.state = refl
copied_self s q _ = refl

-- Storing one field keeps every field that was right.
pub copied-Agrees : (s q : PrepareStatus) (f g : Field) → Agrees s q g → Agrees s (copied s q f) g
copied-Agrees s q Field.state g h = ground arith
copied-Agrees s q f g h = ground arith

pub field_index_injective : (f g : Field) → field_index f ≡ field_index g → f ≡ g
unfolding field_index
field_index_injective Field.state g h = ground arith
field_index_injective f g h = ground arith
