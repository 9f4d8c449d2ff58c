-- ===== src/Prepare/Status.antt =====
-- `max9296_prepare_parse_status`: the driver's status line, `key=value` tokens between white space.
pub mod Fields
pub mod Scan
pub mod RoundTrip
pub mod Bounds
use gst_app.Prelude.{
  ℕ, ◌-◌, ◌^◌, ℤ, pos, List, [], ◌∷◌, ◌++◌, length, Bool, true, false, ◌&&◌, ◌||◌, Option, none,
  some, codes, same_bytes, ltb, leb, ◌==◌, if◌then◌else◌,
}
use gst_app.Prepare.Types.{
  PrepareState, idle, preparing, ready, stale, consumed, failed, expired, PrepareStatus,
}
use gst_app.Prepare.Number.{is_space, parse_unsigned, parse_uint32, parse_int}

pub data Field : Type 0 where
  state generation epoch mode table width height fps code enable errno worker_errno lease match :
      Field

-- The position in the enumeration, which is the index into `seen`.
unfoldable pub field_index : Field → ℕ
field_index Field.state = 0
field_index Field.generation = 1
field_index Field.epoch = 2
field_index Field.mode = 3
field_index Field.table = 4
field_index Field.width = 5
field_index Field.height = 6
field_index Field.fps = 7
field_index Field.code = 8
field_index Field.enable = 9
field_index Field.errno = 10
field_index Field.worker_errno = 11
field_index Field.lease = 12
field_index Field.match = 13

-- `token_equals`.
abbrev pub token_equals : List ℕ → List ℕ → Bool
token_equals text value = same_bytes text value

-- `none` is FIELD_UNKNOWN.
unfoldable pub status_field : List ℕ → Option Field
status_field key =
    if token_equals key (codes "state")
    then some Field.state
    else if token_equals key (codes "generation")
    then some Field.generation
    else if token_equals key (codes "epoch")
    then some Field.epoch
    else if token_equals key (codes "mode")
    then some Field.mode
    else if token_equals key (codes "table")
    then some Field.table
    else if token_equals key (codes "width")
    then some Field.width
    else if token_equals key (codes "height")
    then some Field.height
    else if token_equals key (codes "fps")
    then some Field.fps
    else if token_equals key (codes "code")
    then some Field.code
    else if token_equals key (codes "enable")
    then some Field.enable
    else if token_equals key (codes "errno")
    then some Field.errno
    else if token_equals key (codes "worker_errno")
    then some Field.worker_errno
    else if token_equals key (codes "lease")
    then some Field.lease
    else if token_equals key (codes "match")
    then some Field.match
    else none

-- What a bounded buffer holds after the copy; `none` if it is empty or does not fit.
unfoldable pub copy_token : ℕ → List ℕ → Option (List ℕ)
copy_token capacity source =
    if length source == 0 || leb capacity (length source) then none else some source

unfoldable pub parse_state : List ℕ → Option PrepareState
parse_state source =
    if token_equals source (codes "IDLE")
    then some idle
    else if token_equals source (codes "PREPARING")
    then some preparing
    else if token_equals source (codes "READY")
    then some ready
    else if token_equals source (codes "STALE")
    then some stale
    else if token_equals source (codes "CONSUMED")
    then some consumed
    else if token_equals source (codes "FAILED")
    then some failed
    else if token_equals source (codes "EXPIRED")
    then some expired
    else none

-- A flag field: a number that is at most 1.
parse_flag : List ℕ → Option ℕ
parse_flag value = elim (parse_uint32 value false) [
  | none ↦ none
  | some v ↦ if ltb 1 v then none else some v
]

abbrev with_value {ℓ} : {A : Type ℓ} → Option A → (A → PrepareStatus) → Option PrepareStatus
with_value none store = none
with_value (some a) store = some (store a)

-- The `switch`: the field parsed and stored, or `none` where the value is not valid.
unfoldable pub store_field : Field → List ℕ → PrepareStatus → Option PrepareStatus
unfolding parse_flag
store_field Field.state v s = with_value (parse_state v) (λ a. record s { state = a })
store_field Field.generation v s =
    with_value (parse_unsigned v false) (λ a. record s { generation = a })
store_field Field.epoch v s = with_value (parse_unsigned v false) (λ a. record s { epoch = a })
store_field Field.mode v s = with_value (copy_token 16 v) (λ a. record s { mode = a })
store_field Field.table v s = with_value (copy_token 16 v) (λ a. record s { table = a })
store_field Field.width v s = with_value (parse_uint32 v false) (λ a. record s { width = a })
store_field Field.height v s = with_value (parse_uint32 v false) (λ a. record s { height = a })
store_field Field.fps v s = with_value (parse_uint32 v false) (λ a. record s { fps = a })
store_field Field.code v s = with_value (parse_uint32 v true) (λ a. record s { code = a })
store_field Field.enable v s = with_value (parse_uint32 v false) (λ a. record s { enable = a })
store_field Field.errno v s = with_value (parse_int v) (λ a. record s { last_errno = a })
store_field Field.worker_errno v s = with_value (parse_int v) (λ a. record s { worker_errno = a })
store_field Field.lease v s = with_value (parse_flag v) (λ a. record s { lease = a })
store_field Field.match v s = with_value (parse_flag v) (λ a. record s { match = a })

-- The scan over the line: the maximal runs of characters that are no white space.
unfoldable pub flush : List ℕ → List (List ℕ) → List (List ℕ)
flush [] rest = rest
flush (c ∷ cs) rest = (c ∷ cs) ∷ rest

unfoldable pub scan : List ℕ → List ℕ → List (List ℕ)
unfolding flush
scan token [] = flush token []
scan token (c ∷ cs) = elim (is_space c) [
  | true ↦ flush token (scan [] cs)
  | false ↦ scan (token ++ c ∷ []) cs
]

unfoldable pub tokens : List ℕ → List (List ℕ)
unfolding scan
tokens line = scan [] line

-- The key before the first `=` and the value after it; `none` where there is no `=`.
unfoldable pub split_key : List ℕ → Option (List ℕ × List ℕ)
split_key [] = none
split_key (c ∷ cs) = elim (c == b'=') [
  | true ↦ some ([], cs)
  | false ↦ elim (split_key cs) [ none ↦ none | some (key, value) ↦ some (c ∷ key, value) ]
]

pub record Parsed : Type 0 where
  pub status : PrepareStatus
  pub seen : Field → Bool

unfoldable pub mark : Field → (Field → Bool) → Field → Bool
unfolding field_index
mark f seen g = if field_index f == field_index g then true else seen g

-- A token with a known key.
unfoldable pub take_field : Parsed → Field → List ℕ → Option Parsed
unfolding mark
take_field p field value = if p.seen field then none else elim (store_field field value p.status) [
  | none ↦ none
  | some s ↦ some (record { status = s; seen = mark field p.seen })
]

-- A token after it has been split: an empty key is refused, an unknown one is passed over.
unfoldable pub take_entry : Parsed → List ℕ × List ℕ → Option Parsed
unfolding take_field
take_entry p ([], value) = none
take_entry p (c ∷ key, value) = elim (status_field (c ∷ key)) [
  | none ↦ some p
  | some field ↦ take_field p field value
]

-- One round of the loop.
unfoldable pub parse_token : Parsed → List ℕ → Option Parsed
unfolding take_entry
parse_token p token = elim (split_key token) [ none ↦ none | some entry ↦ take_entry p entry ]

unfoldable pub parse_tokens : Parsed → List (List ℕ) → Option Parsed
parse_tokens p [] = some p
parse_tokens p (token ∷ rest) = elim (parse_token p token) [
  | none ↦ none
  | some q ↦ parse_tokens q rest
]

abbrev pub zero_status : PrepareStatus
zero_status = record {
  state = idle;
  generation = 0;
  epoch = 0;
  mode = [];
  table = [];
  width = 0;
  height = 0;
  fps = 0;
  code = 0;
  enable = 0;
  last_errno = pos 0;
  worker_errno = pos 0;
  lease = 0;
  match = 0;
}

abbrev pub all_fields : List Field
all_fields =
    Field.state ∷ Field.generation ∷ Field.epoch ∷ Field.mode ∷ Field.table ∷ Field.width
    ∷ Field.height ∷ Field.fps ∷ Field.code ∷ Field.enable ∷ Field.errno ∷ Field.worker_errno
    ∷ Field.lease ∷ Field.match ∷ []

abbrev pub every : (Field → Bool) → List Field → Bool
every test [] = true
every test (f ∷ fs) = test f && every test fs

unfoldable pub finish : Parsed → Option PrepareStatus
finish p = if every p.seen all_fields then some p.status else none

-- `none` is -EINVAL.
unfoldable pub parse_status : List ℕ → Option PrepareStatus
unfolding finish
parse_status line =
    elim (parse_tokens (record { status = zero_status; seen = λ f. false }) (tokens line)) [
      | none ↦ none
      | some p ↦ finish p
    ]
