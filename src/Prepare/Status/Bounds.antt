-- ===== src/Prepare/Status/Bounds.antt =====
-- Every status line that is accepted yields a status within the ranges of its C types.
use gst_app.Prelude.{
  ℕ, ◌^◌, ◌≤◌, ◌<◌, ◌≡◌, ◌≢◌, List, [], ◌∷◌, length, Bool, true, false, some, ◌==◌, subst,
  Bool-cases, Option-cases, inl, inr, ==_iff, arith,
}
use gst_app.Prepare.Types.{PrepareStatus}
use gst_app.Prepare.Number.Range.{parse_unsigned-lt, parse_uint32-lt, parse_int-IsInt32}
use gst_app.Prepare.Number.Decimal.{IsInt32}
use gst_app.Prepare.Status.{
  Field, field_index, store_field, parse_flag, copy_token, Parsed, mark, take_field, take_entry,
  parse_token, parse_tokens, tokens, all_fields, every, finish, parse_status, zero_status,
  split_key, status_field,
}
use gst_app.Prepare.Status.Fields.{field_index_injective}

-- The field is in range.
abbrev pub Fits : PrepareStatus → Field → Type 0
Fits s Field.state = Unit {0}
Fits s Field.generation = s.generation < 2 ^ 64
Fits s Field.epoch = s.epoch < 2 ^ 64
Fits s Field.mode = (0 < length s.mode) × (length s.mode < 16)
Fits s Field.table = (0 < length s.table) × (length s.table < 16)
Fits s Field.width = s.width < 2 ^ 32
Fits s Field.height = s.height < 2 ^ 32
Fits s Field.fps = s.fps < 2 ^ 32
Fits s Field.code = s.code < 2 ^ 32
Fits s Field.enable = s.enable < 2 ^ 32
Fits s Field.errno = IsInt32 s.last_errno
Fits s Field.worker_errno = IsInt32 s.worker_errno
Fits s Field.lease = s.lease ≤ 1
Fits s Field.match = s.match ≤ 1

parse_flag-le : (v : List ℕ) (n : ℕ) → parse_flag v ≡ some n → n ≤ 1
unfolding parse_flag
parse_flag-le v n h = ground arith

copy_token-fits :
    (v text : List ℕ) → copy_token 16 v ≡ some text → (0 < length text) × (length text < 16)
unfolding copy_token
copy_token-fits v text h = ground arith

store_field-Fits :
    (f : Field) (v : List ℕ) (q r : PrepareStatus) → store_field f v q ≡ some r → Fits r f
unfolding store_field
store_field-Fits Field.state v q r h = tt
store_field-Fits Field.generation v q r h = ground (arith, parse_unsigned-lt v false r.generation)
store_field-Fits Field.epoch v q r h = ground (arith, parse_unsigned-lt v false r.epoch)
store_field-Fits Field.mode v q r h = ground (arith, copy_token-fits v r.mode)
store_field-Fits Field.table v q r h = ground (arith, copy_token-fits v r.table)
store_field-Fits Field.width v q r h = ground (arith, parse_uint32-lt v false r.width)
store_field-Fits Field.height v q r h = ground (arith, parse_uint32-lt v false r.height)
store_field-Fits Field.fps v q r h = ground (arith, parse_uint32-lt v false r.fps)
store_field-Fits Field.code v q r h = ground (arith, parse_uint32-lt v true r.code)
store_field-Fits Field.enable v q r h = ground (arith, parse_uint32-lt v false r.enable)
store_field-Fits Field.errno v q r h = ground (arith, parse_int-IsInt32 v r.last_errno)
store_field-Fits Field.worker_errno v q r h = ground (arith, parse_int-IsInt32 v r.worker_errno)
store_field-Fits Field.lease v q r h = ground (arith, parse_flag-le v r.lease)
store_field-Fits Field.match v q r h = ground (arith, parse_flag-le v r.match)

store_field-keeps :
    (f g : Field) (v : List ℕ) (q r : PrepareStatus)
    → store_field f v q ≡ some r
    → field_index f ≢ field_index g
    → Fits q g
    → Fits r g
unfolding store_field field_index
store_field-keeps Field.state g v q r h ne ok = ground arith
store_field-keeps _ g v q r h ne ok = ground arith

-- What the loop keeps: the fields seen so far are in range.
abbrev SeenFits : Parsed → Type 0
SeenFits p = (f : Field) → p.seen f ≡ true → Fits p.status f

take_field-SeenFits :
    (p q : Parsed) (f : Field) (v : List ℕ) → SeenFits p → take_field p f v ≡ some q → SeenFits q
unfolding take_field mark
take_field-SeenFits p q f v h e g seen = elim (Bool-cases (p.seen f)) [
  | inl old ↦ ground arith
  | inr new ↦ elim (Option-cases (store_field f v p.status)) [
    | inl bad ↦ ground arith
    | inr (r, stored) ↦ elim (Bool-cases (field_index f == field_index g)) [
      | inl same ↦
          let eq : f ≡ g = field_index_injective f g ((==_iff _ _).0 same) in
          let fits : Fits r g = subst (Fits r) eq (store_field-Fits f v p.status r stored) in
          let status : r ≡ q.status = ground arith in subst (λ s. Fits s g) status fits
      | inr differs ↦
          let old : p.seen g ≡ true = ground arith in
          let fits : Fits r g =
            store_field-keeps f g v p.status r stored (ground arith) (h g old) in
          let status : r ≡ q.status = ground arith in subst (λ s. Fits s g) status fits
    ]
  ]
]

same_SeenFits : (p q : Parsed) → SeenFits p → some p ≡ some q → SeenFits q
same_SeenFits p q h e = let eq : p ≡ q = cc in subst SeenFits eq h

take_entry-SeenFits :
    (p q : Parsed) (entry : List ℕ × List ℕ) → SeenFits p → take_entry p entry ≡ some q → SeenFits q
unfolding take_entry
take_entry-SeenFits p q ([], value) h e = absurd (ground arith)
take_entry-SeenFits p q (c ∷ key, value) h e = elim (Option-cases (status_field (c ∷ key))) [
  | inl unknown ↦ same_SeenFits p q h (rw (unknown, take_entry) at e)
  | inr (f, found) ↦ take_field-SeenFits p q f value h (rw (found, take_entry) at e)
]

parse_token-SeenFits :
    (p q : Parsed) (token : List ℕ) → SeenFits p → parse_token p token ≡ some q → SeenFits q
unfolding parse_token
parse_token-SeenFits p q token h e = elim (Option-cases (split_key token)) [
  | inl bad ↦ absurd (ground arith)
  | inr (entry, split) ↦ take_entry-SeenFits p q entry h (rw (split, parse_token) at e)
]

parse_tokens-SeenFits :
    (p q : Parsed) (ts : List (List ℕ)) → SeenFits p → parse_tokens p ts ≡ some q → SeenFits q
unfolding parse_tokens
parse_tokens-SeenFits p q [] h e = same_SeenFits p q h e
parse_tokens-SeenFits p q (t ∷ ts) h e = elim (Option-cases (parse_token p t)) [
  | inl bad ↦ ground arith
  | inr (r, took) ↦
      parse_tokens-SeenFits r q ts (parse_token-SeenFits p r t h took)
        (rw (took, parse_tokens) at e)
]

every_sound : (test : Field → Bool) (f : Field) → every test all_fields ≡ true → test f ≡ true
every_sound test Field.state h = ground arith
every_sound test _ h = ground arith

abbrev start : Parsed
start = record { status = zero_status; seen = λ f. false }

finish-Fits :
    (p : Parsed) (s : PrepareStatus) → SeenFits p → finish p ≡ some s → (f : Field) → Fits s f
unfolding finish
finish-Fits p s h e f = elim (Bool-cases (every p.seen all_fields)) [
  | inl complete ↦
      let eq : p.status ≡ s = ground arith in
      subst (λ t. Fits t f) eq (h f (every_sound p.seen f complete))
  | inr missing ↦ absurd (ground arith)
]

-- Whatever the line, a status that is accepted has every field within its C type's range, its names
-- non-empty and within their buffers, and its flags 0 or 1.
pub parse_status-Fits :
    (line : List ℕ) (s : PrepareStatus) → parse_status line ≡ some s → (f : Field) → Fits s f
unfolding parse_status
parse_status-Fits line s e f = elim (Option-cases (parse_tokens start (tokens line))) [
  | inl bad ↦ absurd (ground arith)
  | inr (p, parsed) ↦
      let fits = parse_tokens-SeenFits start p (tokens line) (λ g seen. cc) parsed in
      let done : finish p ≡ some s = rw (parsed, parse_status) at e in finish-Fits p s fits done f
]
