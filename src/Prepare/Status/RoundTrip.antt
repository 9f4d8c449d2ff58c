-- ===== src/Prepare/Status/RoundTrip.antt =====
-- A printed status line is parsed back, whatever the order of its fields and whatever other keys
-- stand between them.
use gst_app.Prelude.{
  ℕ, suc, ◌+◌, ◌<◌, ◌≡◌, ◌≢◌, refl, ◌∙◌, ap, List, [], ◌∷◌, ◌++◌, map, subst, Bool-cases, ==_iff,
  inl, inr, length, length-append, All, All-append, Bool, true, false, ℤ, pos, negsuc, Option, none,
  some, ◌==◌, if◌then◌else◌, arith,
}
use gst_app.Prepare.Types.{PrepareState, idle, PrepareStatus}
use gst_app.Prepare.Number.{is_space, decimal, decimal_ℤ}
use gst_app.Prepare.Number.Decimal.{IsDigit, decimal-IsDigit}
use gst_app.Prepare.Status.{
  Field, field_index, status_field, Parsed, mark, take_field, take_entry, parse_token, parse_tokens,
  tokens, all_fields, every, finish, parse_status, zero_status,
}
use gst_app.Prepare.Status.Fields.{
  key, state_name, value_text, IsWord, IsStatus, Agrees, copied, store_field-value_text,
  copied_self, copied-Agrees, field_index_injective,
}
use gst_app.Prepare.Status.Scan.{blank, tokens-word, split_key-entry, tokens_newline}

-- A field of the status, or a key that this parser does not know.
pub data Entry : Type 0 where
  known : Field → Entry
  other : List ℕ → List ℕ → Entry

abbrev pub entry_text : PrepareStatus → Entry → List ℕ
entry_text s (known f) = key f ++ b'=' ∷ value_text s f
entry_text s (other k v) = k ++ b'=' ∷ v

-- The line: the entries with a blank after each, and the final newline.
abbrev pub print_entries : PrepareStatus → List Entry → List ℕ
print_entries s [] = 10 ∷ []
print_entries s (e ∷ es) = entry_text s e ++ blank ∷ print_entries s es

-- An unknown key is a word of its own that holds no `=`.
abbrev pub IsEntry : Entry → Type 0
IsEntry (known f) = Unit {0}
IsEntry (other k v) =
    IsWord k × IsWord v × (0 < length k) × All (λ c. c ≢ b'=') k × (status_field k ≡ none)

-- How often the entries give the field.
abbrev pub count : Field → List Entry → ℕ
count f [] = 0
count f (known g ∷ es) = (if field_index g == field_index f then 1 else 0) + count f es
count f (other k v ∷ es) = count f es

digits-IsWord : (text : List ℕ) → All IsDigit text → IsWord text
unfolding is_space
digits-IsWord [] h = tt
digits-IsWord (c ∷ cs) h = (ground arith, digits-IsWord cs h.1)

decimal-IsWord : (n : ℕ) → IsWord (decimal n)
decimal-IsWord n = digits-IsWord (decimal n) (decimal-IsDigit n)

decimal_ℤ-IsWord : (v : ℤ) → IsWord (decimal_ℤ v)
unfolding decimal_ℤ is_space
decimal_ℤ-IsWord (pos n) = decimal-IsWord n
decimal_ℤ-IsWord (negsuc n) = (refl, decimal-IsWord (suc n))

state_name-IsWord : (s : PrepareState) → IsWord (state_name s)
unfolding is_space
state_name-IsWord idle = ground arith
state_name-IsWord _ = ground arith

value_text-IsWord : (s : PrepareStatus) (f : Field) → IsStatus s → IsWord (value_text s f)
value_text-IsWord s Field.state v = state_name-IsWord s.state
value_text-IsWord s Field.mode v = v.mode.0
value_text-IsWord s Field.table v = v.table.0
value_text-IsWord s Field.errno v = decimal_ℤ-IsWord s.last_errno
value_text-IsWord s Field.worker_errno v = decimal_ℤ-IsWord s.worker_errno
value_text-IsWord s _ v = decimal-IsWord _

key-IsWord : (f : Field) → IsWord (key f)
unfolding is_space
key-IsWord Field.state = ground arith
key-IsWord _ = ground arith

key-no_equals : (f : Field) → All (λ c. c ≢ b'=') (key f)
key-no_equals Field.state = omega arith
key-no_equals _ = omega arith

equals-IsWord : (value : List ℕ) → IsWord value → IsWord (b'=' ∷ value)
unfolding is_space
equals-IsWord value h = (refl, h)

entry_text-IsWord :
    (s : PrepareStatus) (e : Entry) → IsStatus s → IsEntry e → IsWord (entry_text s e)
entry_text-IsWord s (known f) v h =
    All-append _ (key f) _ (key-IsWord f) (equals-IsWord _ (value_text-IsWord s f v))
entry_text-IsWord s (other k w) v h = All-append _ k _ h.0 (equals-IsWord _ h.1)

entry_text_pos : (s : PrepareStatus) (e : Entry) → 0 < length (entry_text s e)
entry_text_pos s (known f) = omega (arith, length-append (key f) (b'=' ∷ value_text s f))
entry_text_pos s (other k w) = omega (arith, length-append k (b'=' ∷ w))

tokens-print :
    (s : PrepareStatus) (es : List Entry)
    → IsStatus s
    → All IsEntry es
    → tokens (print_entries s es) ≡ map (entry_text s) es
tokens-print s [] v h = tokens_newline
tokens-print s (e ∷ es) v h =
    tokens-word (entry_text s e) _ (entry_text-IsWord s e v h.0) (entry_text_pos s e)
    ∙ rw (tokens-print s es v h.1)

-- What the loop keeps: the fields seen so far are right, and each field is either seen or ahead.
record Good (s : PrepareStatus) (es : List Entry) (p : Parsed) : Type 0 where
  right : (f : Field) → p.seen f ≡ true → Agrees s p.status f
  once : (f : Field) → (if p.seen f then 1 else 0) + count f es ≡ 1

nonempty_key :
    (f : Field) (value : List ℕ) (p : Parsed) → take_entry p (key f, value) ≡ take_field p f value
unfolding take_entry status_field
nonempty_key Field.state value p = refl
nonempty_key _ value p = refl

unseen :
    (s : PrepareStatus) (f : Field) (es : List Entry) (p : Parsed)
    → Good s (known f ∷ es) p
    → p.seen f ≡ false
unseen s f es p g = ground (arith, g.once f)

parse_token-known :
    (s : PrepareStatus) (f : Field) (es : List Entry) (p : Parsed)
    → IsStatus s
    → Good s (known f ∷ es) p
    → parse_token p (entry_text s (known f))
      ≡ some (record { status = copied s p.status f; seen = mark f p.seen })
unfolding parse_token take_field
parse_token-known s f es p v g =
    rw (split_key-entry (key f) (value_text s f) (key-no_equals f), parse_token)
      (nonempty_key f (value_text s f) p
        ∙ rw (unseen s f es p g, store_field-value_text s p.status f v, take_field))

Good-known :
    (s : PrepareStatus) (f : Field) (es : List Entry) (p : Parsed)
    → Good s (known f ∷ es) p
    → Good s es (record { status = copied s p.status f; seen = mark f p.seen })
unfolding mark
Good-known s f es p g = record {
  right = λ h e. elim (Bool-cases (field_index f == field_index h)) [
    | inl same ↦
        subst (Agrees s (copied s p.status f)) (field_index_injective f h ((==_iff _ _).0 same))
          (copied_self s p.status f)
    | inr differs ↦ copied-Agrees s p.status f h (g.right h (ground arith))
  ];
  once = λ h. ground (arith, g.once h, unseen s f es p g, field_index_injective f h);
}

parse_token-other :
    (s : PrepareStatus) (k w : List ℕ) (p : Parsed)
    → IsEntry (other k w)
    → parse_token p (entry_text s (other k w)) ≡ some p
unfolding parse_token take_entry
parse_token-other s [] w p h = absurd (omega arith)
parse_token-other s (c ∷ k) w p h =
    rw (split_key-entry (c ∷ k) w h.3, parse_token) (rw (h.4, take_entry))

-- What the loop ends with.
record Complete (s : PrepareStatus) (r : Option Parsed) : Type 0 where
  last : Parsed
  returns : r ≡ some last
  right : (f : Field) → Agrees s last.status f
  all_seen : (f : Field) → last.seen f ≡ true

parse_tokens-Complete :
    (s : PrepareStatus) (es : List Entry) (p : Parsed)
    → IsStatus s
    → All IsEntry es
    → Good s es p
    → Complete s (parse_tokens p (map (entry_text s) es))
unfolding parse_tokens
parse_tokens-Complete s [] p v h g =
    let all_seen : (f : Field) → p.seen f ≡ true = λ f. ground (arith, g.once f) in
    record { last = p; returns = refl; right = λ f. g.right f (all_seen f); all_seen = all_seen }
parse_tokens-Complete s (known f ∷ es) p v h g =
    rw (parse_token-known s f es p v g, parse_tokens)
      (parse_tokens-Complete s es _ v h.1 (Good-known s f es p g))
parse_tokens-Complete s (other k w ∷ es) p v h g =
    rw (parse_token-other s k w p h.0, parse_tokens)
      (parse_tokens-Complete s es p v h.1 (record { right = g.right; once = g.once }))

all_agree : (s q : PrepareStatus) → ((f : Field) → Agrees s q f) → q ≡ s
all_agree s q h = λ i. record {
  state = h Field.state i;
  generation = h Field.generation i;
  epoch = h Field.epoch i;
  mode = h Field.mode i;
  table = h Field.table i;
  width = h Field.width i;
  height = h Field.height i;
  fps = h Field.fps i;
  code = h Field.code i;
  enable = h Field.enable i;
  last_errno = h Field.errno i;
  worker_errno = h Field.worker_errno i;
  lease = h Field.lease i;
  match = h Field.match i;
}

every-true :
    (test : Field → Bool) (fs : List Field) → ((f : Field) → test f ≡ true) → every test fs ≡ true
every-true test [] h = refl
every-true test (f ∷ fs) h = rw (h f, every-true test fs h)

finish-Complete :
    (s : PrepareStatus) (p : Parsed)
    → ((f : Field) → Agrees s p.status f)
    → ((f : Field) → p.seen f ≡ true)
    → finish p ≡ some s
unfolding finish
finish-Complete s p right all_seen =
    rw (every-true p.seen all_fields all_seen) (ap some (all_agree s p.status right))

-- A status whose fields are in range, printed with each field exactly once, in any order and with
-- any unknown keys between them, is parsed back exactly.
pub parse_status-print :
    (s : PrepareStatus) (es : List Entry)
    → IsStatus s
    → All IsEntry es
    → ((f : Field) → count f es ≡ 1)
    → parse_status (print_entries s es) ≡ some s
unfolding parse_status
parse_status-print s es v h once =
    let c =
      parse_tokens-Complete s es (record { status = zero_status; seen = λ f. false }) v h
        (record { right = λ f e. cc; once = λ f. omega (arith, once f) }) in
    rw (tokens-print s es v h, c.returns, parse_status)
      (finish-Complete s c.last c.right c.all_seen)
