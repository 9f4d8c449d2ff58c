-- ===== src/Prepare/Status/Scan.antt =====
-- The scanner on a line that is put together from words: it finds the words again.
use gst_app.Prelude.{ℕ, ◌≡◌, ◌≢◌, refl, ◌∙◌, List, [], ◌∷◌, ◌++◌, length, ◌<◌, All, some, arith}
use mathlib.Core.List.{append_assoc, append-nil}
use gst_app.Prepare.Number.{is_space}
use gst_app.Prepare.Status.{flush, scan, tokens, split_key}
use gst_app.Prepare.Status.Fields.{IsWord}

-- The blank that separates two tokens.
abbrev pub blank : ℕ
blank = 32

scan-word :
    (token word rest : List ℕ) → IsWord word → scan token (word ++ rest) ≡ scan (token ++ word) rest
unfolding scan
scan-word token [] rest h = rw append-nil
scan-word token (c ∷ cs) rest h =
    rw (h.0, scan) (scan-word (token ++ c ∷ []) cs rest h.1 ∙ rw append_assoc)

scan-blank :
    (token : List ℕ) (rest : List ℕ)
    → 0 < length token
    → scan token (blank ∷ rest) ≡ token ∷ scan [] rest
unfolding scan flush is_space
scan-blank [] rest h = absurd (omega arith)
scan-blank (c ∷ cs) rest h = refl

-- A word and the blank behind it are one token.
pub tokens-word :
    (word rest : List ℕ)
    → IsWord word
    → 0 < length word
    → tokens (word ++ blank ∷ rest) ≡ word ∷ tokens rest
unfolding tokens
tokens-word word rest h some_char =
    scan-word [] word (blank ∷ rest) h ∙ scan-blank word rest some_char

-- A key without `=` is split off whole.
pub split_key-entry :
    (key value : List ℕ)
    → All (λ c. c ≢ b'=') key
    → split_key (key ++ b'=' ∷ value) ≡ some (key, value)
unfolding split_key
split_key-entry [] value h = refl
split_key-entry (c ∷ cs) value h = ground (arith, split_key-entry cs value h.1)

pub tokens_newline : tokens (10 ∷ []) ≡ []
unfolding tokens scan is_space
tokens_newline = refl
