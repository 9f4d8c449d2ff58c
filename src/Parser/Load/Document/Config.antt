-- ===== src/Parser/Load/Document/Config.antt =====
-- The documents that json_parser of parser.cpp accepts.
use gst_app.Prelude.{ℕ, ◌≡◌, ◌↔◌, refl, true, Option, none, some, List, codes, arith}
use gst_app.CfgJson.{Json, Members, null, boolean, int, text, double, array, object}
use gst_app.Parser.Getters.{get_member}
use gst_app.Parser.Load.Sections.{is_object}
use gst_app.Parser.Load.Document.{has_sections}

-- A value that is there and is an object.
abbrev pub IsObject : Option Json → Type 0
IsObject v = (members : Members) × (v ≡ some (object members))

-- A document that is an object with the three sections.
abbrev pub IsConfig : Json → List ℕ → Type 0
IsConfig doc header =
    IsObject (some doc)
    × IsObject (get_member (some doc) header)
    × IsObject (get_member (some doc) (codes "ORD"))
    × IsObject (get_member (some doc) (codes "VCM"))

is_object_iff : (v : Option Json) → (is_object v ≡ true) ↔ IsObject v
is_object_iff none = (λ e. absurd (ground arith), λ w. absurd (ground arith))
is_object_iff (some null) = (λ e. absurd (ground arith), λ w. absurd (ground arith))
is_object_iff (some (boolean b)) = (λ e. absurd (ground arith), λ w. absurd (ground arith))
is_object_iff (some (int v)) = (λ e. absurd (ground arith), λ w. absurd (ground arith))
is_object_iff (some (text t)) = (λ e. absurd (ground arith), λ w. absurd (ground arith))
is_object_iff (some (double d)) = (λ e. absurd (ground arith), λ w. absurd (ground arith))
is_object_iff (some (array a)) = (λ e. absurd (ground arith), λ w. absurd (ground arith))
is_object_iff (some (object m)) = (λ e. (m, refl), λ w. refl)

pub has_sections_iff :
    (doc : Json) (header : List ℕ) → (has_sections doc header ≡ true) ↔ IsConfig doc header
unfolding has_sections
has_sections_iff doc header =
    let whole = is_object_iff (some doc) in
    let head = is_object_iff (get_member (some doc) header) in
    let ord = is_object_iff (get_member (some doc) (codes "ORD")) in
    let vcm = is_object_iff (get_member (some doc) (codes "VCM")) in
    (
      λ e. (
        whole.0 (ground arith),
        head.0 (ground arith),
        ord.0 (ground arith),
        vcm.0 (ground arith),
      ),
      λ w. rw (whole.1 w.0, head.1 w.1, ord.1 w.2, vcm.1 w.3) refl,
    )
