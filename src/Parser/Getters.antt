-- ===== src/Parser/Getters.antt =====
-- The typed JSON getters of parser.cpp. Each gives what its destination holds after the call, and
-- those that count errors give g_cfg_errors too.
use gst_app.Prelude.{ℕ, ◌+◌, ℤ, pos, Bool, false, Option, none, some, List, [], ◌∷◌, if◌then◌else◌}
use gst_app.CfgJson.{
  Json, null, boolean, int, text, double, array, object, Members, get_ex, CfgBoolStatus, bool_ok,
  bool_missing, bad_type, bad_value, CfgArrStatus, arr_ok, arr_missing, not_array, bad_len,
  bad_elem, cfg_get_bool, cfg_get_int_array,
}
use gst_app.Parser.Args.{Both}

-- The members of an object; a null pointer, and a value that is no object, has none.
abbrev pub as_members : Option Json → Option Members
as_members none = none
as_members (some null) = none
as_members (some (boolean b)) = none
as_members (some (int v)) = none
as_members (some (text t)) = none
as_members (some (double d)) = none
as_members (some (array a)) = none
as_members (some (object m)) = some m

-- json_object_object_get gives a null pointer for a JSON null.
not_null : Option Json → Option Json
not_null none = none
not_null (some null) = none
not_null (some (boolean b)) = some (boolean b)
not_null (some (int v)) = some (int v)
not_null (some (text t)) = some (text t)
not_null (some (double d)) = some (double d)
not_null (some (array a)) = some (array a)
not_null (some (object m)) = some (object m)

unfoldable pub get_member : Option Json → List ℕ → Option Json
unfolding not_null
get_member obj name = elim (as_members obj) [ none ↦ none | some m ↦ not_null (get_ex m name) ]

abbrev pub as_int : Option Json → Option ℤ
as_int none = none
as_int (some null) = none
as_int (some (boolean b)) = none
as_int (some (int v)) = some v
as_int (some (text t)) = none
as_int (some (double d)) = none
as_int (some (array a)) = none
as_int (some (object m)) = none

unfoldable pub json_object_get_int_optional : Option Json → List ℕ → ℤ → ℤ
unfolding get_member
json_object_get_int_optional obj name out = elim (as_int (get_member obj name)) [
  | none ↦ out
  | some v ↦ v
]

unfoldable pub json_get_int : Option Json → List ℕ → ℤ → ℤ
unfolding get_member
json_get_int obj name out = elim (as_int (get_member obj name)) [ none ↦ out | some v ↦ v ]

-- A negative integer is refused.
unfoldable pub json_get_uint : Option Json → List ℕ → ℕ → ℕ
unfolding get_member
json_get_uint obj name out = elim (as_int (get_member obj name)) [
  | none ↦ out
  | some (pos n) ↦ n
  | some other ↦ out
]

unfoldable pub json_get_uint32 : Option Json → List ℕ → ℕ → ℕ
unfolding json_get_uint
json_get_uint32 obj name out = json_get_uint obj name out

abbrev pub as_text : Option Json → Option (List ℕ)
as_text none = none
as_text (some null) = none
as_text (some (boolean b)) = none
as_text (some (int v)) = none
as_text (some (text t)) = some t
as_text (some (double d)) = none
as_text (some (array a)) = none
as_text (some (object m)) = none

-- A missing key is logged only; another type is counted.
unfoldable pub json_get_string : Option Json → List ℕ → List ℕ → ℕ → List ℕ × ℕ
unfolding get_member
json_get_string obj name out errors =
    let vobj = get_member obj name in
    elim vobj [
      | none ↦ (out, errors)
      | some v ↦ elim (as_text (some v)) [ none ↦ (out, errors + 1) | some t ↦ (t, errors) ]
    ]

-- What the status of cfg_get_bool adds to g_cfg_errors.
abbrev pub bool_errors : CfgBoolStatus → ℕ
bool_errors bool_ok = 0
bool_errors bool_missing = 0
bool_errors bad_type = 1
bool_errors bad_value = 1

abbrev pub or_else : Option Bool → Bool → Bool
or_else none out = out
or_else (some b) out = b

unfoldable pub json_get_bool : Option Json → List ℕ → Bool → ℕ → Bool × ℕ
json_get_bool obj name out errors =
    let r = cfg_get_bool (as_members obj) (some name) (some out) in
    (or_else r.1 out, errors + bool_errors r.0)

-- The destination is a gboolean that may hold any int.
unfoldable pub json_object_get_bool_optional : Option Json → List ℕ → ℤ → ℕ → ℤ × ℕ
json_object_get_bool_optional obj name out errors =
    let r = cfg_get_bool (as_members obj) (some name) (some false) in
    elim r.0 [
      | bool_ok ↦ (if or_else r.1 false then pos 1 else pos 0, errors)
      | bool_missing ↦ (out, errors)
      | bad_type ↦ (out, errors + 1)
      | bad_value ↦ (out, errors + 1)
    ]

abbrev pub array_errors_of : CfgArrStatus → ℕ
array_errors_of arr_ok = 0
array_errors_of arr_missing = 0
array_errors_of not_array = 1
array_errors_of bad_len = 1
array_errors_of bad_elem = 1

abbrev pub as_both : Option (List ℤ) → Both → Both
as_both none out = out
as_both (some []) out = out
as_both (some (rec ∷ [])) out = out
as_both (some (rec ∷ (rtsp ∷ rest))) out = record { rec = rec; rtsp = rtsp }

-- An array of two integers, and 1 for a value that is malformed.
unfoldable pub json_get_int_array : Option Json → List ℕ → Both → Both × ℕ
json_get_int_array obj name out =
    let r = cfg_get_int_array (as_members obj) (some name) (some (out.rec ∷ out.rtsp ∷ [])) 2 in
    (as_both r.1 out, array_errors_of r.0)
