-- ===== src/CfgJson.antt =====
-- cfgjson.cpp: strict readers of a JSON configuration. A JSON value is taken as json-c presents it:
-- its type, and its content.
pub mod Laws
mod Tests
use gst_app.Prelude.{
  ℕ, zero, suc, ℤ, pos, is_zero, eqb_ℤ, Bool, true, false, ◌||◌, ◌&&◌, not, List, [], ◌∷◌, length,
  Option, none, some, same_bytes, ◌==◌, ◌!=◌, if◌then◌else◌,
}

-- `null` is the null pointer that json-c gives for a JSON null; an integer is the one that
-- `json_object_get_int` gives for it; of a floating-point number it is kept whether it is not zero.
mutual
  pub data Json : Type 0 where
    null : Json
    boolean : Bool → Json
    int : ℤ → Json
    text : List ℕ → Json
    double : Bool → Json
    array : Elements → Json
    object : Members → Json

  pub data Elements : Type 0 where
    nil : Elements
    cons : Json → Elements → Elements

  -- The members of an object, by name.
  pub data Members : Type 0 where
    end : Members
    member : List ℕ → Json → Members → Members

abbrev pub get_ex : Members → List ℕ → Option Json
get_ex end name = none
get_ex (member key value rest) name = if same_bytes key name then some value else get_ex rest name

pub data CfgArrStatus : Type 0 where
  arr_ok arr_missing not_array bad_len bad_elem : CfgArrStatus

pub data CfgBoolStatus : Type 0 where
  bool_ok bool_missing bad_type bad_value : CfgBoolStatus

abbrev pub size : Elements → ℕ
size nil = 0
size (cons x xs) = suc (size xs)

-- The first loop: all elements are integers.
abbrev pub all_ints : Elements → Bool
all_ints nil = true
all_ints (cons (int v) xs) = all_ints xs
all_ints (cons null xs) = false
all_ints (cons (boolean b) xs) = false
all_ints (cons (text t) xs) = false
all_ints (cons (array a) xs) = false
all_ints (cons (double d) xs) = false
all_ints (cons (object m) xs) = false

-- The second loop: what it writes to `out`. It runs only where all elements are integers; what it
-- would write for another one is zero here.
abbrev pub ints : Elements → List ℤ
ints nil = []
ints (cons (int v) xs) = v ∷ ints xs
ints (cons null xs) = pos 0 ∷ ints xs
ints (cons (boolean b) xs) = pos 0 ∷ ints xs
ints (cons (text t) xs) = pos 0 ∷ ints xs
ints (cons (array a) xs) = pos 0 ∷ ints xs
ints (cons (double d) xs) = pos 0 ∷ ints xs
ints (cons (object m) xs) = pos 0 ∷ ints xs

-- The array with the right number of elements.
take_ints : Elements → List ℤ → CfgArrStatus × List ℤ
take_ints xs out = if all_ints xs then (arr_ok, ints xs) else (bad_elem, out)

take_array : Option Json → List ℤ → ℕ → CfgArrStatus × List ℤ
unfolding take_ints
take_array none out n = (arr_missing, out)
take_array (some (array xs)) out n = if size xs != n then (bad_len, out) else take_ints xs out
take_array (some null) out n = (not_array, out)
take_array (some (boolean b)) out n = (not_array, out)
take_array (some (int v)) out n = (not_array, out)
take_array (some (text t)) out n = (not_array, out)
take_array (some (double d)) out n = (not_array, out)
take_array (some (object m)) out n = (not_array, out)

-- The status, and `out` after the call. `none` is a missing object, name or buffer.
unfoldable pub cfg_get_int_array :
    Option Members → Option (List ℕ) → Option (List ℤ) → ℕ → CfgArrStatus × Option (List ℤ)
unfolding take_array
cfg_get_int_array (some obj) (some name) (some out) n =
    if n == 0
    then (arr_missing, some out)
    else let r = take_array (get_ex obj name) out n in (r.0, some r.1)
cfg_get_int_array none name out n = (arr_missing, out)
cfg_get_int_array (some obj) none out n = (arr_missing, out)
cfg_get_int_array (some obj) (some name) none n = (arr_missing, none)

take_bool : Option Json → Bool → CfgBoolStatus × Bool
take_bool none out = (bool_missing, out)
take_bool (some null) out = (bad_type, out)
take_bool (some (boolean b)) out = (bool_ok, b)
take_bool (some (int v)) out =
    if not (is_zero v) && not (eqb_ℤ v (pos 1))
    then (bad_value, out)
    else (bool_ok, eqb_ℤ v (pos 1))
take_bool (some (text t)) out = (bad_type, out)
take_bool (some (array a)) out = (bad_type, out)
take_bool (some (double d)) out = (bad_type, out)
take_bool (some (object m)) out = (bad_type, out)

unfoldable pub cfg_get_bool :
    Option Members → Option (List ℕ) → Option Bool → CfgBoolStatus × Option Bool
unfolding take_bool
cfg_get_bool (some obj) (some name) (some out) =
    let r = take_bool (get_ex obj name) out in (r.0, some r.1)
cfg_get_bool none name out = (bool_missing, out)
cfg_get_bool (some obj) none out = (bool_missing, out)
cfg_get_bool (some obj) (some name) none = (bool_missing, none)
