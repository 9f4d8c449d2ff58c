-- ===== src/CfgJson/Laws.antt =====
-- What the readers promise: a value is taken whole or not at all.
use gst_app.Prelude.{
  ℕ, suc, ◌≡◌, ◌≢◌, ◌⊎◌, inl, inr, refl, ℤ, pos, Bool, true, List, [], ◌∷◌, length, Option, none,
  some, arith, ap, sym, ◌∙◌, if◌then◌else◌, eqb_ℤ_iff,
}
use gst_app.CfgJson.{
  Json, null, boolean, int, text, double, array, object, Elements, nil, cons, Members, get_ex,
  CfgArrStatus, arr_ok, CfgBoolStatus, bool_ok, size, all_ints, ints, take_ints, take_array,
  take_bool, cfg_get_int_array, cfg_get_bool,
}

-- The JSON array that holds the integers.
abbrev pub of_ints : List ℤ → Elements
of_ints [] = nil
of_ints (v ∷ vs) = cons (int v) (of_ints vs)

ints-of_ints :
    (vs : List ℤ)
    → (ints (of_ints vs) ≡ vs) × (all_ints (of_ints vs) ≡ true) × (size (of_ints vs) ≡ length vs)
ints-of_ints [] = (refl, refl, refl)
ints-of_ints (v ∷ vs) = let ih = ints-of_ints vs in (ap (λ x. v ∷ x) ih.0, ih.1, ap suc ih.2)

all_ints-ints :
    (xs : Elements) → all_ints xs ≡ true → (of_ints (ints xs) ≡ xs) × (length (ints xs) ≡ size xs)
all_ints-ints nil h = (refl, refl)
all_ints-ints (cons (int v) xs) h =
    let ih = all_ints-ints xs h in (ap (λ x. cons (int v) x) ih.0, ap suc ih.1)
all_ints-ints (cons null xs) h = absurd (ground arith)
all_ints-ints (cons (boolean b) xs) h = absurd (ground arith)
all_ints-ints (cons (text t) xs) h = absurd (ground arith)
all_ints-ints (cons (array a) xs) h = absurd (ground arith)
all_ints-ints (cons (double d) xs) h = absurd (ground arith)
all_ints-ints (cons (object m) xs) h = absurd (ground arith)

-- What a read of an array does: an accepted array is the array of exactly `n` integers that the buffer then holds, and the buffer
-- is left alone in every other case.
pub record ArrayRead (member : Option Json) (out : List ℤ) (n : ℕ) (r : CfgArrStatus × List ℤ)
    : Type 0 where
  pub accepted : r.0 ≡ arr_ok → (member ≡ some (array (of_ints r.1))) × (length r.1 ≡ n)
  pub complete :
      (vs : List ℤ) → member ≡ some (array (of_ints vs)) → length vs ≡ n → r ≡ (arr_ok, vs)
  pub refused : r.0 ≢ arr_ok → r.1 ≡ out

of_ints-injective : (vs ws : List ℤ) → of_ints vs ≡ of_ints ws → vs ≡ ws
of_ints-injective vs ws e = sym (ints-of_ints vs).0 ∙ ap ints e ∙ (ints-of_ints ws).0

-- What the two loops make of an array.
take_array-array :
    (xs : Elements) (out : List ℤ) (n : ℕ)
    → ArrayRead (some (array xs)) out n (take_array (some (array xs)) out n)
unfolding take_array take_ints
take_array-array xs out n = record {
  accepted = λ h. ground (arith, all_ints-ints xs);
  refused = λ h. ground arith;
  complete = λ vs e l.
      let same : xs ≡ of_ints vs = ground arith in
      let (values, whole, long) = ints-of_ints vs in rw same (ground (arith, values, whole, long));
}

take_array-ArrayRead :
    (member : Option Json) (out : List ℤ) (n : ℕ) → ArrayRead member out n (take_array member out n)
unfolding take_array
take_array-ArrayRead (some (array xs)) out n = take_array-array xs out n
take_array-ArrayRead none out n = ground arith
take_array-ArrayRead (some null) out n = ground arith
take_array-ArrayRead (some (boolean b)) out n = ground arith
take_array-ArrayRead (some (int v)) out n = ground arith
take_array-ArrayRead (some (text t)) out n = ground arith
take_array-ArrayRead (some (double d)) out n = ground arith
take_array-ArrayRead (some (object m)) out n = ground arith

-- With an object, a name and a buffer for at least one integer, the reader gives OK exactly for an
-- array of as many integers as asked for, which the buffer then holds; in every other case the
-- buffer keeps what it held.
pub cfg_get_int_array-ArrayRead :
    (obj : Members) (name : List ℕ) (out : List ℤ) (n : ℕ)
    → n ≢ 0
    → (r : CfgArrStatus × List ℤ) × (cfg_get_int_array (some obj) (some name) (some out) n
        ≡ (r.0, some r.1))
      × ArrayRead (get_ex obj name) out n r
unfolding cfg_get_int_array
cfg_get_int_array-ArrayRead obj name out n some_room =
    (take_array (get_ex obj name) out n, ground arith, take_array-ArrayRead (get_ex obj name) out n)

-- The value that a JSON value has as a truth value.
abbrev pub IsTruth : Json → Bool → Type 0
IsTruth value b = (value ≡ boolean b) ⊎ (value ≡ int (if b then pos 1 else pos 0))

-- What a read of a truth value does: it is taken from a boolean, or from the numbers 0 and 1.
pub record BoolRead (member : Option Json) (out : Bool) (r : CfgBoolStatus × Bool) : Type 0 where
  pub accepted : r.0 ≡ bool_ok → (value : Json) × (member ≡ some value) × IsTruth value r.1
  pub complete :
      (value : Json) (b : Bool) → member ≡ some value → IsTruth value b → r ≡ (bool_ok, b)
  pub refused : r.0 ≢ bool_ok → r.1 ≡ out

take_bool-BoolRead :
    (member : Option Json) (out : Bool) → BoolRead member out (take_bool member out)
unfolding take_bool
take_bool-BoolRead none out = ground arith
take_bool-BoolRead (some null) out = ground arith
take_bool-BoolRead (some (boolean b)) out = record {
  accepted = λ h. (boolean b, refl, inl refl);
  complete = λ value c e t. ground arith;
  refused = λ h. absurd (h refl);
}
take_bool-BoolRead (some (int v)) out = record {
  accepted = λ h. (int v, refl, inr (ground (arith, (eqb_ℤ_iff v (pos 1)).0)));
  complete = λ value c e t. ground arith;
  refused = λ h. ground arith;
}
take_bool-BoolRead (some (text t)) out = ground arith
take_bool-BoolRead (some (array a)) out = ground arith
take_bool-BoolRead (some (double d)) out = ground arith
take_bool-BoolRead (some (object m)) out = ground arith

-- With an object, a name and a buffer, the reader gives OK exactly for a boolean or for the numbers
-- 0 and 1, and the buffer then holds that value; in every other case it keeps what it held.
cfg_get_bool-BoolRead :
    (obj : Members) (name : List ℕ) (out : Bool)
    → (r : CfgBoolStatus × Bool) × (cfg_get_bool (some obj) (some name) (some out)
        ≡ (r.0, some r.1))
      × BoolRead (get_ex obj name) out r
unfolding cfg_get_bool
cfg_get_bool-BoolRead obj name out =
    (take_bool (get_ex obj name) out, refl, take_bool-BoolRead (get_ex obj name) out)
