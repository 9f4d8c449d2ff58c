-- ===== src/Aes/Rounds/Mix.antt =====
-- InvMixColumns undoes MixColumns in aes.cpp. Every byte of the two steps is an exclusive or of
-- repeated XTimes of the four bytes of the row: a polynomial, whose coefficients are compared.
use gst_app.Prelude.{
  ℕ, ◌<◌, ◌≡◌, ap, ap₂, ◌∙◌, sym, Bool, true, false, [], ◌∷◌, ◌⊕◌, ⊕-zero, zero-⊕, arith,
}
use gst_app.Aes.Field.{
  x_time, multiply, x_time-⊕, ⊕_fits, x_time_fits, multiply-nine, multiply-eleven,
  multiply-thirteen, multiply-fourteen,
}
use gst_app.Aes.Rounds.{Row, RowFits, mix_row, inv_mix_row, combine}
use gst_app.Aes.Rounds.Poly.{
  Coefficient, of, none_of, Poly, coefficient_add, poly_add, select, bit_add-select, ⊕_exchange,
}

module _ (w : Row) (fits : RowFits w) where
  pub coefficient : Coefficient → ℕ
  coefficient (of a b c d) = select a w.b0 ⊕ select b w.b1 ⊕ (select c w.b2 ⊕ select d w.b3)

  -- The number that a polynomial in XTime stands for, by Horner's rule.
  pub value : Poly → ℕ
  value [] = 0
  value (x ∷ p) = coefficient x ⊕ x_time (value p)

  select_fits : (x : Bool) (v : ℕ) → v < 256 → select x v < 256
  select_fits true v h = h
  select_fits false v h = omega arith

  coefficient_fits : (x : Coefficient) → coefficient x < 256
  unfolding coefficient
  coefficient_fits (of a b c d) =
      ⊕_fits _ _ (⊕_fits _ _ (select_fits a w.b0 fits.f0) (select_fits b w.b1 fits.f1))
        (⊕_fits _ _ (select_fits c w.b2 fits.f2) (select_fits d w.b3 fits.f3))

  value_fits : (p : Poly) → value p < 256
  unfolding value
  value_fits [] = omega arith
  value_fits (x ∷ p) = ⊕_fits _ _ (coefficient_fits x) (x_time_fits _ (value_fits p))

  coefficient-coefficient_add :
      (x y : Coefficient) → coefficient (coefficient_add x y) ≡ coefficient x ⊕ coefficient y
  unfolding coefficient
  coefficient-coefficient_add (of a b c d) (of a' b' c' d') =
      rw
        (
          bit_add-select a a' w.b0,
          bit_add-select b b' w.b1,
          bit_add-select c c' w.b2,
          bit_add-select d d' w.b3,
          ⊕_exchange (select a w.b0) (select a' w.b0) (select b w.b1) (select b' w.b1),
          ⊕_exchange (select c w.b2) (select c' w.b2) (select d w.b3) (select d' w.b3),
        )
        (⊕_exchange _ _ _ _)

  value-poly_add : (p q : Poly) → value (poly_add p q) ≡ value p ⊕ value q
  unfolding value
  value-poly_add [] q = sym (zero-⊕ (value q))
  value-poly_add (x ∷ p) [] = sym (⊕-zero _)
  value-poly_add (x ∷ p) (y ∷ q) =
      rw
        (
          coefficient-coefficient_add x y,
          value-poly_add p q,
          x_time-⊕ (value p) (value q) (value_fits p) (value_fits q),
        )
        (⊕_exchange _ _ _ _)

  pub record Stands (x : ℕ) (p : Poly) : Type 0 where
    pub same : x ≡ value p

  pub ⊕-Stands : {x y : ℕ} {p q : Poly} → Stands x p → Stands y q → Stands (x ⊕ y) (poly_add p q)
  ⊕-Stands {x} {y} {p} {q} h k = record { same = ap₂ ◌⊕◌ h.same k.same ∙ sym (value-poly_add p q) }

  pub x_time-Stands : {x : ℕ} {p : Poly} → Stands x p → Stands (x_time x) (none_of ∷ p)
  unfolding value coefficient
  x_time-Stands {x} {p} h = record { same = ap x_time h.same ∙ sym (zero-⊕ _) }

  pub byte0-Stands : Stands w.b0 (of true false false false ∷ [])
  unfolding value coefficient x_time
  byte0-Stands = record { same = sym (⊕-zero _ ∙ ⊕-zero _ ∙ ⊕-zero _) }

  pub byte1-Stands : Stands w.b1 (of false true false false ∷ [])
  unfolding value coefficient x_time
  byte1-Stands = record { same = sym (⊕-zero _ ∙ ⊕-zero _ ∙ zero-⊕ _) }

  pub byte2-Stands : Stands w.b2 (of false false true false ∷ [])
  unfolding value coefficient x_time
  byte2-Stands = record { same = sym (⊕-zero _ ∙ zero-⊕ _ ∙ ⊕-zero _) }

  pub byte3-Stands : Stands w.b3 (of false false false true ∷ [])
  unfolding value coefficient x_time
  byte3-Stands = record { same = sym (⊕-zero _ ∙ zero-⊕ _ ∙ zero-⊕ _) }

  module _ {x : ℕ} {p : Poly} (h : Stands x p) where
    abbrev p1 : Poly
    p1 = none_of ∷ p

    abbrev p2 : Poly
    p2 = none_of ∷ p1

    abbrev p3 : Poly
    p3 = none_of ∷ p2

    twice : Stands (x_time (x_time x)) p2
    twice = x_time-Stands (x_time-Stands h)

    thrice : Stands (x_time (x_time (x_time x))) p3
    thrice = x_time-Stands twice

    nine-Stands : Stands (multiply x 0x09) (poly_add p p3)
    nine-Stands = rw (multiply-nine x) (⊕-Stands h thrice)

    eleven-Stands : Stands (multiply x 0x0b) (poly_add (poly_add p p1) p3)
    eleven-Stands = rw (multiply-eleven x) (⊕-Stands (⊕-Stands h (x_time-Stands h)) thrice)

    thirteen-Stands : Stands (multiply x 0x0d) (poly_add (poly_add p p2) p3)
    thirteen-Stands = rw (multiply-thirteen x) (⊕-Stands (⊕-Stands h twice) thrice)

    fourteen-Stands : Stands (multiply x 0x0e) (poly_add (poly_add p1 p2) p3)
    fourteen-Stands = rw (multiply-fourteen x) (⊕-Stands (⊕-Stands (x_time-Stands h) twice) thrice)

  total-Stands : Stands (w.b0 ⊕ w.b1 ⊕ w.b2 ⊕ w.b3) (of true true true true ∷ [])
  total-Stands = ⊕-Stands (⊕-Stands (⊕-Stands byte0-Stands byte1-Stands) byte2-Stands) byte3-Stands

  pub mix0-Stands : Stands (mix_row w).b0 (of false true true true ∷ of true true false false ∷ [])
  unfolding mix_row
  mix0-Stands =
      ⊕-Stands byte0-Stands
        (⊕-Stands (x_time-Stands (⊕-Stands byte0-Stands byte1-Stands)) total-Stands)

  pub mix1-Stands : Stands (mix_row w).b1 (of true false true true ∷ of false true true false ∷ [])
  unfolding mix_row
  mix1-Stands =
      ⊕-Stands byte1-Stands
        (⊕-Stands (x_time-Stands (⊕-Stands byte1-Stands byte2-Stands)) total-Stands)

  pub mix2-Stands : Stands (mix_row w).b2 (of true true false true ∷ of false false true true ∷ [])
  unfolding mix_row
  mix2-Stands =
      ⊕-Stands byte2-Stands
        (⊕-Stands (x_time-Stands (⊕-Stands byte2-Stands byte3-Stands)) total-Stands)

  pub mix3-Stands : Stands (mix_row w).b3 (of true true true false ∷ of true false false true ∷ [])
  unfolding mix_row
  mix3-Stands =
      ⊕-Stands byte3-Stands
        (⊕-Stands (x_time-Stands (⊕-Stands byte3-Stands byte0-Stands)) total-Stands)

  -- Trailing coefficients that take no byte add nothing.
  padded : Coefficient → Poly
  padded x = x ∷ none_of ∷ none_of ∷ none_of ∷ none_of ∷ []

  back0-Stands : Stands (inv_mix_row (mix_row w)).b0 (padded (of true false false false))
  unfolding inv_mix_row combine padded
  back0-Stands =
      ⊕-Stands
        (⊕-Stands (⊕-Stands (fourteen-Stands mix0-Stands) (eleven-Stands mix1-Stands))
          (thirteen-Stands mix2-Stands))
        (nine-Stands mix3-Stands)

  back1-Stands : Stands (inv_mix_row (mix_row w)).b1 (padded (of false true false false))
  unfolding inv_mix_row combine padded
  back1-Stands =
      ⊕-Stands
        (⊕-Stands (⊕-Stands (nine-Stands mix0-Stands) (fourteen-Stands mix1-Stands))
          (eleven-Stands mix2-Stands))
        (thirteen-Stands mix3-Stands)

  back2-Stands : Stands (inv_mix_row (mix_row w)).b2 (padded (of false false true false))
  unfolding inv_mix_row combine padded
  back2-Stands =
      ⊕-Stands
        (⊕-Stands (⊕-Stands (thirteen-Stands mix0-Stands) (nine-Stands mix1-Stands))
          (fourteen-Stands mix2-Stands))
        (eleven-Stands mix3-Stands)

  back3-Stands : Stands (inv_mix_row (mix_row w)).b3 (padded (of false false false true))
  unfolding inv_mix_row combine padded
  back3-Stands =
      ⊕-Stands
        (⊕-Stands (⊕-Stands (eleven-Stands mix0-Stands) (thirteen-Stands mix1-Stands))
          (nine-Stands mix2-Stands))
        (fourteen-Stands mix3-Stands)

  back : inv_mix_row (mix_row w) ≡ w
  unfolding value coefficient padded x_time
  back = λ i. record {
    b0 = (back0-Stands.same ∙ sym byte0-Stands.same) i;
    b1 = (back1-Stands.same ∙ sym byte1-Stands.same) i;
    b2 = (back2-Stands.same ∙ sym byte2-Stands.same) i;
    b3 = (back3-Stands.same ∙ sym byte3-Stands.same) i;
  }

module _ (w : Row) (fits : RowFits w) where
  -- InvMixColumns undoes MixColumns on a row of bytes.
  pub inv_mix_row-mix_row : inv_mix_row (mix_row w) ≡ w
  inv_mix_row-mix_row = back w fits

  pub mix_row_fits : RowFits (mix_row w)
  mix_row_fits = record {
    f0 = rw ((mix0-Stands w fits).same) (value_fits w fits _);
    f1 = rw ((mix1-Stands w fits).same) (value_fits w fits _);
    f2 = rw ((mix2-Stands w fits).same) (value_fits w fits _);
    f3 = rw ((mix3-Stands w fits).same) (value_fits w fits _);
  }
