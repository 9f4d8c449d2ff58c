-- ===== src/Aes/Rounds/Matrix.antt =====
-- MixColumns of aes.cpp is the product with the circulant matrix of AES, entries by Multiply.
use gst_app.Prelude.{ℕ, ◌≡◌, ◌∙◌, sym, true, false, [], ◌∷◌}
use gst_app.Aes.Field.{multiply, multiply-one, multiply-two, multiply-three}
use gst_app.Aes.Rounds.{Row, RowFits, mix_row, combine}
use gst_app.Aes.Rounds.Poly.{Poly, none_of, poly_add, of}
use gst_app.Aes.Rounds.Mix.{
  Stands, ⊕-Stands, x_time-Stands, byte0-Stands, byte1-Stands, byte2-Stands, byte3-Stands,
  mix0-Stands, mix1-Stands, mix2-Stands, mix3-Stands,
}

-- The product of a row with the matrix whose rows are turns of 2, 3, 1, 1.
abbrev pub circulant : Row → Row
circulant s = record {
  b0 = combine s 2 3 1 1;
  b1 = combine s 1 2 3 1;
  b2 = combine s 1 1 2 3;
  b3 = combine s 3 1 1 2;
}

module _ (w : Row) (fits : RowFits w) where
  module _ {x : ℕ} {p : Poly} (h : Stands w fits x p) where
    one : Stands w fits (multiply x 1) p
    one = rw (multiply-one x) h

    two : Stands w fits (multiply x 2) (none_of ∷ p)
    two = rw (multiply-two x) (x_time-Stands w fits h)

    three : Stands w fits (multiply x 3) (poly_add p (none_of ∷ p))
    three = rw (multiply-three x) (⊕-Stands w fits h (x_time-Stands w fits h))

  product0 :
      Stands w fits (circulant w).b0 (of false true true true ∷ of true true false false ∷ [])
  unfolding combine
  product0 =
      ⊕-Stands w fits
        (⊕-Stands w fits (⊕-Stands w fits (two (byte0-Stands w fits)) (three (byte1-Stands w fits)))
          (one (byte2-Stands w fits)))
        (one (byte3-Stands w fits))

  product1 :
      Stands w fits (circulant w).b1 (of true false true true ∷ of false true true false ∷ [])
  unfolding combine
  product1 =
      ⊕-Stands w fits
        (⊕-Stands w fits (⊕-Stands w fits (one (byte0-Stands w fits)) (two (byte1-Stands w fits)))
          (three (byte2-Stands w fits)))
        (one (byte3-Stands w fits))

  product2 :
      Stands w fits (circulant w).b2 (of true true false true ∷ of false false true true ∷ [])
  unfolding combine
  product2 =
      ⊕-Stands w fits
        (⊕-Stands w fits (⊕-Stands w fits (one (byte0-Stands w fits)) (one (byte1-Stands w fits)))
          (two (byte2-Stands w fits)))
        (three (byte3-Stands w fits))

  product3 :
      Stands w fits (circulant w).b3 (of true true true false ∷ of true false false true ∷ [])
  unfolding combine
  product3 =
      ⊕-Stands w fits
        (⊕-Stands w fits (⊕-Stands w fits (three (byte0-Stands w fits)) (one (byte1-Stands w fits)))
          (one (byte2-Stands w fits)))
        (two (byte3-Stands w fits))

  -- On a row of bytes MixColumns is the product, by Multiply, with the matrix whose rows are the
  -- turns of 2, 3, 1, 1.
  mix_row-circulant : mix_row w ≡ circulant w
  mix_row-circulant = λ i. record {
    b0 = ((mix0-Stands w fits).same ∙ sym product0.same) i;
    b1 = ((mix1-Stands w fits).same ∙ sym product1.same) i;
    b2 = ((mix2-Stands w fits).same ∙ sym product2.same) i;
    b3 = ((mix3-Stands w fits).same ∙ sym product3.same) i;
  }
