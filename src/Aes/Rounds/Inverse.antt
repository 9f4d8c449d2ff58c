-- ===== src/Aes/Rounds/Inverse.antt =====
-- Each step of a round of aes.cpp is undone by its inverse, and keeps every entry of the state a
-- byte.
use gst_app.Prelude.{ℕ, ◌+◌, ◌*◌, ◌<◌, ◌≡◌, refl, List, get_or, ⊕_twice}
use gst_app.Aes.Tables.{substitute_back-substitute, substitute_fits}
use gst_app.Aes.Field.{⊕_fits}
use gst_app.Aes.Rounds.{
  Row, RowFits, State, StateFits, get_s_box, inv_sub_row, add_key_row, add_round_key, sub_bytes,
  inv_sub_bytes, shift_rows, inv_shift_rows, mix_columns, inv_mix_columns,
}
use gst_app.Aes.Rounds.Mix.{inv_mix_row-mix_row, mix_row_fits}

-- Every entry of the key is a byte.
abbrev pub KeyFits : List ℕ → Type 0
KeyFits key = (i : ℕ) → get_or key i 0 < 256

pub inv_shift_rows-shift_rows : (s : State) → inv_shift_rows (shift_rows s) ≡ s
unfolding inv_shift_rows shift_rows
inv_shift_rows-shift_rows s = refl

pub shift_rows_fits : {s : State} → StateFits s → StateFits (shift_rows s)
unfolding shift_rows
shift_rows_fits {s} h = record {
  g0 = record { f0 = h.g0.f0; f1 = h.g1.f1; f2 = h.g2.f2; f3 = h.g3.f3 };
  g1 = record { f0 = h.g1.f0; f1 = h.g2.f1; f2 = h.g3.f2; f3 = h.g0.f3 };
  g2 = record { f0 = h.g2.f0; f1 = h.g3.f1; f2 = h.g0.f2; f3 = h.g1.f3 };
  g3 = record { f0 = h.g3.f0; f1 = h.g0.f1; f2 = h.g1.f2; f3 = h.g2.f3 };
}

inv_sub_row-get_s_box : {w : Row} → RowFits w → inv_sub_row (get_s_box w) ≡ w
unfolding inv_sub_row get_s_box
inv_sub_row-get_s_box {w} h = λ i. record {
  b0 = substitute_back-substitute w.b0 h.f0 i;
  b1 = substitute_back-substitute w.b1 h.f1 i;
  b2 = substitute_back-substitute w.b2 h.f2 i;
  b3 = substitute_back-substitute w.b3 h.f3 i;
}

pub get_s_box_fits : {w : Row} → RowFits w → RowFits (get_s_box w)
unfolding get_s_box
get_s_box_fits {w} h = record {
  f0 = substitute_fits w.b0 h.f0;
  f1 = substitute_fits w.b1 h.f1;
  f2 = substitute_fits w.b2 h.f2;
  f3 = substitute_fits w.b3 h.f3;
}

pub inv_sub_bytes-sub_bytes : {s : State} → StateFits s → inv_sub_bytes (sub_bytes s) ≡ s
unfolding inv_sub_bytes sub_bytes
inv_sub_bytes-sub_bytes {s} h = λ i. record {
  r0 = inv_sub_row-get_s_box h.g0 i;
  r1 = inv_sub_row-get_s_box h.g1 i;
  r2 = inv_sub_row-get_s_box h.g2 i;
  r3 = inv_sub_row-get_s_box h.g3 i;
}

pub sub_bytes_fits : {s : State} → StateFits s → StateFits (sub_bytes s)
unfolding sub_bytes
sub_bytes_fits {s} h = record {
  g0 = get_s_box_fits h.g0;
  g1 = get_s_box_fits h.g1;
  g2 = get_s_box_fits h.g2;
  g3 = get_s_box_fits h.g3;
}

pub inv_mix_columns-mix_columns : {s : State} → StateFits s → inv_mix_columns (mix_columns s) ≡ s
unfolding inv_mix_columns mix_columns
inv_mix_columns-mix_columns {s} h = λ i. record {
  r0 = inv_mix_row-mix_row s.r0 h.g0 i;
  r1 = inv_mix_row-mix_row s.r1 h.g1 i;
  r2 = inv_mix_row-mix_row s.r2 h.g2 i;
  r3 = inv_mix_row-mix_row s.r3 h.g3 i;
}

pub mix_columns_fits : {s : State} → StateFits s → StateFits (mix_columns s)
unfolding mix_columns
mix_columns_fits {s} h = record {
  g0 = mix_row_fits s.r0 h.g0;
  g1 = mix_row_fits s.r1 h.g1;
  g2 = mix_row_fits s.r2 h.g2;
  g3 = mix_row_fits s.r3 h.g3;
}

module _ (key : List ℕ) where
  add_key_row_twice : (w : Row) (at : ℕ) → add_key_row (add_key_row w key at) key at ≡ w
  unfolding add_key_row
  add_key_row_twice w at = λ i. record {
    b0 = ⊕_twice w.b0 (get_or key at 0) i;
    b1 = ⊕_twice w.b1 (get_or key (at + 1) 0) i;
    b2 = ⊕_twice w.b2 (get_or key (at + 2) 0) i;
    b3 = ⊕_twice w.b3 (get_or key (at + 3) 0) i;
  }

  -- A round key added twice leaves the state as it was.
  pub add_round_key_twice :
      (s : State) (round : ℕ) → add_round_key (add_round_key s key round) key round ≡ s
  unfolding add_round_key
  add_round_key_twice s round = λ i. record {
    r0 = add_key_row_twice s.r0 (round * 16) i;
    r1 = add_key_row_twice s.r1 (round * 16 + 4) i;
    r2 = add_key_row_twice s.r2 (round * 16 + 8) i;
    r3 = add_key_row_twice s.r3 (round * 16 + 12) i;
  }

  module _ (fits : KeyFits key) where
    add_key_row_fits : {w : Row} (at : ℕ) → RowFits w → RowFits (add_key_row w key at)
    unfolding add_key_row
    add_key_row_fits {w} at h = record {
      f0 = ⊕_fits w.b0 _ h.f0 (fits at);
      f1 = ⊕_fits w.b1 _ h.f1 (fits (at + 1));
      f2 = ⊕_fits w.b2 _ h.f2 (fits (at + 2));
      f3 = ⊕_fits w.b3 _ h.f3 (fits (at + 3));
    }

    pub add_round_key_fits :
        {s : State} (round : ℕ) → StateFits s → StateFits (add_round_key s key round)
    unfolding add_round_key
    add_round_key_fits {s} round h = record {
      g0 = add_key_row_fits (round * 16) h.g0;
      g1 = add_key_row_fits (round * 16 + 4) h.g1;
      g2 = add_key_row_fits (round * 16 + 8) h.g2;
      g3 = add_key_row_fits (round * 16 + 12) h.g3;
    }
