-- ===== src/Aes/Rounds.antt =====
-- The steps of one round of aes.cpp on its 4×4 state, and the steps that undo them.
mod Poly
pub mod Mix
pub mod Matrix
pub mod Inverse
use gst_app.Prelude.{ℕ, ◌+◌, ◌*◌, ◌<◌, List, get_or, ◌⊕◌}
use gst_app.Aes.Tables.{substitute, substitute_back}
use gst_app.Aes.Field.{x_time, multiply}

-- One row State[i].
pub record Row : Type 0 where
  pub b0 : ℕ
  pub b1 : ℕ
  pub b2 : ℕ
  pub b3 : ℕ

pub record RowFits (w : Row) : Type 0 where
  pub f0 : w.b0 < 256
  pub f1 : w.b1 < 256
  pub f2 : w.b2 < 256
  pub f3 : w.b3 < 256

-- BYTE State[4][4]
pub record State : Type 0 where
  pub r0 : Row
  pub r1 : Row
  pub r2 : Row
  pub r3 : Row

pub record StateFits (s : State) : Type 0 where
  pub g0 : RowFits s.r0
  pub g1 : RowFits s.r1
  pub g2 : RowFits s.r2
  pub g3 : RowFits s.r3

abbrev pub each_row : (Row → Row) → State → State
each_row f s = record { r0 = f s.r0; r1 = f s.r1; r2 = f s.r2; r3 = f s.r3 }

unfoldable pub get_s_box : Row → Row
get_s_box t = record {
  b0 = substitute t.b0;
  b1 = substitute t.b1;
  b2 = substitute t.b2;
  b3 = substitute t.b3;
}

unfoldable pub add_key_row : Row → List ℕ → ℕ → Row
add_key_row s exp_key at = record {
  b0 = s.b0 ⊕ get_or exp_key at 0;
  b1 = s.b1 ⊕ get_or exp_key (at + 1) 0;
  b2 = s.b2 ⊕ get_or exp_key (at + 2) 0;
  b3 = s.b3 ⊕ get_or exp_key (at + 3) 0;
}

unfoldable pub add_round_key : State → List ℕ → ℕ → State
unfolding add_key_row
add_round_key s exp_key round = record {
  r0 = add_key_row s.r0 exp_key (round * 16);
  r1 = add_key_row s.r1 exp_key (round * 16 + 4);
  r2 = add_key_row s.r2 exp_key (round * 16 + 8);
  r3 = add_key_row s.r3 exp_key (round * 16 + 12);
}

unfoldable pub sub_bytes : State → State
unfolding get_s_box
sub_bytes s = each_row get_s_box s

unfoldable pub shift_rows : State → State
shift_rows s = record {
  r0 = record { b0 = r0.b0; b1 = r1.b1; b2 = r2.b2; b3 = r3.b3 };
  r1 = record { b0 = r1.b0; b1 = r2.b1; b2 = r3.b2; b3 = r0.b3 };
  r2 = record { b0 = r2.b0; b1 = r3.b1; b2 = r0.b2; b3 = r1.b3 };
  r3 = record { b0 = r3.b0; b1 = r0.b1; b2 = r1.b2; b3 = r2.b3 };
}
  where
    open s use {r0, r1, r2, r3}

unfoldable pub inv_shift_rows : State → State
inv_shift_rows s = record {
  r0 = record { b0 = r0.b0; b1 = r3.b1; b2 = r2.b2; b3 = r1.b3 };
  r1 = record { b0 = r1.b0; b1 = r0.b1; b2 = r3.b2; b3 = r2.b3 };
  r2 = record { b0 = r2.b0; b1 = r1.b1; b2 = r0.b2; b3 = r3.b3 };
  r3 = record { b0 = r3.b0; b1 = r2.b1; b2 = r1.b2; b3 = r0.b3 };
}
  where
    open s use {r0, r1, r2, r3}

unfoldable pub mix_row : Row → Row
mix_row s =
    let t1 = s.b0 in
    let t2 = s.b0 ⊕ s.b1 ⊕ s.b2 ⊕ s.b3 in
    record {
      b0 = s.b0 ⊕ (x_time (s.b0 ⊕ s.b1) ⊕ t2);
      b1 = s.b1 ⊕ (x_time (s.b1 ⊕ s.b2) ⊕ t2);
      b2 = s.b2 ⊕ (x_time (s.b2 ⊕ s.b3) ⊕ t2);
      b3 = s.b3 ⊕ (x_time (s.b3 ⊕ t1) ⊕ t2);
    }

unfoldable pub mix_columns : State → State
unfolding mix_row
mix_columns s = each_row mix_row s

-- multiply a w ^ multiply b x ^ multiply c y ^ multiply d z
unfoldable pub combine : Row → ℕ → ℕ → ℕ → ℕ → ℕ
combine s w x y z = multiply s.b0 w ⊕ multiply s.b1 x ⊕ multiply s.b2 y ⊕ multiply s.b3 z

unfoldable pub inv_mix_row : Row → Row
unfolding combine
inv_mix_row s = record {
  b0 = combine s 0x0e 0x0b 0x0d 0x09;
  b1 = combine s 0x09 0x0e 0x0b 0x0d;
  b2 = combine s 0x0d 0x09 0x0e 0x0b;
  b3 = combine s 0x0b 0x0d 0x09 0x0e;
}

unfoldable pub inv_mix_columns : State → State
unfolding inv_mix_row
inv_mix_columns s = each_row inv_mix_row s

unfoldable pub inv_sub_row : Row → Row
inv_sub_row t = record {
  b0 = substitute_back t.b0;
  b1 = substitute_back t.b1;
  b2 = substitute_back t.b2;
  b3 = substitute_back t.b3;
}

unfoldable pub inv_sub_bytes : State → State
unfolding inv_sub_row
inv_sub_bytes s = each_row inv_sub_row s
