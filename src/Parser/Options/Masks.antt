-- ===== src/Parser/Options/Masks.antt =====
-- The masks of parser.cpp: what the document sets, the options keep and the drivers get.
use gst_app.Prelude.{
  ℕ, zero, suc, ◌+◌, ◌*◌, ◌/◌, ◌%◌, ◌^◌, ◌<◌, ◌≡◌, refl, Bool, true, false, List, [], ◌∷◌, bit_or,
  ◌==◌, ◌!=◌, ==_iff, passes, passes-at, arith,
}
use gst_app.Parser.Args.{CamConfig}
use gst_app.Parser.Load.Cameras.{to_nat}
use gst_app.Parser.Options.{bit_at, cam_flags}

or_table : (k : ℕ) → ℕ → Bool
or_table k x = bit_or x (2 ^ k) == x + 2 ^ k

or_zero_table : passes (λ x. bit_or x 0 == x) 256 ≡ true
unfolding passes
or_zero_table = refl

or_zero : (x : ℕ) → x < 256 → bit_or x 0 ≡ x
or_zero x h = (==_iff (bit_or x 0) x).0 (passes-at (λ y. bit_or y 0 == y) 256 x h or_zero_table)

or_one : (k x : ℕ) → k < 8 → x < 2 ^ k → bit_or x (2 ^ k) ≡ x + 2 ^ k
unfolding or_table passes
or_one zero x p h = (==_iff _ _).0 (passes-at (or_table 0) (2 ^ 0) x h refl)
or_one (suc zero) x p h = (==_iff _ _).0 (passes-at (or_table 1) (2 ^ 1) x h refl)
or_one (suc (suc zero)) x p h = (==_iff _ _).0 (passes-at (or_table 2) (2 ^ 2) x h refl)
or_one (suc (suc (suc zero))) x p h = (==_iff _ _).0 (passes-at (or_table 3) (2 ^ 3) x h refl)
or_one (suc (suc (suc (suc zero)))) x p h = (==_iff _ _).0 (passes-at (or_table 4) (2 ^ 4) x h refl)
or_one (suc (suc (suc (suc (suc zero))))) x p h =
    (==_iff _ _).0 (passes-at (or_table 5) (2 ^ 5) x h refl)
or_one (suc (suc (suc (suc (suc (suc zero)))))) x p h =
    (==_iff _ _).0 (passes-at (or_table 6) (2 ^ 6) x h refl)
or_one (suc (suc (suc (suc (suc (suc (suc zero))))))) x p h =
    (==_iff _ _).0 (passes-at (or_table 7) (2 ^ 7) x h refl)
or_one (suc (suc (suc (suc (suc (suc (suc (suc k)))))))) x p h = absurd (omega arith)

one_times : (n : ℕ) → 1 * n ≡ n
one_times n = omega arith

zero_times : (n : ℕ) → 0 * n ≡ 0
zero_times n = omega arith

-- A bit above all those of a mask is added to it.
or_bit :
    (k x : ℕ) (b : Bool)
    → k < 8
    → x < 2 ^ k
    → x < 256
    → bit_or x (to_nat b * 2 ^ k) ≡ x + to_nat b * 2 ^ k
or_bit k x true p h small = rw (one_times (2 ^ k)) (or_one k x p h)
or_bit k x false p h small = rw (zero_times (2 ^ k)) (omega (arith, or_zero x small))

-- The masks that the passes of json_parser build over the cameras.
abbrev pub enable_mask : ℕ → ℕ → List CamConfig → ℕ
enable_mask mask i [] = mask
enable_mask mask i (c ∷ cams) = enable_mask (bit_or mask (to_nat c.enable * 2 ^ i)) (i + 1) cams

abbrev pub rotate_mask : ℕ → ℕ → List CamConfig → ℕ
rotate_mask mask i [] = mask
rotate_mask mask i (c ∷ cams) =
    rotate_mask
      (bit_or (bit_or mask (to_nat c.hflip * 2 ^ (i * 2))) (to_nat c.vflip * 2 ^ (i * 2 + 1)))
      (i + 1) cams

to_nat_small : (b : Bool) → to_nat b < 2
to_nat_small true = omega arith
to_nat_small false = omega arith

to_nat_back : (b : Bool) → (to_nat b != 0) ≡ b
to_nat_back true = refl
to_nat_back false = refl

-- The bits of a mask that is built from the lowest one up.
module _ (a b c d : Bool) where
  enable_bits :
      let m0 : ℕ = bit_or 0 (to_nat a * 2 ^ 0) in
      let m1 : ℕ = bit_or m0 (to_nat b * 2 ^ 1) in
      let m2 : ℕ = bit_or m1 (to_nat c * 2 ^ 2) in
      let m3 : ℕ = bit_or m2 (to_nat d * 2 ^ 3) in
      m3 ≡ to_nat a + to_nat b * 2 + to_nat c * 4 + to_nat d * 8
  enable_bits =
      let m0 : ℕ = bit_or 0 (to_nat a * 2 ^ 0) in
      let m1 : ℕ = bit_or m0 (to_nat b * 2 ^ 1) in
      let m2 : ℕ = bit_or m1 (to_nat c * 2 ^ 2) in
      let a' = to_nat_small a in
      let b' = to_nat_small b in
      let c' = to_nat_small c in
      let e0 = or_bit 0 0 a (omega arith) (omega arith) (omega arith) in
      let e1 = or_bit 1 m0 b (omega arith) (omega arith) (omega arith) in
      let e2 = or_bit 2 m1 c (omega arith) (omega arith) (omega arith) in
      let e3 = or_bit 3 m2 d (omega arith) (omega arith) (omega arith) in omega arith

  module _ (e f g h : Bool) where
    rotate_bits :
        let m0 : ℕ = bit_or 0 (to_nat a * 2 ^ 0) in
        let m1 : ℕ = bit_or m0 (to_nat b * 2 ^ 1) in
        let m2 : ℕ = bit_or m1 (to_nat c * 2 ^ 2) in
        let m3 : ℕ = bit_or m2 (to_nat d * 2 ^ 3) in
        let m4 : ℕ = bit_or m3 (to_nat e * 2 ^ 4) in
        let m5 : ℕ = bit_or m4 (to_nat f * 2 ^ 5) in
        let m6 : ℕ = bit_or m5 (to_nat g * 2 ^ 6) in
        let m7 : ℕ = bit_or m6 (to_nat h * 2 ^ 7) in
        m7
        ≡ to_nat a
          + to_nat b * 2
          + to_nat c * 4
          + to_nat d * 8
          + to_nat e * 16
          + to_nat f * 32
          + to_nat g * 64
          + to_nat h * 128
    rotate_bits =
        let m0 : ℕ = bit_or 0 (to_nat a * 2 ^ 0) in
        let m1 : ℕ = bit_or m0 (to_nat b * 2 ^ 1) in
        let m2 : ℕ = bit_or m1 (to_nat c * 2 ^ 2) in
        let m3 : ℕ = bit_or m2 (to_nat d * 2 ^ 3) in
        let m4 : ℕ = bit_or m3 (to_nat e * 2 ^ 4) in
        let m5 : ℕ = bit_or m4 (to_nat f * 2 ^ 5) in
        let m6 : ℕ = bit_or m5 (to_nat g * 2 ^ 6) in
        let d' = to_nat_small d in
        let e' = to_nat_small e in
        let f' = to_nat_small f in
        let g' = to_nat_small g in
        let low = enable_bits in
        let a' = to_nat_small a in
        let b' = to_nat_small b in
        let c' = to_nat_small c in
        let e4 = or_bit 4 m3 e (omega arith) (omega arith) (omega arith) in
        let e5 = or_bit 5 m4 f (omega arith) (omega arith) (omega arith) in
        let e6 = or_bit 6 m5 g (omega arith) (omega arith) (omega arith) in
        let e7 = or_bit 7 m6 h (omega arith) (omega arith) (omega arith) in omega arith

bit_of : (mask at : ℕ) (b : Bool) → mask / 2 ^ at % 2 ≡ to_nat b → bit_at mask at ≡ b
bit_of mask at b e = rw e (to_nat_back b)

module _ (c0 c1 c2 c3 : CamConfig) where
  abbrev four : List CamConfig
  four = c0 ∷ (c1 ∷ (c2 ∷ (c3 ∷ [])))

  enable_at :
      (at : ℕ) (b : Bool)
      → let on = enable_mask 0 0 four in on / 2 ^ at % 2 ≡ to_nat b → bit_at on at ≡ b
  enable_at at b e = bit_of (enable_mask 0 0 four) at b e

  rotate_at :
      (at : ℕ) (b : Bool)
      → let turn = rotate_mask 0 0 four in turn / 2 ^ at % 2 ≡ to_nat b → bit_at turn at ≡ b
  rotate_at at b e = bit_of (rotate_mask 0 0 four) at b e

  -- Reading the flags back from the masks of four cameras gives the cameras.
  pub cam_flags-masks : cam_flags (enable_mask 0 0 four) (rotate_mask 0 0 four) 0 four ≡ four
  unfolding cam_flags
  cam_flags-masks =
      let on = enable_bits c0.enable c1.enable c2.enable c3.enable in
      let turn =
        rotate_bits c0.hflip c0.vflip c1.hflip c1.vflip c2.hflip c2.vflip c3.hflip c3.vflip in
      let e0 = to_nat_small c0.enable in
      let h0 = to_nat_small c0.hflip in
      let v0 = to_nat_small c0.vflip in
      let e1 = to_nat_small c1.enable in
      let h1 = to_nat_small c1.hflip in
      let v1 = to_nat_small c1.vflip in
      let e2 = to_nat_small c2.enable in
      let h2 = to_nat_small c2.hflip in
      let v2 = to_nat_small c2.vflip in
      let e3 = to_nat_small c3.enable in
      let h3 = to_nat_small c3.hflip in
      let v3 = to_nat_small c3.vflip in
      λ i.
        record c0 {
          enable = enable_at 0 c0.enable (omega arith) i;
          hflip = rotate_at 0 c0.hflip (omega arith) i;
          vflip = rotate_at 1 c0.vflip (omega arith) i;
        }
        ∷ (record c1 {
          enable = enable_at 1 c1.enable (omega arith) i;
          hflip = rotate_at 2 c1.hflip (omega arith) i;
          vflip = rotate_at 3 c1.vflip (omega arith) i;
        }
            ∷ (record c2 {
              enable = enable_at 2 c2.enable (omega arith) i;
              hflip = rotate_at 4 c2.hflip (omega arith) i;
              vflip = rotate_at 5 c2.vflip (omega arith) i;
            }
                ∷ (record c3 {
                  enable = enable_at 3 c3.enable (omega arith) i;
                  hflip = rotate_at 6 c3.hflip (omega arith) i;
                  vflip = rotate_at 7 c3.vflip (omega arith) i;
                }
                    ∷ [])))
