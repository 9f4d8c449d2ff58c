-- ===== src/Parser/Knobs/Laws.antt =====
-- What the checks of parser.cpp on the encoder settings make of any values.
use gst_app.Prelude.{ℤ, pos, ◌≤ℤ◌, ◌≡◌, ap, ◌∙◌, Bool, true, false, Bool-cases, inl, inr, arith}
use gst_app.Parser.Consts.{
  default_gop_size, min_gop_size, max_gop_size, default_quant, min_quant, max_quant, default_qp_min,
  default_qp_max, min_qp, max_qp,
}
use gst_app.Parser.Knobs.{
  Knobs, ProfileRange, profile_range, enc_knob_sanity, enc_profile_sanity, enc_gop_resolve,
  check_knobs, reset_window,
}

abbrev pub Between : ℤ → ℤ → ℤ → Type 0
Between lo hi x = (lo ≤ℤ x) × (x ≤ℤ hi)

-- The settings of one stream that the encoder can take.
pub record KnobsFit (range : ProfileRange) (k : Knobs) : Type 0 where
  pub gop_fits : Between (pos 1) max_gop_size k.gop
  pub profile_fits : Between range.lowest range.highest k.profile
  pub quant_fits : Between min_quant max_quant k.quant
  pub qp_min_fits : Between min_qp max_qp k.qp_min
  pub qp_max_fits : Between min_qp max_qp k.qp_max
  pub ordered : pos 1 ≤ℤ k.qp_min → pos 1 ≤ℤ k.qp_max → k.qp_min ≤ℤ k.qp_max

-- All but the order of the window.
pub record InRange (range : ProfileRange) (k : Knobs) : Type 0 where
  pub gop_fits : Between (pos 1) max_gop_size k.gop
  pub profile_fits : Between range.lowest range.highest k.profile
  pub quant_fits : Between min_quant max_quant k.quant
  pub qp_min_fits : Between min_qp max_qp k.qp_min
  pub qp_max_fits : Between min_qp max_qp k.qp_max

enc_knob_sanity-Between :
    (slot lo hi def : ℤ) → Between lo hi def → Between lo hi (enc_knob_sanity slot lo hi def)
unfolding enc_knob_sanity
enc_knob_sanity-Between slot lo hi def h = ground arith

enc_knob_sanity-keep :
    (slot lo hi def : ℤ) → Between lo hi slot → enc_knob_sanity slot lo hi def ≡ slot
unfolding enc_knob_sanity
enc_knob_sanity-keep slot lo hi def h = ground arith

enc_gop_resolve-Between :
    (slot fps : ℤ)
    → Between min_gop_size max_gop_size slot
    → Between (pos 1) max_gop_size (enc_gop_resolve slot fps)
unfolding enc_gop_resolve
enc_gop_resolve-Between slot fps h = ground arith

enc_profile_sanity-Between :
    (slot : ℤ) (h265 : Bool)
    → let r = profile_range h265 in
      Between r.lowest r.highest (enc_profile_sanity slot r.lowest r.highest r.default)
unfolding enc_profile_sanity profile_range
enc_profile_sanity-Between slot true = ground arith
enc_profile_sanity-Between slot false = ground arith

enc_gop_resolve-keep :
    (slot fps : ℤ) → Between (pos 1) max_gop_size slot → enc_gop_resolve slot fps ≡ slot
unfolding enc_gop_resolve
enc_gop_resolve-keep slot fps h = ground arith

module _ (h265 : Bool) where
  abbrev pub range : ProfileRange
  range = profile_range h265

  enc_profile_sanity-keep :
      (slot : ℤ)
      → Between range.lowest range.highest slot
      → enc_profile_sanity slot range.lowest range.highest range.default ≡ slot
  unfolding enc_profile_sanity profile_range
  enc_profile_sanity-keep slot h = elim (Bool-cases h265) [
    | inl e ↦ ground (arith, e)
    | inr e ↦ ground (arith, e)
  ]

  pub check_knobs-InRange : (fps : ℤ) (k : Knobs) → InRange range (check_knobs range fps k)
  unfolding check_knobs
  check_knobs-InRange fps k = record {
    gop_fits =
        enc_gop_resolve-Between _ fps
          (enc_knob_sanity-Between k.gop min_gop_size max_gop_size default_gop_size (omega arith));
    profile_fits = enc_profile_sanity-Between k.profile h265;
    quant_fits = enc_knob_sanity-Between k.quant min_quant max_quant default_quant (omega arith);
    qp_min_fits = enc_knob_sanity-Between k.qp_min min_qp max_qp default_qp_min (omega arith);
    qp_max_fits = enc_knob_sanity-Between k.qp_max min_qp max_qp default_qp_max (omega arith);
  }

  pub reset_window-KnobsFit : {k : Knobs} → InRange range k → KnobsFit range (reset_window k)
  unfolding reset_window
  reset_window-KnobsFit {k} h = record {
    gop_fits = ground arith;
    profile_fits = ground arith;
    quant_fits = ground arith;
    qp_min_fits = ground arith;
    qp_max_fits = ground arith;
    ordered = λ p q. ground arith;
  }

  pub check_knobs-keep : (fps : ℤ) (k : Knobs) → KnobsFit range k → check_knobs range fps k ≡ k
  unfolding check_knobs
  check_knobs-keep fps k h = λ i. record {
    gop =
        (ap (λ s. enc_gop_resolve s fps)
              (enc_knob_sanity-keep k.gop min_gop_size max_gop_size default_gop_size
                (omega (arith, h.gop_fits)))
            ∙ enc_gop_resolve-keep k.gop fps h.gop_fits)
          i;
    profile = enc_profile_sanity-keep k.profile h.profile_fits i;
    quant = enc_knob_sanity-keep k.quant min_quant max_quant default_quant h.quant_fits i;
    qp_min = enc_knob_sanity-keep k.qp_min min_qp max_qp default_qp_min h.qp_min_fits i;
    qp_max = enc_knob_sanity-keep k.qp_max min_qp max_qp default_qp_max h.qp_max_fits i;
  }

  pub reset_window-keep : (k : Knobs) → KnobsFit range k → reset_window k ≡ k
  unfolding reset_window
  reset_window-keep k h = ground (arith, h.ordered)
