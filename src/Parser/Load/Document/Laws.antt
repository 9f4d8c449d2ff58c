-- ===== src/Parser/Load/Document/Laws.antt =====
-- The flags of the cameras that json_parser of parser.cpp leaves when it accepts a document.
use gst_app.Prelude.{
  ℕ, suc, ◌+◌, ◌*◌, ◌^◌, ℤ, pos, ◌≡◌, inl, inr, refl, ap, ◌∙◌, Bool, true, false, Bool-cases,
  Option, none, some, List, [], ◌∷◌, length, bit_or, arith, if◌then◌else◌, codes, is_neg, ap₂,
}
use gst_app.CfgJson.{Json}
use gst_app.Parser.Args.{CamConfig, CmdArg}
use gst_app.Parser.Getters.{get_member}
use gst_app.Parser.Load.Sections.{Loading, load_cap_section, load_capture, load_tuning, load_base}
use gst_app.Parser.Load.Cameras.{
  Shared, to_nat, is_given, load_csi, close_pass, load_cam, load_cams, csi_object, channel_object,
  begin_pass, finish_pass,
}
use gst_app.Parser.Load.Document.{
  Parsed, shared_of, with_cameras, has_sections, load_sections, load_document, parse_document,
  json_parser,
}
use gst_app.Parser.Options.{cam_flags, derive}
use gst_app.Parser.Options.Masks.{enable_mask, rotate_mask, cam_flags-masks}

-- The first part of a pass leaves the masks.
load_csi_masks :
    (sobj : Option Json) (i : ℕ) (sh : Shared)
    → ((load_csi sobj i sh).ch_enable ≡ sh.ch_enable)
      × ((load_csi sobj i sh).ch_rotate ≡ sh.ch_rotate)
unfolding load_csi
load_csi_masks sobj i sh = ground arith

-- The masks of a pass that went through.
abbrev Marked : ℕ → Shared → CamConfig × Shared × Bool → Type 0
Marked i sh r =
    (r.1.ch_enable ≡ bit_or sh.ch_enable (to_nat r.0.enable * 2 ^ i))
    × (r.1.ch_rotate
        ≡ bit_or (bit_or sh.ch_rotate (to_nat r.0.hflip * 2 ^ (i * 2)))
            (to_nat r.0.vflip * 2 ^ (i * 2 + 1)))

-- A conditional that did not stop took its second branch.
not_stopped :
    {A : Type 0} (stop : A → Bool) (t : Bool) (Goal : A → Type 0) (a b : A)
    → stop a ≡ true
    → (t ≡ false → stop b ≡ false → Goal b)
    → stop (if t then a else b) ≡ false
    → Goal (if t then a else b)
not_stopped stop true Goal a b h good e = absurd (cc)
not_stopped stop false Goal a b h good e = good refl e

begin_pass_masks :
    (hobj : Option Json) (i : ℕ) (c : CamConfig) (sh : Shared)
    → ((begin_pass hobj i c sh).1.ch_enable ≡ sh.ch_enable)
      × ((begin_pass hobj i c sh).1.ch_rotate ≡ sh.ch_rotate)
unfolding begin_pass
begin_pass_masks hobj i c sh = load_csi_masks (csi_object hobj i) i sh

-- A whole pass adds the flags of its camera to the masks.
load_cam_masks :
    (hobj : Option Json) (main_fps : ℤ) (i : ℕ) (c : CamConfig) (sh : Shared)
    → (load_cam hobj main_fps i c sh).2 ≡ false
    → Marked i sh (load_cam hobj main_fps i c sh)
unfolding load_cam close_pass
load_cam_masks hobj main_fps i c sh e =
    let (on, turn) = begin_pass_masks hobj i c sh in
    let begun = begin_pass hobj i c sh in
    let done = finish_pass hobj main_fps i begun.0 begun.1 in
    not_stopped (λ (r : CamConfig × Shared × Bool). r.2)
      (is_given (get_member (channel_object hobj i) (codes "dz"))) (Marked i sh)
      (begun.0, begun.1, true) (done.0, done.1, false) refl
      (λ _ _. (
        ap (λ (m : ℕ). bit_or m (to_nat done.0.enable * 2 ^ i)) on,
        ap
            (λ (m : ℕ).
              bit_or (bit_or m (to_nat done.0.hflip * 2 ^ (i * 2)))
                (to_nat done.0.vflip * 2 ^ (i * 2 + 1)))
            turn,
      ))
      e

abbrev AllMarked : ℕ → Shared → ℕ → List CamConfig × Shared × Bool → Type 0
AllMarked i sh n r =
    (r.1.ch_enable ≡ enable_mask sh.ch_enable i r.0)
    × (r.1.ch_rotate ≡ rotate_mask sh.ch_rotate i r.0)
    × (length r.0 ≡ n)

load_cams_masks :
    (hobj : Option Json) (main_fps : ℤ) (i : ℕ) (cams : List CamConfig) (sh : Shared)
    → (load_cams hobj main_fps i cams sh).2 ≡ false
    → AllMarked i sh (length cams) (load_cams hobj main_fps i cams sh)
unfolding load_cams
load_cams_masks hobj main_fps i [] sh e = (refl, refl, refl)
load_cams_masks hobj main_fps i (c ∷ cams) sh e =
    let one = load_cam hobj main_fps i c sh in
    let rest = load_cams hobj main_fps (i + 1) cams one.1 in
    not_stopped (λ (r : List CamConfig × Shared × Bool). r.2) one.2
      (AllMarked i sh (suc (length cams))) (one.0 ∷ cams, one.1, true)
      (one.0 ∷ rest.0, rest.1, rest.2) refl
      (λ went through.
        let (on, turn) = load_cam_masks hobj main_fps i c sh went in
        let (ons, turns, same) = load_cams_masks hobj main_fps (i + 1) cams one.1 through in
        (
          ons ∙ ap (λ (m : ℕ). enable_mask m (i + 1) rest.0) on,
          turns ∙ ap (λ (m : ℕ). rotate_mask m (i + 1) rest.0) turn,
          ap suc same,
        ))
      e

four_flags :
    (cams : List CamConfig)
    → length cams ≡ 4
    → cam_flags (enable_mask 0 0 cams) (rotate_mask 0 0 cams) 0 cams ≡ cams
four_flags (a ∷ (b ∷ (c ∷ (d ∷ [])))) h = cam_flags-masks a b c d
four_flags [] h = absurd (omega arith)
four_flags (a ∷ []) h = absurd (omega arith)
four_flags (a ∷ (b ∷ [])) h = absurd (omega arith)
four_flags (a ∷ (b ∷ (c ∷ []))) h = absurd (omega arith)
four_flags (a ∷ (b ∷ (c ∷ (d ∷ (e ∷ rest))))) h = absurd (omega arith)

-- The sections before the loop leave the cameras.
load_cap_section_cam :
    (sobj : Option Json) (l : Loading) → (load_cap_section sobj l).arg.cam ≡ l.arg.cam
unfolding load_cap_section load_capture
load_cap_section_cam sobj l = ground arith

load_sections_cam : (hobj : Option Json) (l : Loading) → (load_sections hobj l).arg.cam ≡ l.arg.cam
unfolding load_sections load_tuning load_base
load_sections_cam hobj l =
    load_cap_section_cam (get_member hobj (codes "capture")) (load_base hobj l)

-- The flags of the cameras are those that the masks give.
abbrev FlagsKept : Parsed → Type 0
FlagsKept p = (derive p.arg).cam ≡ p.arg.cam

load_document_flags :
    (root : Json) (header : List ℕ) (arg : CmdArg)
    → length arg.cam ≡ 4
    → is_neg (load_document root header arg).code ≡ false
    → FlagsKept (load_document root header arg)
unfolding load_document derive with_cameras shared_of
load_document_flags root header arg four e =
    let hobj = get_member (some root) header in
    let l = load_sections hobj (record { arg = arg; errors = 0 }) in
    let r = load_cams hobj l.arg.main_fps0 0 l.arg.cam (shared_of l) in
    let kept = load_sections_cam hobj (record { arg = arg; errors = 0 }) in
    not_stopped (λ (p : Parsed). is_neg p.code) r.2 FlagsKept _ _ refl
      (λ whole _.
        let (on, turn, same) =
          load_cams_masks hobj l.arg.main_fps0 0 l.arg.cam (shared_of l) whole in
        ap₂ (λ (a b : ℕ). cam_flags a b 0 r.0) on turn
        ∙ four_flags r.0 (same ∙ ap length kept ∙ four))
      e

module _ (header : List ℕ) (arg : CmdArg) (root : Option Json) where
  parse_document_flags :
      (found : Option Json)
      → length arg.cam ≡ 4
      → is_neg (parse_document found header arg root).code ≡ false
      → FlagsKept (parse_document found header arg root)
  unfolding parse_document
  parse_document_flags none four e = absurd (cc)
  parse_document_flags (some document) four e = elim (Bool-cases (has_sections document header)) [
    | inl good ↦ rw good (load_document_flags document header arg four (rw good at e))
    | inr bad ↦ absurd (let e' = rw bad at e in cc)
  ]

module _ (from_file : List ℕ → Option Json) (header : List ℕ) (arg : CmdArg)
    (root : Option Json) where
  -- The flags that an accepted document gives to the four cameras are those of the masks: a command
  -- line that follows and gives no option leaves the cameras as the document has them.
  pub json_parser-flags :
      (path : List ℕ)
      → length arg.cam ≡ 4
      → (json_parser from_file (some path) header arg root).code ≡ pos 0
      → let read = (json_parser from_file (some path) header arg root).arg in
        (derive read).cam ≡ read.cam
  unfolding json_parser
  json_parser-flags [] four e = absurd (ground arith)
  json_parser-flags (c ∷ path) four e =
      parse_document_flags header (record arg { json_file = some (c ∷ path) }) root
        (from_file (c ∷ path)) four (ap is_neg e)
