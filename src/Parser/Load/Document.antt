-- ===== src/Parser/Load/Document.antt =====
-- ParserClass::json_parser of parser.cpp as a whole.
pub mod Laws
pub mod Config
pub mod Root
use gst_app.Prelude.{
  ℕ, zero, suc, ℤ, pos, negsuc, Bool, true, false, not, ◌&&◌, Option, none, some, List, [], ◌∷◌,
  ltb, ◌==◌, if◌then◌else◌, codes, eqb_ℤ, length,
}
use gst_app.CfgJson.{Json, null, boolean, int, text, double, array, object}
use gst_app.Parser.Args.{CamConfig, Fps, CmdArg}
use gst_app.Parser.Getters.{get_member}
use gst_app.Parser.Load.Sections.{Loading, is_object, load_base, load_cap_section, load_tuning}
use gst_app.Parser.Load.Cameras.{Shared, load_cams}

-- json_object_get_boolean on a value that is there.
abbrev pub truth : Json → Bool
truth null = false
truth (boolean b) = b
truth (int v) = not (eqb_ℤ v (pos 0))
truth (text t) = ltb 0 (length t)
truth (double d) = d
truth (array a) = false
truth (object m) = false

load_srt : Option Json → Bool → Bool
load_srt none out = out
load_srt (some v) out = truth v

-- The result, the settings, g_cfg_errors, and the document that the parser holds on to.
pub record Parsed : Type 0 where
  pub code : ℤ
  pub arg : CmdArg
  pub errors : ℕ
  pub root : Option Json

-- What the loop over the cameras starts from: both masks are cleared.
unfoldable pub shared_of : Loading → Shared
shared_of l = record {
  dz0 = l.arg.dz0;
  dz1 = l.arg.dz1;
  crop_enable0 = l.arg.crop_enable0;
  crop_enable1 = l.arg.crop_enable1;
  ch_enable = 0;
  ch_rotate = 0;
  fps = l.arg.fps;
  errors = l.errors;
  array_errors = 0;
}

unfoldable pub with_cameras : CmdArg → List CamConfig → Shared → CmdArg
with_cameras arg cams sh = record arg {
  cam = cams;
  dz0 = sh.dz0;
  dz1 = sh.dz1;
  crop_enable0 = sh.crop_enable0;
  crop_enable1 = sh.crop_enable1;
  ch_enable = sh.ch_enable;
  ch_rotate = sh.ch_rotate;
  fps = sh.fps;
}

-- The three sections that the document must have.
unfoldable pub has_sections : Json → List ℕ → Bool
unfolding get_member
has_sections root header =
    is_object (some root)
    && (is_object (get_member (some root) header)
        && (is_object (get_member (some root) (codes "ORD"))
            && is_object (get_member (some root) (codes "VCM"))))

-- The settings once the sections before the loop over the cameras are read.
unfoldable pub load_sections : Option Json → Loading → Loading
unfolding load_base load_cap_section load_tuning
load_sections hobj l =
    let sobj = get_member hobj (codes "capture") in
    load_tuning hobj sobj (load_cap_section sobj (load_base hobj l))

-- A document with the three sections.
unfoldable pub load_document : Json → List ℕ → CmdArg → Parsed
unfolding load_sections shared_of with_cameras load_cams load_srt
load_document root header arg =
    let hobj = get_member (some root) header in
    let vcm_obj = get_member (some root) (codes "VCM") in
    let l = load_sections hobj (record { arg = arg; errors = 0 }) in
    let (cams, sh, stopped) = load_cams hobj l.arg.main_fps0 0 l.arg.cam (shared_of l) in
    let read = with_cameras l.arg cams sh in
    let srt = load_srt (get_member vcm_obj (codes "srt_enable")) read.srt_en in
    let whole = record read { srt_en = srt } in
    if stopped
    then record { code = negsuc 0; arg = read; errors = sh.errors; root = some root }
    else record {
      code = if ltb 0 sh.array_errors then negsuc 0 else pos 0;
      arg = whole;
      errors = sh.errors;
      root = some root;
    }

is_empty : Option (List ℕ) → Bool
is_empty none = true
is_empty (some []) = true
is_empty (some (c ∷ rest)) = false

-- What json_object_from_file gave, with the name of the file already stored.
unfoldable pub parse_document : Option Json → List ℕ → CmdArg → Option Json → Parsed
unfolding has_sections load_document
parse_document none header arg root = record { code = negsuc 0; arg = arg; errors = 0; root = root }
parse_document (some document) header arg root =
    if has_sections document header
    then load_document document header arg
    else record { code = negsuc 0; arg = arg; errors = 0; root = root }

-- `from_file` is json_object_from_file: the document that a file holds, if it can be read.
unfoldable pub json_parser :
    (List ℕ → Option Json) → Option (List ℕ) → List ℕ → CmdArg → Option Json → Parsed
unfolding is_empty parse_document
json_parser from_file none header arg root = record {
  code = negsuc 0;
  arg = arg;
  errors = 0;
  root = root;
}
json_parser from_file (some path) header arg root =
    if is_empty (some path)
    then record { code = negsuc 0; arg = arg; errors = 0; root = root }
    else parse_document (from_file path) header (record arg { json_file = some path }) root
