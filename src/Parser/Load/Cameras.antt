-- ===== src/Parser/Load/Cameras.antt =====
-- The loop of json_parser of parser.cpp over the cameras.
use gst_app.Prelude.{
  ℕ, ◌+◌, ◌*◌, ◌/◌, ◌%◌, ◌^◌, ℤ, pos, to_uint32, Bool, true, false, Option, none, some, List, [],
  ◌∷◌, ◌++◌, set, ◌==◌, if◌then◌else◌, bit_or, codes,
}
use gst_app.Controls.{crop_enable_normalize}
use gst_app.CfgJson.{Json, null, boolean, int, text, double, array, object}
use gst_app.Parser.Args.{CamConfig, Fps}
use gst_app.Parser.Getters.{
  as_int, as_text, get_member, json_get_uint, json_get_uint32, json_get_bool, json_get_int_array,
}

-- What the passes of the loop share: the settings outside `cam` that they change, g_cfg_errors and
-- array_errors.
pub record Shared : Type 0 where
  pub dz0 : ℕ
  pub dz1 : ℕ
  pub crop_enable0 : ℕ
  pub crop_enable1 : ℕ
  pub ch_enable : ℕ
  pub ch_rotate : ℕ
  pub fps : Fps
  pub errors : ℕ
  pub array_errors : ℕ

-- Whether the crop value is a JSON boolean, and that value.
abbrev pub as_boolean : Option Json → Option Bool
as_boolean none = none
as_boolean (some null) = none
as_boolean (some (boolean b)) = some b
as_boolean (some (int v)) = none
as_boolean (some (text t)) = none
as_boolean (some (double d)) = none
as_boolean (some (array a)) = none
as_boolean (some (object m)) = none

abbrev pub to_nat : Bool → ℕ
to_nat true = 1
to_nat false = 0

abbrev pub is_given : Option Json → Bool
is_given none = false
is_given (some v) = true

-- crop_value, and whether it comes from a JSON boolean.
abbrev pub boolean_type : Option Bool → ℕ
boolean_type none = 0
boolean_type (some b) = 1

abbrev pub crop_value : Option Bool → ℤ
crop_value none = pos 0
crop_value (some b) = pos (to_nat b)

-- The crop gate of a CSI: its value, and what it adds to g_cfg_errors.
unfoldable pub load_crop : Option Json → ℕ × ℕ
load_crop crop_obj =
    let present = to_nat (is_given crop_obj) in
    let given = as_boolean crop_obj in
    let (value, invalid) = crop_enable_normalize present (boolean_type given) (crop_value given) in
    (value, if present == 0 then 0 else if invalid == 0 then 0 else 1)

-- The part of a pass that is done once for each CSI, on its first channel.
unfoldable pub load_csi : Option Json → ℕ → Shared → Shared
unfolding load_crop
load_csi sobj i sh =
    let (crop, bad) = load_crop (get_member sobj (codes "crop_enable")) in
    if i % 2 == 0
    then if i / 2 == 0
      then record sh {
        dz0 = json_get_uint sobj (codes "dz") sh.dz0;
        crop_enable0 = crop;
        errors = sh.errors + bad;
      }
      else record sh {
        dz1 = json_get_uint sobj (codes "dz") sh.dz1;
        crop_enable1 = crop;
        errors = sh.errors + bad;
      }
    else sh

-- ext_time where it is an integer, else exp_time.
unfoldable pub load_exp_time : Option Json → ℕ → ℕ
load_exp_time sobj out = elim (as_int (get_member sobj (codes "ext_time"))) [
  | none ↦ json_get_uint32 sobj (codes "exp_time") out
  | some v ↦ to_uint32 v
]

-- The settings of a camera up to the test for the old key, with g_cfg_errors and the number of
-- malformed arrays.
unfoldable pub load_cam_first : Option Json → Option Json → CamConfig → ℕ → CamConfig × ℕ × ℕ
load_cam_first sobj vobj c errors =
    let (enable, e1) = json_get_bool vobj (codes "enable") c.enable errors in
    let (hflip, e2) = json_get_bool vobj (codes "hflip") c.hflip e1 in
    let (vflip, e3) = json_get_bool vobj (codes "vflip") c.vflip e2 in
    let (bps, a1) = json_get_int_array vobj (codes "bps") c.bps in
    let (gop, a2) = json_get_int_array vobj (codes "gop") c.gop in
    let (profile, a3) = json_get_int_array vobj (codes "profile") c.profile in
    let (quant, a4) = json_get_int_array vobj (codes "quant") c.quant in
    let (qp_min, a5) = json_get_int_array vobj (codes "qp_min") c.qp_min in
    let (qp_max, a6) = json_get_int_array vobj (codes "qp_max") c.qp_max in
    let (ae_on, e4) = json_get_bool vobj (codes "ae_on") c.ae_on e3 in
    (
      record c {
        exp_time = load_exp_time sobj c.exp_time;
        enable = enable;
        hflip = hflip;
        vflip = vflip;
        bps = bps;
        gop = gop;
        profile = profile;
        quant = quant;
        qp_min = qp_min;
        qp_max = qp_max;
        ae_on = ae_on;
        ae_gain = json_get_uint vobj (codes "ae_gain") c.ae_gain;
      },
      e4,
      a1 + a2 + a3 + a4 + a5 + a6,
    )

-- The settings after that test, with g_cfg_errors.
unfoldable pub load_cam_rest : Option Json → CamConfig → ℕ → CamConfig × ℕ
load_cam_rest vobj c errors =
    let led = get_member vobj (codes "led_flash") in
    let (led_on, e1) = json_get_bool led (codes "enable") c.led_flash_enable errors in
    (
      record c {
        dz_x = json_get_uint vobj (codes "dz_x") c.dz_x;
        dz_y = json_get_uint vobj (codes "dz_y") c.dz_y;
        awb = elim (as_text (get_member vobj (codes "awb"))) [ none ↦ c.awb | some t ↦ t ];
        led_flash_enable = led_on;
        led_flash_wiper = json_get_uint led (codes "wiper") c.led_flash_wiper;
        led_flash_delay = json_get_uint led (codes "flash_delay") c.led_flash_delay;
      },
      e1,
    )

abbrev set_fps : ℕ → ℤ → Fps → Fps
set_fps i rate fps = record {
  rec = set fps.rec i rate;
  rtsp = set fps.rtsp i rate;
  cap = set fps.cap i rate;
}

-- The end of a pass: the masks and the frame rates.
unfoldable pub close_pass : ℤ → ℕ → CamConfig → Shared → Shared
close_pass main_fps i c sh = record sh {
  ch_enable = bit_or sh.ch_enable (to_nat c.enable * 2 ^ i);
  ch_rotate =
      bit_or (bit_or sh.ch_rotate (to_nat c.hflip * 2 ^ (i * 2)))
        (to_nat c.vflip * 2 ^ (i * 2 + 1));
  fps = set_fps i main_fps sh.fps;
}

i2c_key : ℕ → List ℕ
i2c_key i = if i / 2 == 0 then codes "i2c2" else codes "i2c1"

ch_key : ℕ → List ℕ
ch_key i = codes "ch" ++ ((b'0' + i) ∷ [])

-- The two objects that a pass reads: that of the CSI, and that of the channel in it.
unfoldable pub csi_object : Option Json → ℕ → Option Json
unfolding i2c_key
csi_object hobj i = get_member hobj (i2c_key i)

unfoldable pub channel_object : Option Json → ℕ → Option Json
unfolding csi_object ch_key
channel_object hobj i = get_member (csi_object hobj i) (ch_key i)

-- A pass up to the test for the old key: the camera, and what is shared.
unfoldable pub begin_pass : Option Json → ℕ → CamConfig → Shared → CamConfig × Shared
begin_pass hobj i c sh =
    let sobj = csi_object hobj i in
    let csi = load_csi sobj i sh in
    let (c1, e1, bad) = load_cam_first sobj (channel_object hobj i) c csi.errors in
    (c1, record csi { errors = e1; array_errors = csi.array_errors + bad })

-- The rest of the pass.
unfoldable pub finish_pass : Option Json → ℤ → ℕ → CamConfig → Shared → CamConfig × Shared
finish_pass hobj main_fps i c sh =
    let (c2, e2) = load_cam_rest (channel_object hobj i) c sh.errors in
    (c2, close_pass main_fps i c2 (record sh { errors = e2 }))

-- One pass: the camera, what is shared, and whether the whole read stops here.
unfoldable pub load_cam : Option Json → ℤ → ℕ → CamConfig → Shared → CamConfig × Shared × Bool
unfolding csi_object channel_object begin_pass finish_pass
load_cam hobj main_fps i c sh =
    let (c1, begun) = begin_pass hobj i c sh in
    let (c2, done) = finish_pass hobj main_fps i c1 begun in
    if is_given (get_member (channel_object hobj i) (codes "dz"))
    then (c1, begun, true)
    else (c2, done, false)

-- The loop from channel `i` on, over the cameras that are left.
unfoldable pub load_cams :
    Option Json → ℤ → ℕ → List CamConfig → Shared → List CamConfig × Shared × Bool
load_cams hobj main_fps i [] sh = ([], sh, false)
load_cams hobj main_fps i (c ∷ cams) sh =
    let (c', sh', stopped) = load_cam hobj main_fps i c sh in
    let (cams', sh'', stopped') = load_cams hobj main_fps (i + 1) cams sh' in
    if stopped then (c' ∷ cams, sh', true) else (c' ∷ cams', sh'', stopped')
