-- ===== src/Parser/Options.antt =====
-- ParserClass::arg_parser of parser.cpp: what it derives once GLib has read the command line, and
-- apply_camera_sysfs, which writes the masks to the drivers.
pub mod Masks
pub mod Rates
pub mod Sysfs
use gst_app.Prelude.{
  ℕ, suc, ◌+◌, ◌*◌, ◌/◌, ◌%◌, ◌^◌, ℤ, pos, Bool, true, false, not, Option, none, some, List, [],
  ◌∷◌, get_or, is_pos, is_zero, is_neg, ltb_ℤ, bit_and, ◌==◌, ◌!=◌, if◌then◌else◌,
}
use gst_app.Parser.Args.{CamConfig, Fps, CmdArg}

-- if (rate > max) max = rate;
unfoldable pub raise : ℤ → ℤ → ℤ
raise max rate = if ltb_ℤ max rate then rate else max

-- The two maxima over one stream: channels 0 and 1, channels 2 and 3.
unfoldable raise_stream : List ℤ → ℤ × ℤ → ℤ × ℤ
unfolding raise
raise_stream rates (max0, max1) = (
  raise (raise max0 (get_or rates 0 (pos 0))) (get_or rates 1 (pos 0)),
  raise (raise max1 (get_or rates 2 (pos 0))) (get_or rates 3 (pos 0)),
)

unfoldable pub max_rates : Fps → ℤ × ℤ
unfolding raise raise_stream
max_rates fps = raise_stream fps.cap (raise_stream fps.rtsp (raise_stream fps.rec (pos 0, pos 0)))

-- The bit `at` of a mask.
abbrev pub bit_at : ℕ → ℕ → Bool
bit_at mask at = mask / 2 ^ at % 2 != 0

-- The last loop, from channel `i` on.
unfoldable pub cam_flags : ℕ → ℕ → ℕ → List CamConfig → List CamConfig
cam_flags ch_enable ch_rotate i [] = []
cam_flags ch_enable ch_rotate i (c ∷ cams) =
    record c {
      enable = bit_at ch_enable i;
      hflip = bit_at ch_rotate (i * 2);
      vflip = bit_at ch_rotate (i * 2 + 1);
    }
    ∷ cam_flags ch_enable ch_rotate (i + 1) cams

-- The settings once the options are read into them.
unfoldable pub derive : CmdArg → CmdArg
unfolding max_rates cam_flags
derive arg =
    let (max0, max1) = max_rates arg.fps in
    record arg {
      dbg_cap_ts = if arg.dbg_ts then true else arg.dbg_cap_ts;
      dbg_rtsp_ts = if arg.dbg_ts then true else arg.dbg_rtsp_ts;
      main_fps1 = if is_pos max0 then max0 else arg.main_fps1;
      main_fps0 = if is_pos max1 then max1 else arg.main_fps0;
      cam = cam_flags arg.ch_enable arg.ch_rotate 0 arg.cam;
    }

-- What g_option_context_parse gives: its result, the settings that it has written, and the text of
-- the option `enc`, if it was given.
pub record Options : Type 0 where
  pub result : ℤ
  pub written : CmdArg
  pub enc_option : Option (List ℕ)

-- `parse` is g_option_context_parse with the table of options.
unfoldable pub arg_parser : (CmdArg → Options) → CmdArg → ℤ × CmdArg
unfolding derive
arg_parser parse arg =
    let o = parse arg in
    if is_zero o.result then (o.result, o.written) else (
      o.result,
      derive (record o.written {
        enc = elim o.enc_option [ none ↦ o.written.enc | some enc ↦ some enc ];
      }),
    )

-- The files that apply_camera_sysfs writes.
pub data SysfsFile : Type 0 where
  enable_path_01 enable_path_23 rotate_path_01 rotate_path_23 : SysfsFile

-- The four writes in order, as numbers.
unfoldable pub sysfs_values : CmdArg → List (SysfsFile × ℕ)
sysfs_values arg =
    (enable_path_01, bit_and arg.ch_enable 0x03)
    ∷ ((enable_path_23, bit_and (arg.ch_enable / 2 ^ 2) 0x03)
        ∷ ((rotate_path_01, bit_and arg.ch_rotate 0x0f)
            ∷ ((rotate_path_23, bit_and (arg.ch_rotate / 2 ^ 4) 0x0f) ∷ [])))

-- The writes that are made, and the result; `answer` is what safe_write_file returns for a write.
unfoldable pub write_all : (SysfsFile × ℕ → ℤ) → ℤ → List (SysfsFile × ℕ) → ℤ × List (SysfsFile × ℕ)
write_all answer ret [] = (ret, [])
write_all answer ret (w ∷ writes) =
    let rest = write_all answer (answer w) writes in
    if is_neg (answer w) then (answer w, w ∷ []) else (rest.0, w ∷ rest.1)

unfoldable pub apply_camera_sysfs : (SysfsFile × ℕ → ℤ) → CmdArg → ℤ × List (SysfsFile × ℕ)
unfolding sysfs_values write_all
apply_camera_sysfs answer arg = write_all answer (pos 0) (sysfs_values arg)
