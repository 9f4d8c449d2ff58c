-- ===== src/Prepare/Targets.antt =====
-- `max9296_prepare_build_targets`: what each CSI domain is asked to prepare.
pub mod Laws
use gst_app.Prelude.{
  ℕ, ◌+◌, ◌*◌, ◌%◌, ◌^◌, List, [], ◌∷◌, Bool, true, false, ◌&&◌, ◌||◌, not, Option, none, some,
  codes, ltb, ◌==◌, ◌!=◌, if◌then◌else◌, bit_or,
}
use gst_app.Prelude.Errno.{einval}
use gst_app.Prepare.Types.{Two, PrepareInput, PrepareTarget, Result, ok, err}

-- Per-resolution ceilings.
abbrev pub max_fps_hd : ℕ
max_fps_hd = 60

abbrev pub max_fps_fhd : ℕ
max_fps_fhd = 30

abbrev pub max_fps_360p : ℕ
max_fps_360p = 120

unfoldable pub prepare_path : ℕ → Option (List ℕ)
prepare_path csi =
    if csi == 0
    then some (codes "/sys/bus/i2c/devices/2-0048/prepare")
    else if csi == 1
    then some (codes "/sys/bus/i2c/devices/1-0048/prepare")
    else none

path_of : ℕ → List ℕ
unfolding prepare_path
path_of csi = elim (prepare_path csi) [ none ↦ [] | some p ↦ p ]

abbrev pub mode_name : ℕ → List ℕ
mode_name enable =
    if enable == 3 then codes "dual-wide" else if enable == 0 then codes "none" else codes "single"

abbrev pub table_name : ℕ → List ℕ
table_name enable =
    if enable == 3
    then codes "dual"
    else if enable == 1
    then codes "left"
    else if enable == 2
    then codes "right"
    else codes "none"

known_size : ℕ → ℕ → Bool
known_size width height =
    (width == 640 && height == 360)
    || (width == 1280 && height == 720)
    || (width == 1920 && height == 1080)

unfoldable pub max_fps_for : ℕ → ℕ → ℕ
max_fps_for width height =
    if width == 640 && height == 360
    then max_fps_360p
    else if height == 720
    then max_fps_hd
    else max_fps_fhd

-- One round of the loop over the domains, before its frame rate is checked.
unfoldable pub target_for : PrepareInput → ℕ → ℕ → ℕ → ℕ → PrepareTarget
unfolding path_of
target_for input csi fps left right =
    let enable = bit_or left (right * 2 % 2 ^ 32) in
    record {
      active = enable != 0;
      csi = csi;
      path = path_of csi;
      width = if enable == 3 then input.width * 2 % 2 ^ 32 else input.width;
      height = input.height;
      fps = fps;
      enable = enable;
      mode = mode_name enable;
      table = table_name enable;
    }

rate_refused : ℕ → PrepareTarget → Bool
rate_refused max_fps t = t.active && (t.fps == 0 || ltb max_fps t.fps)

unfoldable pub build_targets : Option PrepareInput → Result (Two PrepareTarget)
unfolding known_size rate_refused
build_targets none = err einval
build_targets (some input) =
    if input.generation == 0 || not (known_size input.width input.height)
    then err einval
    else if ltb 1 input.ch0 || ltb 1 input.ch1 || ltb 1 input.ch2 || ltb 1 input.ch3
    then err einval
    else let max_fps = max_fps_for input.width input.height in
      let t0 = target_for input 0 input.fps.csi0 input.ch0 input.ch1 in
      let t1 = target_for input 1 input.fps.csi1 input.ch2 input.ch3 in
      if rate_refused max_fps t0
      then err einval
      else if rate_refused max_fps t1
      then err einval
      else if t0.active && t1.active && t0.fps != t1.fps
      then err einval
      else ok (record { csi0 = t0; csi1 = t1 })
