-- ===== src/Parser/Tests.antt =====
-- Concrete settings, and what the parser makes of them.
use gst_app.Parser.Requests.Timeout.{Waits, cfi_parser-Waits}
use gst_app.Parser.Requests.Laws.{orders, Outcome, cfi_parser-Outcome}
use gst_app.Parser.Requests.{cfi_parser, is_png, header_of}
use gst_app.Parser.Load.Cameras.{load_cam, close_pass, load_csi, load_cam_first, load_cam_rest}
use gst_app.Parser.Getters.{json_get_bool, json_get_int_array}
use gst_app.Controls.{mode_total_fps_limit, zoom_center_sanitize}
use gst_app.Prelude.{
  ℕ, ◌+◌, ◌*◌, ◌≤◌, ℤ, pos, negsuc, ◌≤ℤ◌, ◌≡◌, ◌⊎◌, ◌↔◌, refl, true, false, List, [], ◌∷◌, length,
  Option, none, some, codes, arith, ◌++◌, replicate, All, ◌<◌, take,
}
use gst_app.CfgJson.{Json, boolean, object, member, end, cfg_get_bool, cfg_get_int_array}
use gst_app.Parser.Args.{Both, CamConfig, CaptureConfig, Fps, Streams, CmdArg}
use gst_app.Parser.Init.{init_arg}
use gst_app.Parser.Knobs.{check_cam, enc_gop_rescale}
use gst_app.Parser.Knobs.Rescale.{enc_gop_rescale_nearest}
use gst_app.Parser.Check.{check_arg, total_fps}
use gst_app.Parser.Check.Laws.{Usable, check_arg-Usable}
use gst_app.Parser.Check.Keep.{check_arg_idempotent}
use gst_app.Parser.Check.Verdict.{HasMode, rates_of, check_arg_iff}
use gst_app.Parser.Load.Document.{json_parser, load_document, Parsed}
use gst_app.Parser.Load.Document.Laws.{json_parser-flags}
use gst_app.Parser.Load.Document.Root.{LeadsTo, named, json_parser-root}
use gst_app.Parser.Options.{
  derive, SysfsFile, enable_path_01, enable_path_23, rotate_path_01, rotate_path_23,
  apply_camera_sysfs,
}
use gst_app.Parser.Options.Rates.{MainRate, derive-MainRate}
use gst_app.Parser.Options.Sysfs.{Written, apply_camera_sysfs-Written}

abbrev both0 : Both
both0 = record { rec = pos 0; rtsp = pos 0 }

abbrev cam0 : CamConfig
cam0 = record {
  enable = false;
  vflip = false;
  hflip = false;
  bps = both0;
  gop = both0;
  profile = both0;
  quant = both0;
  qp_min = both0;
  qp_max = both0;
  ae_on = false;
  ae_gain = 0;
  lsc = 0;
  iso = 0;
  exp_time = 0;
  awb = [];
  dz_x = 0;
  dz_y = 0;
  led_flash_enable = false;
  led_flash_wiper = 0;
  led_flash_delay = 0;
}

abbrev cap0 : CaptureConfig
cap0 = record {
  res_en = false;
  rtsp_en = false;
  record_en = false;
  max_cnt = pos 0;
  padding = false;
  delay = pos 0;
  timeout = pos 0;
  quality = pos 0;
  queue_size = pos 0;
  dir = none;
  path = [];
  encoder = none;
  instant = pos 0;
}

abbrev fps0 : Fps
fps0 = record {
  rec = pos 0 ∷ (pos 0 ∷ (pos 0 ∷ (pos 0 ∷ [])));
  rtsp = pos 0 ∷ (pos 0 ∷ (pos 0 ∷ (pos 0 ∷ [])));
  cap = pos 0 ∷ (pos 0 ∷ (pos 0 ∷ (pos 0 ∷ [])));
}

abbrev streams0 : Streams
streams0 = record { rec = false; rtsp = false; cap = false }

-- What the object holds before the first call.
abbrev blank : CmdArg
blank = record {
  level_mode = pos 0;
  io_mode = pos 0;
  cam = cam0 ∷ (cam0 ∷ (cam0 ∷ (cam0 ∷ [])));
  fps = fps0;
  stream_en = streams0;
  log_level = pos 0;
  dbg_level = pos 0;
  dbg_ts = false;
  dbg_cap_ts = false;
  dbg_rtsp_ts = false;
  dot_dir = [];
  mnt_dir = [];
  oht_name = [];
  json_file = none;
  ch_enable = 0;
  ch_rotate = 0;
  main_fps0 = pos 0;
  main_fps1 = pos 0;
  dz0 = 0;
  dz1 = 0;
  crop_enable0 = 0;
  crop_enable1 = 0;
  play_delay = pos 0;
  config_delay = pos 0;
  fault = false;
  duration = pos 0;
  tcp_en = false;
  tcp_port = pos 0;
  audio_en = false;
  appname = [];
  split_diff_msec = pos 0;
  split_max_msec = pos 0;
  split_audio_min_msec = pos 0;
  split_sec = pos 0;
  input_en = false;
  rtsp_port = [];
  rtsp_id = [];
  overlay_en = false;
  width = pos 0;
  height = pos 0;
  ipc_en = false;
  ipc_mid = pos 0;
  enc = none;
  muxer = [];
  dual_enc = false;
  rtsp_factory_latency_ms = pos 0;
  rtsp_appsink_max_buffers = pos 0;
  rtsp_factory_queue_max_buffers = pos 0;
  rtsp_bin_queue_max_time_ms = pos 0;
  rtsp_appsrc_max_bytes = pos 0;
  rtsp_frame_id_sei = pos 0;
  v4l2_sync_trace_sec = pos 0;
  v4l2_sync_log_frames = pos 0;
  channel_sync_trace_sec = pos 0;
  rtsp_sync_trace_sec = pos 0;
  rtsp_test_stall_ch = pos 0;
  rtsp_test_stall_after_sec = pos 0;
  rtsp_test_stall_duration_sec = pos 0;
  v4l_subdev_csi0 = pos 0;
  v4l_subdev_csi1 = pos 0;
  v4l_video_csi0 = pos 0;
  v4l_video_csi1 = pos 0;
  cap = cap0;
  wdt_timeout_short = pos 0;
  wdt_timeout_long = pos 0;
  srt_en = false;
  videorate_en = false;
  queue_main_src_time_ms = pos 0;
  queue_enc_src_time_ms = pos 0;
  queue_rec_sink_time_ms = pos 0;
  queue_cap_src_time_ms = pos 0;
  queue_enc_src_frames = pos 0;
  queue_enc_budget_mb = pos 0;
  queue_enc_stat_sec = pos 0;
}

-- The defaults, with a rate of 30 for the recording of every channel.
abbrev settings : CmdArg
settings = record (init_arg (codes "/usr/bin/gstApp") blank) {
  fps = record {
    rec = pos 30 ∷ (pos 30 ∷ (pos 30 ∷ (pos 20 ∷ [])));
    rtsp = pos 15 ∷ (pos 15 ∷ (pos 15 ∷ (pos 15 ∷ [])));
    cap = pos 0 ∷ (pos 0 ∷ (pos 0 ∷ (pos 0 ∷ [])));
  };
  ch_enable = 5;
  ch_rotate = 33;
}

appname_of_settings : settings.appname ≡ codes "gstApp"
unfolding init_arg
appname_of_settings = refl

accepted : (check_arg settings 0 settings).code ≡ pos 0
unfolding check_arg init_arg mode_total_fps_limit total_fps check_cam zoom_center_sanitize
accepted = refl

no_length : (check_arg settings 0 (record settings { duration = pos 0 })).code ≡ negsuc 0
unfolding check_arg init_arg mode_total_fps_limit total_fps check_cam zoom_center_sanitize
no_length = refl

stall_dropped :
    (check_arg settings 0 (record settings { rtsp_test_stall_ch = pos 2 })).arg.rtsp_test_stall_ch
    ≡ negsuc 0
unfolding check_arg init_arg mode_total_fps_limit total_fps check_cam zoom_center_sanitize
stall_dropped = refl

turned : (derive settings).main_fps1 ≡ pos 30
unfolding derive init_arg
turned = refl

rescaled : enc_gop_rescale (pos 120) (pos 60) (pos 20) ≡ pos 40
unfolding enc_gop_rescale
rescaled = refl

check_arg-Usable_example : Usable (check_arg settings 0 settings).arg
check_arg-Usable_example = check_arg-Usable settings 0 settings

check_arg_idempotent_example :
    ((check_arg settings 7 (check_arg settings 0 settings).arg).arg
      ≡ (check_arg settings 0 settings).arg)
    × ((check_arg settings 7 (check_arg settings 0 settings).arg).cfg_errors ≡ 7)
    × ((check_arg settings 7 (check_arg settings 0 settings).arg).code
        ≡ (check_arg settings 0 settings).code)
check_arg_idempotent_example = check_arg_idempotent settings settings 0 7 settings

check_arg_iff_example : ((check_arg settings 0 settings).code ≡ pos 0) ↔ (
    (pos 1 ≤ℤ settings.duration)
    × ((limit : ℕ) × HasMode settings.width settings.height limit
        × (pos 0 ≤ℤ rates_of settings)
        × (rates_of settings ≤ℤ pos limit)))
unfolding init_arg total_fps
check_arg_iff_example =
    check_arg_iff settings 0 settings (omega arith, omega arith) (omega arith, omega arith)
      (omega arith, omega arith)

enc_gop_rescale_nearest_example :
    (r : ℕ) × (enc_gop_rescale (pos 120) (pos 60) (pos 20) ≡ pos r)
    × (1 ≤ r)
    × (r ≤ 300)
    × ((r ≡ 300) ⊎ (2 * (120 * 20) ≤ 2 * (r * 60) + 60))
    × ((r ≡ 1) ⊎ (2 * (r * 60) ≤ 2 * (120 * 20) + 60))
enc_gop_rescale_nearest_example =
    enc_gop_rescale_nearest 120 60 20 (omega arith) (omega arith) (omega arith) (omega arith)

-- The three sections, with the first channel on and turned.
abbrev document : Json
document = object (
    member (codes "gstApp")
      (object (
        member (codes "i2c2")
          (object (
            member (codes "ch0")
              (object (
                member (codes "enable") (boolean true) (member (codes "hflip") (boolean true) end)))
              end))
          end))
      (member (codes "ORD") (object end) (member (codes "VCM") (object end) end)))

abbrev disk : List ℕ → Option Json
disk name = some document

json_parser-root_example :
    ((doc : Json) × LeadsTo disk (some (codes "a")) (codes "gstApp") doc
      × ((json_parser disk (some (codes "a")) (codes "gstApp") settings none).root ≡ some doc)
      × ((json_parser disk (some (codes "a")) (codes "gstApp") settings none).arg.json_file
          ≡ some (codes "a")))
    ⊎ (((doc : Json) → ¬ LeadsTo disk (some (codes "a")) (codes "gstApp") doc)
        × ((json_parser disk (some (codes "a")) (codes "gstApp") settings none).root ≡ none)
        × ((json_parser disk (some (codes "a")) (codes "gstApp") settings none).arg
            ≡ named (some (codes "a")) settings)
        × ((json_parser disk (some (codes "a")) (codes "gstApp") settings none).code ≡ negsuc 0))
json_parser-root_example = json_parser-root disk (codes "gstApp") settings none (some (codes "a"))

abbrev parsed : Parsed
parsed = json_parser disk (some (codes "a")) (codes "gstApp") settings none

parsed_code : parsed.code ≡ pos 0
unfolding json_parser load_document init_arg json_get_bool cfg_get_bool load_cam close_pass load_csi
    load_cam_first json_get_int_array cfg_get_int_array
parsed_code = refl

parsed_masks : (parsed.arg.ch_enable ≡ 1) × (parsed.arg.ch_rotate ≡ 1)
unfolding json_parser load_document init_arg json_get_bool cfg_get_bool load_cam close_pass load_csi
    load_cam_first json_get_int_array cfg_get_int_array load_cam_rest
parsed_masks = (refl, refl)

four_channels : length settings.cam ≡ 4
unfolding init_arg
four_channels = refl

json_parser-flags_example : (derive parsed.arg).cam ≡ parsed.arg.cam
json_parser-flags_example =
    json_parser-flags disk (codes "gstApp") settings none (codes "a") four_channels parsed_code

derive-MainRate_example :
    MainRate settings.main_fps1
      (derive settings).main_fps1
      (pos 30)
      (pos 30)
      (pos 15)
      (pos 15)
      (pos 0)
      (pos 0)
    × MainRate settings.main_fps0
        (derive settings).main_fps0
        (pos 30)
        (pos 20)
        (pos 15)
        (pos 15)
        (pos 0)
        (pos 0)
derive-MainRate_example = derive-MainRate settings

abbrev answer : SysfsFile × ℕ → ℤ
answer w = pos 0

apply_camera_sysfs-Written_example :
    Written answer
      ((enable_path_01, 1)
        ∷ ((enable_path_23, 1) ∷ ((rotate_path_01, 1) ∷ ((rotate_path_23, 2) ∷ []))))
      (apply_camera_sysfs answer settings)
apply_camera_sysfs-Written_example =
    apply_camera_sysfs-Written answer settings (omega arith) (omega arith)

-- A request for three captures of the channels 0 to 3.
abbrev message : List ℕ
message =
    (50 ∷ (0 ∷ (0 ∷ (3 ∷ []))))
    ++ ((0 ∷ (0 ∷ (0 ∷ (0 ∷ (0 ∷ (0 ∷ []))))))
        ++ ((0 ∷ (3 ∷ (7 ∷ (0 ∷ (15 ∷ (0 ∷ (3 ∷ (0 ∷ [])))))))) ++ replicate 32 97))

abbrev reported : ℕ → ℕ
reported ch = 10

abbrev capturing : CmdArg
capturing = record (derive settings) { stream_en = record { rec = true; rtsp = true; cap = true } }

heard_code : (cfi_parser reported message 50 capturing).code ≡ pos 0
unfolding cfi_parser
heard_code = refl

heard_orders :
    (orders 2 (cfi_parser reported message 50 capturing).calls ≡ 1)
    × (orders 1 (cfi_parser reported message 50 capturing).calls ≡ 0)
unfolding cfi_parser derive init_arg
heard_orders = (refl, refl)

cfi_parser-Outcome_example : Outcome message 50 capturing (cfi_parser reported message 50 capturing)
cfi_parser-Outcome_example = cfi_parser-Outcome reported message 50 capturing

small_bytes : All (λ b. b < 256) message
small_bytes = ground arith

cfi_parser-Waits_example :
    All
      (Waits (header_of (take 50 message)).cmd_id reported (is_png capturing.cap.encoder))
      (cfi_parser reported message 50 capturing).calls
unfolding derive init_arg
cfi_parser-Waits_example = cfi_parser-Waits reported message 50 capturing small_bytes (omega arith)
