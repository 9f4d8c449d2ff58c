-- ===== src/Parser/Init.antt =====
-- ParserClass::init_arg of parser.cpp: the defaults.
use gst_app.Prelude.{ℕ, pos, true, false, List, [], ◌∷◌, none, some, map, ◌==◌, if◌then◌else◌}
use gst_app.Controls.{dz_default, dz_x_default, dz_y_default}
use gst_app.Parser.Consts.{
  default_record_bitrate, default_rtsp_bitrate, default_main_fps, default_gop_size, profile_unset,
  default_quant, default_qp_min, default_qp_max, default_duration, default_dbg_level,
  default_log_level, default_width, default_height, default_rtsp_factory_latency_ms,
  default_rtsp_appsink_max_buffers, default_rtsp_factory_queue_max_buffers,
  default_rtsp_bin_queue_max_time_ms, default_rtsp_appsrc_max_bytes, default_trace_sec,
  default_rtsp_test_stall_ch, default_rtsp_test_stall_after_sec,
  default_rtsp_test_stall_duration_sec, default_v4l_subdev_csi0, default_v4l_subdev_csi1,
  default_v4l_video_csi0, default_v4l_video_csi1, default_tcp_port, default_ipc_mid,
  default_play_delay, default_config_delay, default_capture_max_cnt, default_capture_timeout,
  default_capture_delay, default_capture_quality, default_capture_queue_size, cap_instant_off,
  default_split_sec, default_split_diff_msec, default_split_max_msec, default_split_audio_min_msec,
  default_wdt_timeout_long, default_wdt_timeout_short, default_queue_main_src_time_ms,
  default_queue_enc_src_time_ms, default_queue_rec_sink_time_ms, default_queue_cap_src_time_ms,
  default_queue_enc_src_frames, default_queue_enc_budget_mb, default_queue_enc_stat_sec,
  mode_normal, io_auto, default_ae_gain, default_lsc, default_iso, default_exp_time, default_enc,
  default_muxer, default_awb, default_rtsp_port, default_rtsp_id, default_mount_path,
  default_dot_path, default_cap_dir,
}
use gst_app.Parser.Args.{CamConfig, CaptureConfig, CmdArg}

-- strrchr(path, '/') + 1, or all of it; `name` is what follows the last '/' so far.
after_slash : List ℕ → List ℕ → List ℕ
after_slash name [] = name
after_slash name (c ∷ rest) = after_slash (if c == b'/' then rest else name) rest

-- CHARNEXT(path, '/')
unfoldable pub base_name : List ℕ → List ℕ
unfolding after_slash
base_name path = after_slash path path

-- The passes of the last loop; every field that is read anywhere is set.
unfoldable pub init_cam : CamConfig → CamConfig
init_cam c = record c {
  enable = false;
  hflip = false;
  vflip = false;
  bps = record { rec = default_record_bitrate; rtsp = default_rtsp_bitrate };
  gop = record { rec = default_gop_size; rtsp = default_gop_size };
  profile = record { rec = profile_unset; rtsp = profile_unset };
  quant = record { rec = default_quant; rtsp = default_quant };
  qp_min = record { rec = default_qp_min; rtsp = default_qp_min };
  qp_max = record { rec = default_qp_max; rtsp = default_qp_max };
  ae_on = true;
  ae_gain = default_ae_gain;
  awb = default_awb;
  iso = default_iso;
  lsc = default_lsc;
  exp_time = default_exp_time;
  dz_x = dz_x_default;
  dz_y = dz_y_default;
  led_flash_enable = false;
  led_flash_wiper = 63;
  led_flash_delay = 0;
}

init_cap : CaptureConfig → CaptureConfig
init_cap c = record c {
  path = default_cap_dir;
  max_cnt = default_capture_max_cnt;
  dir = none;
  encoder = none;
  res_en = true;
  delay = default_capture_delay;
  timeout = default_capture_timeout;
  padding = true;
  quality = default_capture_quality;
  queue_size = default_capture_queue_size;
  instant = cap_instant_off;
}

-- `arg` is what the object holds before the call: fps, the two stream switches of the capture and
-- the name of the file are left.
unfoldable pub init_arg : List ℕ → CmdArg → CmdArg
unfolding init_cam init_cap base_name
init_arg argv arg =
    let appname = base_name argv in
    record arg {
      appname = appname;
      ch_enable = 0;
      ch_rotate = 0;
      log_level = default_log_level;
      dbg_level = default_dbg_level;
      dbg_ts = false;
      dbg_cap_ts = false;
      dbg_rtsp_ts = false;
      mnt_dir = default_mount_path;
      duration = default_duration;
      rtsp_port = default_rtsp_port;
      rtsp_id = default_rtsp_id;
      main_fps0 = default_main_fps;
      main_fps1 = default_main_fps;
      oht_name = appname;
      width = default_width;
      height = default_height;
      io_mode = io_auto;
      level_mode = mode_normal;
      dot_dir = default_dot_path;
      play_delay = default_play_delay;
      config_delay = default_config_delay;
      fault = false;
      audio_en = false;
      input_en = false;
      overlay_en = false;
      split_diff_msec = default_split_diff_msec;
      split_max_msec = default_split_max_msec;
      split_audio_min_msec = default_split_audio_min_msec;
      enc = some default_enc;
      muxer = default_muxer;
      split_sec = default_split_sec;
      stream_en = record { rec = true; rtsp = true; cap = false };
      dual_enc = false;
      wdt_timeout_long = default_wdt_timeout_long;
      wdt_timeout_short = default_wdt_timeout_short;
      srt_en = false;
      videorate_en = true;
      rtsp_factory_latency_ms = default_rtsp_factory_latency_ms;
      rtsp_appsink_max_buffers = default_rtsp_appsink_max_buffers;
      rtsp_factory_queue_max_buffers = default_rtsp_factory_queue_max_buffers;
      rtsp_bin_queue_max_time_ms = default_rtsp_bin_queue_max_time_ms;
      rtsp_appsrc_max_bytes = default_rtsp_appsrc_max_bytes;
      rtsp_frame_id_sei = pos 0;
      v4l2_sync_trace_sec = default_trace_sec;
      v4l2_sync_log_frames = pos 0;
      channel_sync_trace_sec = default_trace_sec;
      rtsp_sync_trace_sec = default_trace_sec;
      rtsp_test_stall_ch = default_rtsp_test_stall_ch;
      rtsp_test_stall_after_sec = default_rtsp_test_stall_after_sec;
      rtsp_test_stall_duration_sec = default_rtsp_test_stall_duration_sec;
      queue_main_src_time_ms = default_queue_main_src_time_ms;
      queue_enc_src_time_ms = default_queue_enc_src_time_ms;
      queue_rec_sink_time_ms = default_queue_rec_sink_time_ms;
      queue_cap_src_time_ms = default_queue_cap_src_time_ms;
      queue_enc_src_frames = default_queue_enc_src_frames;
      queue_enc_budget_mb = default_queue_enc_budget_mb;
      queue_enc_stat_sec = default_queue_enc_stat_sec;
      v4l_subdev_csi0 = default_v4l_subdev_csi0;
      v4l_subdev_csi1 = default_v4l_subdev_csi1;
      v4l_video_csi0 = default_v4l_video_csi0;
      v4l_video_csi1 = default_v4l_video_csi1;
      cap = init_cap arg.cap;
      tcp_en = false;
      tcp_port = default_tcp_port;
      ipc_en = false;
      ipc_mid = default_ipc_mid;
      dz0 = dz_default;
      dz1 = dz_default;
      crop_enable0 = 0;
      crop_enable1 = 0;
      cam = map init_cam arg.cam;
    }
