-- ===== src/Parser/Args.antt =====
-- The structures of util.h that hold the settings of a run.
use gst_app.Prelude.{ℕ, ℤ, Bool, List, Option}

-- A pair indexed by STREAM_REC and STREAM_RTSP.
pub record Both : Type 0 where
  pub rec : ℤ
  pub rtsp : ℤ

-- The settings of one camera.
pub record CamConfig : Type 0 where
  pub enable : Bool
  pub vflip : Bool
  pub hflip : Bool
  pub bps : Both
  pub gop : Both
  pub profile : Both
  pub quant : Both
  pub qp_min : Both
  pub qp_max : Both
  pub ae_on : Bool
  pub ae_gain : ℕ
  pub lsc : ℕ
  pub iso : ℕ
  pub exp_time : ℕ
  pub awb : List ℕ
  pub dz_x : ℕ
  pub dz_y : ℕ
  pub led_flash_enable : Bool
  pub led_flash_wiper : ℕ
  pub led_flash_delay : ℕ

-- The settings of the capture.
pub record CaptureConfig : Type 0 where
  pub res_en : Bool
  pub rtsp_en : Bool
  pub record_en : Bool
  pub max_cnt : ℤ
  pub padding : Bool
  pub delay : ℤ
  pub timeout : ℤ
  pub quality : ℤ
  pub queue_size : ℤ
  pub dir : Option (List ℕ)
  pub path : List ℕ
  pub encoder : Option (List ℕ)
  pub instant : ℤ

-- fps[MAX_MODE][MAX_CHANNEL], a list of four for each stream.
pub record Fps : Type 0 where
  pub rec : List ℤ
  pub rtsp : List ℤ
  pub cap : List ℤ

-- stream_en[MAX_MODE]
pub record Streams : Type 0 where
  pub rec : Bool
  pub rtsp : Bool
  pub cap : Bool

-- The settings of a run. A gboolean that the code only tests is a truth value; the two that
-- check_arg compares with 0 and 1 are numbers. An array over the two CSIs is two fields.
pub record CmdArg : Type 0 where
  pub level_mode : ℤ
  pub io_mode : ℤ
  pub cam : List CamConfig
  pub fps : Fps
  pub stream_en : Streams
  pub log_level : ℤ
  pub dbg_level : ℤ
  pub dbg_ts : Bool
  pub dbg_cap_ts : Bool
  pub dbg_rtsp_ts : Bool
  pub dot_dir : List ℕ
  pub mnt_dir : List ℕ
  pub oht_name : List ℕ
  pub json_file : Option (List ℕ)
  pub ch_enable : ℕ
  pub ch_rotate : ℕ
  pub main_fps0 : ℤ
  pub main_fps1 : ℤ
  pub dz0 : ℕ
  pub dz1 : ℕ
  pub crop_enable0 : ℕ
  pub crop_enable1 : ℕ
  pub play_delay : ℤ
  pub config_delay : ℤ
  pub fault : Bool
  pub duration : ℤ
  pub tcp_en : Bool
  pub tcp_port : ℤ
  pub audio_en : Bool
  pub appname : List ℕ
  pub split_diff_msec : ℤ
  pub split_max_msec : ℤ
  pub split_audio_min_msec : ℤ
  pub split_sec : ℤ
  pub input_en : Bool
  pub rtsp_port : List ℕ
  pub rtsp_id : List ℕ
  pub overlay_en : Bool
  pub width : ℤ
  pub height : ℤ
  pub ipc_en : Bool
  pub ipc_mid : ℤ
  pub enc : Option (List ℕ)
  pub muxer : List ℕ
  pub dual_enc : Bool
  pub rtsp_factory_latency_ms : ℤ
  pub rtsp_appsink_max_buffers : ℤ
  pub rtsp_factory_queue_max_buffers : ℤ
  pub rtsp_bin_queue_max_time_ms : ℤ
  pub rtsp_appsrc_max_bytes : ℤ
  pub rtsp_frame_id_sei : ℤ
  pub v4l2_sync_trace_sec : ℤ
  pub v4l2_sync_log_frames : ℤ
  pub channel_sync_trace_sec : ℤ
  pub rtsp_sync_trace_sec : ℤ
  pub rtsp_test_stall_ch : ℤ
  pub rtsp_test_stall_after_sec : ℤ
  pub rtsp_test_stall_duration_sec : ℤ
  pub v4l_subdev_csi0 : ℤ
  pub v4l_subdev_csi1 : ℤ
  pub v4l_video_csi0 : ℤ
  pub v4l_video_csi1 : ℤ
  pub cap : CaptureConfig
  pub wdt_timeout_short : ℤ
  pub wdt_timeout_long : ℤ
  pub srt_en : Bool
  pub videorate_en : Bool
  pub queue_main_src_time_ms : ℤ
  pub queue_enc_src_time_ms : ℤ
  pub queue_rec_sink_time_ms : ℤ
  pub queue_cap_src_time_ms : ℤ
  pub queue_enc_src_frames : ℤ
  pub queue_enc_budget_mb : ℤ
  pub queue_enc_stat_sec : ℤ
