-- ===== src/Parser/Consts.antt =====
-- The constants of parser.h.
use gst_app.Prelude.{ℕ, ℤ, pos, negsuc, List, codes}

abbrev pub default_record_bitrate : ℤ
default_record_bitrate = pos 4096

abbrev pub default_rtsp_bitrate : ℤ
default_rtsp_bitrate = pos 1024

abbrev pub default_main_fps : ℤ
default_main_fps = pos 15

abbrev pub default_record_fps : ℤ
default_record_fps = pos 15

abbrev pub gop_size_follow_fps : ℤ
gop_size_follow_fps = pos 0

abbrev pub default_gop_size : ℤ
default_gop_size = pos 0

abbrev pub min_gop_size : ℤ
min_gop_size = pos 0

abbrev pub max_gop_size : ℤ
max_gop_size = pos 300

abbrev pub profile_unset : ℤ
profile_unset = negsuc 0

abbrev pub default_h264_profile : ℤ
default_h264_profile = pos 9

abbrev pub min_h264_profile : ℤ
min_h264_profile = pos 9

abbrev pub max_h264_profile : ℤ
max_h264_profile = pos 12

abbrev pub default_h265_profile : ℤ
default_h265_profile = pos 0

abbrev pub min_h265_profile : ℤ
min_h265_profile = pos 0

abbrev pub max_h265_profile : ℤ
max_h265_profile = pos 2

abbrev pub default_quant : ℤ
default_quant = negsuc 0

abbrev pub min_quant : ℤ
min_quant = negsuc 0

abbrev pub max_quant : ℤ
max_quant = pos 51

abbrev pub default_qp_min : ℤ
default_qp_min = pos 0

abbrev pub default_qp_max : ℤ
default_qp_max = pos 0

abbrev pub min_qp : ℤ
min_qp = pos 0

abbrev pub max_qp : ℤ
max_qp = pos 51

abbrev pub default_duration : ℤ
default_duration = pos 1

abbrev pub default_dbg_level : ℤ
default_dbg_level = pos 4

abbrev pub default_log_level : ℤ
default_log_level = pos 5

abbrev pub default_width : ℤ
default_width = pos 1920

abbrev pub default_height : ℤ
default_height = pos 1080

abbrev pub default_rtsp_factory_latency_ms : ℤ
default_rtsp_factory_latency_ms = pos 200

abbrev pub default_rtsp_appsink_max_buffers : ℤ
default_rtsp_appsink_max_buffers = pos 2

abbrev pub default_rtsp_factory_queue_max_buffers : ℤ
default_rtsp_factory_queue_max_buffers = pos 2

abbrev pub default_rtsp_bin_queue_max_time_ms : ℤ
default_rtsp_bin_queue_max_time_ms = pos 200

abbrev pub default_rtsp_appsrc_max_bytes : ℤ
default_rtsp_appsrc_max_bytes = pos 196608

abbrev pub default_trace_sec : ℤ
default_trace_sec = pos 0

abbrev pub sync_trace_max_sec : ℤ
sync_trace_max_sec = pos 3600

abbrev pub default_rtsp_test_stall_ch : ℤ
default_rtsp_test_stall_ch = negsuc 0

abbrev pub default_rtsp_test_stall_after_sec : ℤ
default_rtsp_test_stall_after_sec = pos 0

abbrev pub default_rtsp_test_stall_duration_sec : ℤ
default_rtsp_test_stall_duration_sec = pos 0

abbrev pub rtsp_test_stall_max_sec : ℤ
rtsp_test_stall_max_sec = pos 3600

abbrev pub default_v4l_subdev_csi0 : ℤ
default_v4l_subdev_csi0 = pos 2

abbrev pub default_v4l_subdev_csi1 : ℤ
default_v4l_subdev_csi1 = pos 3

abbrev pub default_v4l_video_csi0 : ℤ
default_v4l_video_csi0 = pos 4

abbrev pub default_v4l_video_csi1 : ℤ
default_v4l_video_csi1 = pos 3

abbrev pub default_tcp_port : ℤ
default_tcp_port = pos 8555

abbrev pub default_ipc_mid : ℤ
default_ipc_mid = pos 0x65

abbrev pub default_play_delay : ℤ
default_play_delay = pos 0

abbrev pub default_config_delay : ℤ
default_config_delay = pos 5

abbrev pub default_capture_max_cnt : ℤ
default_capture_max_cnt = pos 1

abbrev pub default_capture_timeout : ℤ
default_capture_timeout = pos 200

abbrev pub default_capture_delay : ℤ
default_capture_delay = pos 0

abbrev pub default_capture_quality : ℤ
default_capture_quality = pos 85

abbrev pub default_capture_queue_size : ℤ
default_capture_queue_size = pos 30

abbrev pub cap_instant_off : ℤ
cap_instant_off = pos 0

abbrev pub cap_instant_copy : ℤ
cap_instant_copy = pos 2

abbrev pub default_split_sec : ℤ
default_split_sec = pos 0

abbrev pub max_split_sec : ℤ
max_split_sec = pos 59

abbrev pub default_split_diff_msec : ℤ
default_split_diff_msec = pos 200

abbrev pub default_split_max_msec : ℤ
default_split_max_msec = pos 5000

abbrev pub default_split_audio_min_msec : ℤ
default_split_audio_min_msec = pos 59000

abbrev pub default_wdt_timeout_long : ℤ
default_wdt_timeout_long = pos 300000

abbrev pub default_wdt_timeout_short : ℤ
default_wdt_timeout_short = pos 300000

abbrev pub default_queue_main_src_time_ms : ℤ
default_queue_main_src_time_ms = pos 100

abbrev pub default_queue_enc_src_time_ms : ℤ
default_queue_enc_src_time_ms = pos 100

abbrev pub default_queue_rec_sink_time_ms : ℤ
default_queue_rec_sink_time_ms = pos 300

abbrev pub default_queue_cap_src_time_ms : ℤ
default_queue_cap_src_time_ms = pos 500

abbrev pub default_queue_enc_src_frames : ℤ
default_queue_enc_src_frames = pos 3

abbrev pub default_queue_enc_budget_mb : ℤ
default_queue_enc_budget_mb = pos 0

abbrev pub default_queue_enc_stat_sec : ℤ
default_queue_enc_stat_sec = pos 0

abbrev pub mode_normal : ℤ
mode_normal = pos 0

abbrev pub mode_test : ℤ
mode_test = pos 1

abbrev pub io_auto : ℤ
io_auto = pos 0

abbrev pub default_ae_gain : ℕ
default_ae_gain = 0x100

abbrev pub default_lsc : ℕ
default_lsc = 0x3fff

abbrev pub default_iso : ℕ
default_iso = 100

abbrev pub default_exp_time : ℕ
default_exp_time = 10000

abbrev pub max_channel : ℕ
max_channel = 4

abbrev pub enc_h264 : List ℕ
enc_h264 = codes "h264"

abbrev pub enc_h265 : List ℕ
enc_h265 = codes "h265"

abbrev pub default_enc : List ℕ
default_enc = codes "h264"

abbrev pub default_muxer : List ℕ
default_muxer = codes "mp4"

abbrev pub default_awb : List ℕ
default_awb = codes "auto"

abbrev pub default_rtsp_port : List ℕ
default_rtsp_port = codes "8554"

abbrev pub default_rtsp_id : List ℕ
default_rtsp_id = codes "user"

abbrev pub default_mount_path : List ℕ
default_mount_path = codes "/mnt/sd_cam"

abbrev pub default_dot_path : List ℕ
default_dot_path = codes "/tmp"

abbrev pub default_cap_dir : List ℕ
default_cap_dir = codes "capture"
