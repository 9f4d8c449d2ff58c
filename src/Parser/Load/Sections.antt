-- ===== src/Parser/Load/Sections.antt =====
-- The sections of the runtime document that json_parser of parser.cpp reads, but for the cameras.
use gst_app.Prelude.{
  ℕ, ℤ, Bool, true, false, Option, none, some, List, [], ◌∷◌, ◌==◌, if◌then◌else◌, codes,
}
use gst_app.CfgJson.{Json}
use gst_app.Parser.Args.{Streams, CmdArg}
use gst_app.Parser.Getters.{
  as_members, as_text, get_member, json_object_get_int_optional, json_get_int, json_get_string,
  json_get_bool, json_object_get_bool_optional,
}

-- The settings and g_cfg_errors while a document is read.
pub record Loading : Type 0 where
  pub arg : CmdArg
  pub errors : ℕ

abbrev pub is_object : Option Json → Bool
is_object value = elim (as_members value) [ none ↦ false | some m ↦ true ]

-- The value itself if there is one, else the other: `a ? a : b` on pointers.
abbrev pub or_value : Option Json → Option Json → Option Json
or_value none other = other
or_value (some v) other = some v

-- The first settings of the section.
unfoldable pub load_base : Option Json → Loading → Loading
load_base hobj l =
    let arg = l.arg in
    let (oht_name, e1) = json_get_string hobj (codes "vhl_name") arg.oht_name l.errors in
    let (rtsp_id, e2) = json_get_string hobj (codes "id") arg.rtsp_id e1 in
    let (mnt_dir, e3) = json_get_string hobj (codes "tmp_path") arg.mnt_dir e2 in
    let (muxer, e4) = json_get_string hobj (codes "muxer") arg.muxer e3 in
    record {
      arg = record arg {
        oht_name = oht_name;
        rtsp_id = rtsp_id;
        mnt_dir = mnt_dir;
        width = json_get_int hobj (codes "cam_width") arg.width;
        height = json_get_int hobj (codes "cam_height") arg.height;
        duration = json_get_int hobj (codes "recording_time") arg.duration;
        log_level = json_get_int hobj (codes "log_level") arg.log_level;
        dbg_level = json_get_int hobj (codes "debug_level") arg.dbg_level;
        main_fps0 = json_get_int hobj (codes "fps") arg.main_fps0;
        main_fps1 = json_get_int hobj (codes "fps") arg.main_fps1;
        enc = elim (as_text (get_member hobj (codes "enc"))) [ none ↦ arg.enc | some t ↦ some t ];
        muxer = muxer;
      };
      errors = e4;
    }

-- An absolute directory is taken; any other value is ignored.
capture_dir : Option Json → Option (List ℕ) → Option (List ℕ)
capture_dir none dir = dir
capture_dir (some v) dir = elim (as_text (some v)) [
  | none ↦ dir
  | some [] ↦ dir
  | some (c ∷ rest) ↦ if c == b'/' then some (c ∷ rest) else dir
]

abbrev some_text : Option (List ℕ) → List ℕ
some_text none = []
some_text (some t) = t

-- json_get_string on a pointer that may be null.
optional_text : Option Json → List ℕ → Option (List ℕ) → ℕ → Option (List ℕ) × ℕ
optional_text obj name out errors =
    let (t, e) = json_get_string obj name (some_text out) errors in
    (elim (as_text (get_member obj name)) [ none ↦ out | some given ↦ some t ], e)

-- The section of the capture, read only where the capture is on.
unfoldable pub load_capture : Option Json → Loading → Loading
unfolding capture_dir optional_text
load_capture sobj l =
    let cap = l.arg.cap in
    let (encoder, e1) = optional_text sobj (codes "encoder") cap.encoder l.errors in
    let (record_en, e2) = json_get_bool sobj (codes "record") cap.record_en e1 in
    let (rtsp_en, e3) = json_get_bool sobj (codes "rtsp") cap.rtsp_en e2 in
    let (res_en, e4) = json_get_bool sobj (codes "response") cap.res_en e3 in
    record {
      arg = record l.arg {
        cap = record cap {
          delay = json_get_int sobj (codes "delay") cap.delay;
          timeout = json_get_int sobj (codes "timeout") cap.timeout;
          encoder = encoder;
          dir = capture_dir (get_member sobj (codes "path")) cap.dir;
          record_en = record_en;
          rtsp_en = rtsp_en;
          quality = json_get_int sobj (codes "quality") cap.quality;
          queue_size = json_get_int sobj (codes "queue_size") cap.queue_size;
          res_en = res_en;
          instant = json_get_int sobj (codes "instant") cap.instant;
        };
        stream_en = record { rec = record_en; rtsp = rtsp_en; cap = l.arg.stream_en.cap };
        ipc_en = true;
      };
      errors = e4;
    }

-- The switch of the capture, and its section.
unfoldable pub load_cap_section : Option Json → Loading → Loading
load_cap_section sobj l =
    let (enabled, e) = json_get_bool sobj (codes "enable") l.arg.stream_en.cap l.errors in
    let streams : Streams = record l.arg.stream_en { cap = enabled } in
    let switched : Loading = record { arg = record l.arg { stream_en = streams }; errors = e } in
    if enabled then load_capture sobj switched else switched

-- The optional settings of the RTSP server, the queues and the devices.
unfoldable pub load_tuning : Option Json → Option Json → Loading → Loading
load_tuning hobj sobj l =
    let arg = l.arg in
    let tune = or_value (get_member hobj (codes "rtsp_tune")) sobj in
    let queue = or_value (get_member hobj (codes "queue_tune")) hobj in
    let devices =
      or_value (get_member hobj (codes "v4l_map")) (get_member hobj (codes "device_map")) in
    let rtsp = λ (name : List ℕ) (out : ℤ). json_object_get_int_optional tune name out in
    let depth = λ (name : List ℕ) (out : ℤ). json_object_get_int_optional queue name out in
    let device = λ (name : List ℕ) (out : ℤ). json_object_get_int_optional devices name out in
    let (sei, e) =
      json_object_get_bool_optional tune (codes "frame_id_sei") arg.rtsp_frame_id_sei l.errors in
    record {
      arg = record arg {
        rtsp_factory_latency_ms =
            rtsp (codes "rtsp_factory_latency_ms") arg.rtsp_factory_latency_ms;
        rtsp_appsink_max_buffers =
            rtsp (codes "rtsp_appsink_max_buffers") arg.rtsp_appsink_max_buffers;
        rtsp_factory_queue_max_buffers =
            rtsp (codes "rtsp_factory_queue_max_buffers") arg.rtsp_factory_queue_max_buffers;
        rtsp_bin_queue_max_time_ms =
            rtsp (codes "rtsp_bin_queue_max_time_ms") arg.rtsp_bin_queue_max_time_ms;
        rtsp_appsrc_max_bytes = rtsp (codes "rtsp_appsrc_max_bytes") arg.rtsp_appsrc_max_bytes;
        rtsp_frame_id_sei = sei;
        queue_main_src_time_ms = depth (codes "main_src_time_ms") arg.queue_main_src_time_ms;
        queue_enc_src_time_ms = depth (codes "enc_src_time_ms") arg.queue_enc_src_time_ms;
        queue_rec_sink_time_ms = depth (codes "rec_sink_time_ms") arg.queue_rec_sink_time_ms;
        queue_cap_src_time_ms = depth (codes "cap_src_time_ms") arg.queue_cap_src_time_ms;
        queue_enc_src_frames = depth (codes "enc_src_frames") arg.queue_enc_src_frames;
        queue_enc_budget_mb = depth (codes "enc_budget_mb") arg.queue_enc_budget_mb;
        queue_enc_stat_sec = depth (codes "enc_stat_sec") arg.queue_enc_stat_sec;
        v4l_subdev_csi0 = device (codes "csi0_subdev") arg.v4l_subdev_csi0;
        v4l_subdev_csi1 = device (codes "csi1_subdev") arg.v4l_subdev_csi1;
        v4l_video_csi0 = device (codes "csi0_video") arg.v4l_video_csi0;
        v4l_video_csi1 = device (codes "csi1_video") arg.v4l_video_csi1;
      };
      errors = e;
    }
