-- ===== src/Parser/Requests.antt =====
-- ParserClass::cfi_parser of parser.cpp: a binary request of a client for captures.
pub mod Laws
pub mod Timeout
use gst_app.Prelude.{
  ℕ, suc, ◌+◌, ◌*◌, ◌/◌, ◌%◌, ◌^◌, ◌-◌, ℤ, pos, negsuc, to_uint32, Bool, true, false, not, ◌&&◌,
  ◌||◌, Option, none, some, List, [], ◌∷◌, ◌++◌, codes, same_bytes, get_or, take, drop, ltb, ltb_ℤ,
  ◌==◌, ◌!=◌, if◌then◌else◌,
}
use gst_app.Parser.Args.{CamConfig, CaptureConfig, CmdArg}
use gst_app.Parser.Knobs.{to_int}
use gst_app.Parser.Options.{bit_at}

abbrev pub cfi_send_data_len : ℕ
cfi_send_data_len = 50

abbrev pub cfi_cap_req_cmd_id : ℕ
cfi_cap_req_cmd_id = 0x300

abbrev pub cts_cap_start_req_cmd_id : ℕ
cts_cap_start_req_cmd_id = 0x900

abbrev pub cts_cap_stop_req_cmd_id : ℕ
cts_cap_stop_req_cmd_id = 0x901

-- The fields of TCfiSendData that the code reads; `prefix` is all the 32 bytes.
pub record Header : Type 0 where
  pub len : ℕ
  pub cmd_id : ℕ
  pub tx_id : ℕ
  pub channel : ℕ
  pub cap_cnt : ℕ
  pub prefix : List ℕ

-- A guint16 of the packed structure: the processor is little-endian.
unfoldable pub le16 : List ℕ → ℕ → ℕ
le16 bytes at = get_or bytes at 0 + 256 * get_or bytes (at + 1) 0

unfoldable pub header_of : List ℕ → Header
unfolding le16
header_of bytes = record {
  len = le16 bytes 0;
  cmd_id = le16 bytes 10;
  tx_id = le16 bytes 12;
  channel = get_or bytes 14 0;
  cap_cnt = le16 bytes 16;
  prefix = take 32 (drop 18 bytes);
}

-- The calls on the capture pipelines: addCaptureRequest, stopCapture and setCompleteCallback. In
-- the data of a request, 0 is NULL.
pub record Request : Type 0 where
  pub channel : ℕ
  pub max_cnt : ℕ
  pub prefix : List ℕ
  pub user_data : ℕ
  pub mode : ℕ
  pub timeout_ms : ℤ

pub data Call : Type 0 where
  set_complete_callback : ℕ → Call
  add_capture_request : Request → Call
  stop_capture : ℕ → Call

abbrev pub is_png : Option (List ℕ) → Bool
is_png none = false
is_png (some encoder) = same_bytes encoder (codes "png")

-- The bound on the frames of a request for PNG files.
unfoldable pub capped : Bool → ℕ → ℕ
capped png cnt = if png && ltb 20 cnt then 20 else cnt

-- The rate that the timeout is computed from.
unfoldable pub usable_fps : ℕ → ℕ
usable_fps fps = if fps == 0 then 1 else fps

unfoldable pub usable_timeout : ℤ → ℤ
usable_timeout timeout = if ltb_ℤ (pos 100) timeout then timeout else pos 200

-- The longer time that PNG files are given.
unfoldable pub png_timeout : ℕ → ℕ → ℕ
png_timeout cnt timeout_msec =
    let scaled = 2000 + cnt * 2500 in
    let least = if ltb scaled 10000 then 10000 else scaled in
    if ltb timeout_msec least then least else timeout_msec

-- The timeout of a request, a guint32, passed as gint; `timeout` is cap.timeout.
unfoldable pub request_timeout : Bool → ℕ → ℕ → ℤ → ℤ
unfolding png_timeout to_int
request_timeout png cnt fps timeout =
    let timeout_msec = (cnt * 1000 / fps + cnt * 50 + to_uint32 timeout) % 2 ^ 32 in
    to_int (if png then png_timeout cnt timeout_msec else timeout_msec)

-- The request of a capture command; `timeout` is cap.timeout, already usable.
unfoldable pub capture_request : CaptureConfig → Header → ℕ → ℕ → ℕ → ℤ → Request
unfolding request_timeout
capture_request cap h cnt fps ch timeout = record {
  channel = ch;
  max_cnt = cnt;
  prefix = h.prefix;
  user_data = if cap.res_en then h.tx_id else 0;
  mode = 1;
  timeout_ms = request_timeout (is_png cap.encoder) cnt fps timeout;
}

unfoldable pub start_request : Header → ℕ → ℕ → Request
start_request h cnt ch = record {
  channel = ch;
  max_cnt = cnt;
  prefix = h.prefix;
  user_data = 0;
  mode = 2;
  timeout_ms = pos (2 ^ 31 - 1);
}

-- What a pass does for a channel that can be captured: cap.timeout after it, and its calls. `fps`
-- is what getFPS of the channel gives.
unfoldable pub serve : CaptureConfig → Header → ℕ → ℕ → ℕ → ℤ → ℤ × List Call
unfolding usable_fps usable_timeout capture_request start_request
serve cap h cnt fps ch timeout =
    let used = usable_timeout timeout in
    let request = capture_request cap h cnt (usable_fps fps) ch used in
    if h.cmd_id == cfi_cap_req_cmd_id
    then (used, set_complete_callback ch ∷ (add_capture_request request ∷ []))
    else if h.cmd_id == cts_cap_start_req_cmd_id
    then (timeout, add_capture_request (start_request h cnt ch) ∷ [])
    else (timeout, stop_capture ch ∷ [])

-- Whether the channel `i` is asked for and can be captured.
abbrev pub is_served : ℕ → Bool → ℕ → CamConfig → Bool
is_served channel stream i c = bit_at channel i && (c.enable && stream)

-- The loop, from channel `i` on. The copy of the mask whose bits the code clears is not read again.
unfoldable pub serve_all :
    CaptureConfig → Bool → (ℕ → ℕ) → Header → ℕ → ℕ → List CamConfig → ℤ → ℤ × List Call
unfolding serve
serve_all cap stream fps h cnt i [] timeout = (timeout, [])
serve_all cap stream fps h cnt i (c ∷ cams) timeout =
    let pass =
      if is_served h.channel stream i c then serve cap h cnt (fps i) i timeout else (timeout, []) in
    let rest = serve_all cap stream fps h cnt (i + 1) cams pass.0 in (rest.0, pass.1 ++ rest.1)

-- The result, the settings and the calls, which come after a sleep of cap.delay milliseconds.
pub record Heard : Type 0 where
  pub code : ℤ
  pub arg : CmdArg
  pub calls : List Call

unfoldable pub is_command : ℕ → Bool
is_command id =
    id == cfi_cap_req_cmd_id || (id == cts_cap_start_req_cmd_id || id == cts_cap_stop_req_cmd_id)

unfoldable pub obey : (ℕ → ℕ) → Header → CmdArg → Heard
unfolding capped serve_all
obey fps h arg =
    let cnt = capped (is_png arg.cap.encoder) h.cap_cnt in
    let r = serve_all arg.cap arg.stream_en.cap fps h cnt 0 arg.cam arg.cap.timeout in
    record {
      code = pos 0;
      arg = record arg { cap = record arg.cap { timeout = r.0 } };
      calls = r.1;
    }

-- `buffer` has at least `len` bytes, `arg` is cmdArg.
unfoldable pub cfi_parser : (ℕ → ℕ) → List ℕ → ℕ → CmdArg → Heard
unfolding header_of is_command obey
cfi_parser fps buffer len arg =
    let h = header_of (take len buffer) in
    if len != cfi_send_data_len || (h.len != len || not (is_command h.cmd_id))
    then record { code = negsuc 0; arg = arg; calls = [] }
    else obey fps h arg
