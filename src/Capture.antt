-- ===== src/Capture.antt =====
-- The queue of capture requests of captureBin.cpp: its data, and the calls that make requests.
pub mod Service
pub mod Answers
pub mod Expiry
pub mod Frames
pub mod Paths
mod Tests
use gst_app.Prelude.{
  ℕ, zero, suc, ◌+◌, ◌*◌, ◌-◌, ◌^◌, ℤ, pos, pos_part, is_pos, Bool, true, false, not, ◌&&◌, ◌||◌,
  Option, none, some, List, [], ◌∷◌, ◌++◌, length, ltb, ltb_ℤ, ◌==◌, if◌then◌else◌,
}

-- The fields of CaptureRequest.
pub record Request : Type 0 where
  pub max_cnt : ℤ
  pub file_path : List ℕ
  pub user_data : ℕ
  pub mode : ℕ
  pub capture_cnt : ℕ
  pub start_time : ℕ
  pub timeout_ms : ℤ
  pub response_sent : Bool
  pub timed_out : Bool
  pub dropped_cnt : ℕ

-- A frame to be written: the request it is for, and its capture_index.
pub record Task : Type 0 where
  pub request : ℕ
  pub index : ℕ

-- What the worker thread is doing: nothing, writing the file of a task, or about to answer the
-- request of a task whose frames are all written, with their number.
pub data Work : Type 0 where
  idle : Work
  writing : Task → Work
  counted : Task → ℕ → Work

-- A call of the completion callback: the request, its completed_count and its user_data.
pub record Answer : Type 0 where
  pub request : ℕ
  pub completed_count : ℕ
  pub user_data : ℕ

-- CaptureData. The shared pointers are places in `requests`, which keeps every request.
pub record CaptureData : Type 0 where
  pub requests : List Request
  pub request_queue : List ℕ
  pub current_request : Option ℕ
  pub capture_cnt_ : ℕ
  pub push_index : ℕ
  pub task_queue : List Task
  pub work : Work
  pub valve_drop : Bool
  pub complete_callback : Bool
  pub answers : List Answer

-- What stands where a place holds no request.
abbrev pub no_such_request : Request
no_such_request = record {
  max_cnt = pos 0;
  file_path = [];
  user_data = 0;
  mode = 0;
  capture_cnt = 0;
  start_time = 0;
  timeout_ms = pos 0;
  response_sent = true;
  timed_out = true;
  dropped_cnt = 0;
}

-- A change of one request.
unfoldable pub update : ℕ → (Request → Request) → List Request → List Request
update at change [] = []
update zero change (r ∷ rs) = change r ∷ rs
update (suc at) change (r ∷ rs) = r ∷ update at change rs

-- strchr(text, c) != NULL
unfoldable pub has : ℕ → List ℕ → Bool
has c [] = false
has c (x ∷ xs) = x == c || has c xs

-- strstr(text, "..") != NULL
unfoldable pub has_dots : List ℕ → Bool
has_dots [] = false
has_dots (x ∷ []) = false
has_dots (x ∷ (y ∷ rest)) = (x == b'.' && y == b'.') || has_dots (y ∷ rest)

unfoldable pub is_safe_prefix : List ℕ → Bool
unfolding has has_dots
is_safe_prefix prefix = not (has_dots prefix) && (not (has b'/' prefix) && not (has b'\\' prefix))

-- Where the files of a request go: build_capture_base_dir, cmdArg.ohtName, the date as text, and
-- the channel, which is one digit.
pub record Place : Type 0 where
  pub base_dir : List ℕ
  pub oht_name : List ℕ
  pub date_str : List ℕ
  pub ch : ℕ

unfoldable pub ch_suffix : ℕ → List ℕ
ch_suffix ch = b'-' ∷ (b'c' ∷ (b'h' ∷ ((b'0' + ch) ∷ [])))

unfoldable pub default_name : Place → List ℕ
unfolding ch_suffix
default_name place = place.oht_name ++ (b'_' ∷ (place.date_str ++ ch_suffix place.ch))

-- The last part of the path.
unfoldable pub file_name : Place → Option (List ℕ) → List ℕ
unfolding is_safe_prefix default_name ch_suffix
file_name place none = default_name place
file_name place (some prefix) =
    if is_safe_prefix prefix then prefix ++ ch_suffix place.ch else default_name place

unfoldable pub file_path : Place → Option (List ℕ) → List ℕ
unfolding file_name
file_path place prefix = place.base_dir ++ (b'/' ∷ file_name place prefix)

-- The timeout of a request, which PNG frames make longer.
unfoldable pub long_timeout : Bool → ℤ → ℤ → ℤ
long_timeout png max_cnt timeout_ms =
    let scaled = 2000 + pos_part max_cnt * 2500 in
    let required = if is_pos max_cnt && ltb 10000 scaled then scaled else 10000 in
    if png && ltb_ℤ timeout_ms (pos required)
    then (if ltb (2 ^ 31 - 1) required then pos (2 ^ 31 - 1) else pos required)
    else timeout_ms

-- CaptureBin::addCaptureRequest at the time `now`, up to the valve; `png` is whether the encoder
-- makes PNG files.
unfoldable pub add_capture_request :
    Bool → Place → ℕ → ℤ → Option (List ℕ) → ℕ → ℕ → ℤ → CaptureData → CaptureData
unfolding file_path long_timeout
add_capture_request png place now max_cnt prefix user_data mode timeout_ms q = record q {
  requests =
      q.requests
      ++ (record {
        max_cnt = max_cnt;
        file_path = file_path place prefix;
        user_data = user_data;
        mode = mode;
        capture_cnt = 0;
        start_time = now;
        timeout_ms = long_timeout png max_cnt timeout_ms;
        response_sent = false;
        timed_out = false;
        dropped_cnt = 0;
      }
          ∷ []);
  request_queue = q.request_queue ++ (length q.requests ∷ []);
  valve_drop = false;
}
