-- ===== src/Parser/Requests/Timeout.antt =====
-- How long the requests of cfi_parser of parser.cpp may take.
use gst_app.Parser.Knobs.Rescale.{to_int_small}
use native.Mathlib.Nat.{div-le_self, lt-div-mul-add, mul-le-mul_right}
use gst_app.Prelude.{
  ℕ, zero, suc, ◌+◌, ◌*◌, ◌/◌, ◌%◌, ◌^◌, ◌-◌, ◌≤◌, ◌<◌, ℤ, pos, negsuc, ◌≤ℤ◌, ◌≡◌, ◌⊎◌, inl, inr,
  refl, sym, Bool, true, false, not, ◌||◌, Bool-cases, List, [], ◌∷◌, All, All-append, get_or, take,
  ltb, ◌==◌, ◌!=◌, ==_iff, arith, subst, if◌then◌else◌,
}
use gst_app.Parser.Args.{CamConfig, CaptureConfig, CmdArg}
use gst_app.Parser.Knobs.{to_int}
use gst_app.Parser.Requests.{
  Header, header_of, Call, set_complete_callback, add_capture_request, stop_capture, is_png, capped,
  usable_fps, usable_timeout, png_timeout, request_timeout, capture_request, start_request, serve,
  serve_all, is_served, is_command, obey, cfi_parser, cfi_cap_req_cmd_id, cts_cap_start_req_cmd_id,
  le16, cfi_send_data_len,
}

-- A timeout that is an int, later than the frames at that rate, with 50 ms more for every frame,
-- and for PNG files no less than ten seconds and 2.5 seconds for every frame.
pub record LongEnough (png : Bool) (cnt fps : ℕ) (timeout : ℤ) : Type 0 where
  pub ms : ℕ
  pub is_ms : timeout ≡ pos ms
  pub fits : ms < 2 ^ 31
  pub frames : cnt * 1000 < ms * fps
  pub spare : cnt * 50 + 100 < ms
  pub png_spare : (png ≡ false) ⊎ ((10000 ≤ ms) × (cnt * 2500 < ms) × (cnt ≤ 20))

png_timeout_lem :
    (cnt ms : ℕ)
    → cnt ≤ 20
    → ms < 2 ^ 31
    → (png_timeout cnt ms < 2 ^ 31)
      × (ms ≤ png_timeout cnt ms)
      × (10000 ≤ png_timeout cnt ms)
      × (cnt * 2500 < png_timeout cnt ms)
unfolding png_timeout
png_timeout_lem cnt ms few small = ground arith

usable_timeout_lem :
    (timeout : ℤ)
    → timeout ≤ℤ pos (2 ^ 30)
    → (used : ℕ) × (usable_timeout timeout ≡ pos used) × (101 ≤ used) × (used ≤ 2 ^ 30)
unfolding usable_timeout
usable_timeout_lem (pos n) low = elim (Bool-cases (ltb 100 n)) [
  | inl more ↦ (n, ground arith, ground arith, omega arith)
  | inr less ↦ (200, ground arith, omega arith, omega arith)
]
usable_timeout_lem (negsuc n) low = (200, ground arith, omega arith, omega arith)

long_enough :
    (png : Bool) (cnt fps q ms : ℕ)
    → cnt * 1000 < q * fps + fps
    → q + cnt * 50 + 101 ≤ ms
    → ms < 2 ^ 31
    → (png ≡ false) ⊎ ((10000 ≤ ms) × (cnt * 2500 < ms) × (cnt ≤ 20))
    → LongEnough png cnt fps (to_int ms)
long_enough png cnt fps q ms near more fits for_png =
    let most : suc q * fps ≤ ms * fps = mul-le-mul_right fps (omega arith) in
    record {
      ms = ms;
      is_ms = to_int_small ms fits;
      fits = fits;
      frames = omega arith;
      spare = omega arith;
      png_spare = for_png;
    }

-- The sum does not wrap.
sum_fits :
    (q cnt used : ℕ)
    → q ≤ cnt * 1000
    → cnt < 65536
    → used ≤ 2 ^ 30
    → ((q + cnt * 50 + used % 2 ^ 32) % 2 ^ 32 ≡ q + cnt * 50 + used)
      × (q + cnt * 50 + used < 2 ^ 31)
sum_fits q cnt used below small high = (omega arith, omega arith)

request_timeout-LongEnough :
    (png : Bool) (cnt fps used : ℕ)
    → cnt < 65536
    → (png ≡ true → cnt ≤ 20)
    → 0 < fps
    → 101 ≤ used
    → used ≤ 2 ^ 30
    → LongEnough png cnt fps (request_timeout png cnt fps (pos used))
unfolding request_timeout
request_timeout-LongEnough false cnt fps used small few rate low high =
    let q : ℕ = cnt * 1000 / fps in
    let near : cnt * 1000 < q * fps + fps = lt-div-mul-add {a = cnt * 1000} rate in
    let (exact, fits) = sum_fits q cnt used (div-le_self (cnt * 1000) fps) small high in
    rw exact (long_enough false cnt fps q (q + cnt * 50 + used) near (omega arith) fits (inl refl))
request_timeout-LongEnough true cnt fps used small few rate low high =
    let q : ℕ = cnt * 1000 / fps in
    let near : cnt * 1000 < q * fps + fps = lt-div-mul-add {a = cnt * 1000} rate in
    let (exact, fits) = sum_fits q cnt used (div-le_self (cnt * 1000) fps) small high in
    let (top, over, ten, each) = png_timeout_lem cnt (q + cnt * 50 + used) (few refl) fits in
    rw exact (
      long_enough true cnt fps q (png_timeout cnt (q + cnt * 50 + used)) near (omega arith) top
        (inr (ten, each, few refl)))

-- A request of the capture command waits long enough; one of the start command has no limit. No
-- other command makes a request.
abbrev pub Waits : ℕ → (ℕ → ℕ) → Bool → Call → Type 0
Waits cmd fps png (set_complete_callback to) = Unit
Waits cmd fps png (stop_capture to) = Unit
Waits cmd fps png (add_capture_request r) =
    ((cmd ≡ cts_cap_start_req_cmd_id) × (r.mode ≡ 2) × (r.timeout_ms ≡ pos (2 ^ 31 - 1)))
    ⊎ ((cmd ≡ cfi_cap_req_cmd_id)
        × (r.mode ≡ 1)
        × LongEnough png r.max_cnt (usable_fps (fps r.channel)) r.timeout_ms)

-- A command, with what each of its tests has found.
by_command :
    (Goal : ℤ × List Call → Type 0) (t u : Bool) (a b c : ℤ × List Call)
    → (t ≡ true → Goal a)
    → (u ≡ true → Goal b)
    → Goal c
    → Goal (if t then a else if u then b else c)
by_command Goal true u a b c x y z = x refl
by_command Goal false true a b c x y z = y refl
by_command Goal false false a b c x y z = z

fps_used : (fps : ℕ) → 0 < usable_fps fps
unfolding usable_fps
fps_used fps = ground arith

capture_request-Waits :
    (cap : CaptureConfig) (h : Header) (cnt : ℕ) (fps : ℕ → ℕ) (i : ℕ) (t : ℤ)
    → cnt < 65536
    → (is_png cap.encoder ≡ true → cnt ≤ 20)
    → t ≤ℤ pos (2 ^ 30)
    → h.cmd_id ≡ cfi_cap_req_cmd_id
    → Waits h.cmd_id fps
        (is_png cap.encoder)
        (add_capture_request (capture_request cap h cnt (usable_fps (fps i)) i (usable_timeout t)))
unfolding capture_request
capture_request-Waits cap h cnt fps i t small few low asked =
    let (used, same, more, less) = usable_timeout_lem t low in
    let png : Bool = is_png cap.encoder in
    let rate : ℕ = usable_fps (fps i) in
    inr (
      asked,
      refl,
      subst (λ u. LongEnough png cnt rate (request_timeout png cnt rate u)) (sym same)
          (request_timeout-LongEnough png cnt rate used small few (fps_used (fps i)) more less),
    )

serve-Waits :
    (cap : CaptureConfig) (h : Header) (cnt : ℕ) (fps : ℕ → ℕ) (i : ℕ) (t : ℤ)
    → cnt < 65536
    → (is_png cap.encoder ≡ true → cnt ≤ 20)
    → t ≤ℤ pos (2 ^ 30)
    → ((serve cap h cnt (fps i) i t).0 ≤ℤ pos (2 ^ 30))
      × All (Waits h.cmd_id fps (is_png cap.encoder)) (serve cap h cnt (fps i) i t).1
unfolding serve
serve-Waits cap h cnt fps i t small few low =
    let (used, same, more, less) = usable_timeout_lem t low in
    by_command (λ r. (r.0 ≤ℤ pos (2 ^ 30)) × All (Waits h.cmd_id fps (is_png cap.encoder)) r.1)
      (h.cmd_id == cfi_cap_req_cmd_id) (h.cmd_id == cts_cap_start_req_cmd_id) _ _ _
      (λ asked. (
        subst (λ u. u ≤ℤ pos (2 ^ 30)) (sym same) (omega arith),
        (
          tt,
          (
            capture_request-Waits cap h cnt fps i t small few low
                ((==_iff h.cmd_id cfi_cap_req_cmd_id).0 asked),
            tt,
          ),
        ),
      ))
      (λ started. (
        low,
        (
          unfold start_request in
              inl ((==_iff h.cmd_id cts_cap_start_req_cmd_id).0 started, refl, refl),
          tt,
        ),
      ))
      (low, (tt, tt))

serve_all-Waits :
    (cap : CaptureConfig) (stream : Bool) (fps : ℕ → ℕ) (h : Header) (cnt i : ℕ)
    (cams : List CamConfig) (t : ℤ)
    → cnt < 65536
    → (is_png cap.encoder ≡ true → cnt ≤ 20)
    → t ≤ℤ pos (2 ^ 30)
    → All (Waits h.cmd_id fps (is_png cap.encoder)) (serve_all cap stream fps h cnt i cams t).1
unfolding serve_all
serve_all-Waits cap stream fps h cnt i [] t small few low = tt
serve_all-Waits cap stream fps h cnt i (c ∷ cams) t small few low =
    let served = serve-Waits cap h cnt fps i t small few low in
    let later = λ (u : ℤ) (fit : u ≤ℤ pos (2 ^ 30)).
      serve_all-Waits cap stream fps h cnt (i + 1) cams u small few fit in
    elim (Bool-cases (is_served h.channel stream i c)) [
      | inl on ↦ rw on (All-append _ _ _ served.1 (later _ served.0))
      | inr off ↦ rw off (later t low)
    ]

capped_few : (png : Bool) (cnt : ℕ) → png ≡ true → capped png cnt ≤ 20
unfolding capped
capped_few true cnt e = ground arith
capped_few false cnt e = absurd (ground arith)

capped_small : (png : Bool) (cnt : ℕ) → cnt < 65536 → capped png cnt < 65536
unfolding capped
capped_small png cnt small = ground arith

byte_at : (bytes : List ℕ) (n at : ℕ) → All (λ b. b < 256) bytes → get_or (take n bytes) at 0 < 256
byte_at bytes zero at good = omega arith
byte_at [] (suc n) at good = omega arith
byte_at (b ∷ bytes) (suc n) zero good = good.0
byte_at (b ∷ bytes) (suc n) (suc at) good = byte_at bytes n at good.1

cap_cnt_small :
    (buffer : List ℕ) (len : ℕ)
    → All (λ b. b < 256) buffer
    → (header_of (take len buffer)).cap_cnt < 65536
unfolding header_of le16
cap_cnt_small buffer len bytes =
    omega (arith, byte_at buffer len 16 bytes, byte_at buffer len 17 bytes)

-- Unless cap.timeout is more than 2^30 ms, every request that a message of bytes makes is one of the
-- capture command or of the start command. One of the capture command waits until its frames can
-- have come, at the rate that the pipeline reports (or 1): the time does not wrap,
-- has 50 ms more for every frame and 100 ms in all, and for PNG files no less than ten seconds and
-- 2.5 seconds for each of at most twenty frames. One of the start command is marked as continuous
-- and has the largest int for its time.
pub cfi_parser-Waits :
    (fps : ℕ → ℕ) (buffer : List ℕ) (len : ℕ) (arg : CmdArg)
    → All (λ b. b < 256) buffer
    → arg.cap.timeout ≤ℤ pos (2 ^ 30)
    → All
        (Waits (header_of (take len buffer)).cmd_id fps (is_png arg.cap.encoder))
        (cfi_parser fps buffer len arg).calls
unfolding cfi_parser obey
cfi_parser-Waits fps buffer len arg bytes low =
    let h : Header = header_of (take len buffer) in
    let png : Bool = is_png arg.cap.encoder in
    let small = capped_small png h.cap_cnt (cap_cnt_small buffer len bytes) in
    let few = capped_few png h.cap_cnt in
    elim (Bool-cases (len != cfi_send_data_len || (h.len != len || not (is_command h.cmd_id)))) [
      | inl bad ↦ rw bad tt
      | inr good ↦ rw good (
          serve_all-Waits arg.cap arg.stream_en.cap fps h (capped png h.cap_cnt) 0 arg.cam
            arg.cap.timeout small few low)
    ]
