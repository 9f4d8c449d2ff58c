-- ===== src/Parser/Requests/Laws.antt =====
-- Which channels cfi_parser of parser.cpp serves.
use gst_app.Prelude.{
  ℕ, suc, ◌+◌, ◌<◌, ℤ, pos, negsuc, ◌≡◌, ◌⊎◌, inl, inr, refl, Bool, true, false, not, ◌&&◌, ◌||◌,
  Bool-cases, List, [], ◌∷◌, ◌++◌, take, ◌==◌, ◌!=◌, if◌then◌else◌, arith, zero, ◌≢◌, ◌↔◌, ◌∙◌,
}
use gst_app.Parser.Args.{CamConfig, CaptureConfig, CmdArg}
use gst_app.Parser.Options.{bit_at}
use gst_app.Parser.Requests.{
  Header, header_of, Call, set_complete_callback, add_capture_request, stop_capture, serve,
  serve_all, is_served, is_command, obey, Heard, cfi_parser, capture_request, start_request,
  cfi_cap_req_cmd_id, cts_cap_start_req_cmd_id, cts_cap_stop_req_cmd_id, cfi_send_data_len,
}

-- Whether a call orders something from the channel `ch`.
abbrev is_order : ℕ → Call → Bool
is_order ch (set_complete_callback to) = false
is_order ch (add_capture_request r) = ch == r.channel
is_order ch (stop_capture to) = ch == to

-- How many of the calls order something from a channel.
abbrev pub orders : ℕ → List Call → ℕ
orders ch [] = 0
orders ch (c ∷ calls) = (if is_order ch c then 1 else 0) + orders ch calls

orders-append : (ch : ℕ) (xs ys : List Call) → orders ch (xs ++ ys) ≡ orders ch xs + orders ch ys
orders-append ch [] ys = omega arith
orders-append ch (x ∷ xs) ys = omega (arith, orders-append ch xs ys)

abbrev pub enabled_at : List CamConfig → ℕ → Bool
enabled_at [] k = false
enabled_at (c ∷ cams) zero = c.enable
enabled_at (c ∷ cams) (suc k) = enabled_at cams k

-- A property of the calls of a pass, by the commands.
pub serve_cases :
    (Goal : ℤ × List Call → Type 0) (t u : Bool) (a b c : ℤ × List Call)
    → Goal a
    → Goal b
    → Goal c
    → Goal (if t then a else if u then b else c)
serve_cases Goal true u a b c x y z = x
serve_cases Goal false true a b c x y z = y
serve_cases Goal false false a b c x y z = z

one_order :
    (cap : CaptureConfig) (h : Header) (cnt fps i : ℕ) (t : ℤ)
    → orders i (serve cap h cnt fps i t).1 ≡ 1
unfolding serve
one_order cap h cnt fps i t =
    serve_cases (λ r. orders i r.1 ≡ 1) (h.cmd_id == cfi_cap_req_cmd_id)
      (h.cmd_id == cts_cap_start_req_cmd_id) _ _ _ (unfold capture_request in ground arith)
      (unfold start_request in ground arith) (ground arith)

no_order :
    (cap : CaptureConfig) (h : Header) (cnt fps i j : ℕ) (t : ℤ)
    → j ≢ i
    → orders j (serve cap h cnt fps i t).1 ≡ 0
unfolding serve
no_order cap h cnt fps i j t other =
    serve_cases (λ r. orders j r.1 ≡ 0) (h.cmd_id == cfi_cap_req_cmd_id)
      (h.cmd_id == cts_cap_start_req_cmd_id) _ _ _ (unfold capture_request in ground arith)
      (unfold start_request in ground arith) (ground arith)

-- A channel before the first of the loop gets no order.
no_order_before :
    (cap : CaptureConfig) (stream : Bool) (fps : ℕ → ℕ) (h : Header) (cnt i j : ℕ)
    (cams : List CamConfig) (t : ℤ)
    → j < i
    → orders j (serve_all cap stream fps h cnt i cams t).1 ≡ 0
unfolding serve_all
no_order_before cap stream fps h cnt i j [] t before = refl
no_order_before cap stream fps h cnt i j (c ∷ cams) t before =
    let s : ℤ × List Call = serve cap h cnt (fps i) i t in
    let after : ℤ → ℤ × List Call = λ u. serve_all cap stream fps h cnt (i + 1) cams u in
    let later = λ (u : ℤ). no_order_before cap stream fps h cnt (i + 1) j cams u (omega arith) in
    elim (Bool-cases (is_served h.channel stream i c)) [
      | inl on ↦ rw on (
          omega (
            arith,
            orders-append j s.1 (after s.0).1,
            no_order cap h cnt (fps i) i j t (λ e. omega (arith, e, before)),
            later s.0,
          ))
      | inr off ↦ rw off (later t)
    ]

-- Calls without an order for the channel do not count.
skipped : (ch : ℕ) (xs ys : List Call) → orders ch xs ≡ 0 → orders ch (xs ++ ys) ≡ orders ch ys
skipped ch xs ys none_here = omega (arith, orders-append ch xs ys)

-- The channel `k` places after the first of the loop.
order_at :
    (cap : CaptureConfig) (stream : Bool) (fps : ℕ → ℕ) (h : Header) (cnt i j k : ℕ)
    (cams : List CamConfig) (t : ℤ)
    → j ≡ i + k
    → orders j (serve_all cap stream fps h cnt i cams t).1
      ≡ (if bit_at h.channel j && (enabled_at cams k && stream) then 1 else 0)
unfolding serve_all
order_at cap stream fps h cnt i j k [] t e = ground arith
order_at cap stream fps h cnt i j zero (c ∷ cams) t e =
    let s : ℤ × List Call = serve cap h cnt (fps i) i t in
    let after : ℤ → ℤ × List Call = λ u. serve_all cap stream fps h cnt (i + 1) cams u in
    let later = λ (u : ℤ). no_order_before cap stream fps h cnt (i + 1) j cams u (omega arith) in
    let same : j ≡ i = omega arith in
    elim (Bool-cases (is_served h.channel stream i c)) [
      | inl on ↦
          rw (same, on)
            (omega (
              arith,
              orders-append i s.1 (after s.0).1,
              one_order cap h cnt (fps i) i t,
              no_order_before cap stream fps h cnt (i + 1) i cams s.0 (omega arith),
            ))
      | inr off ↦
          rw (same, off) (no_order_before cap stream fps h cnt (i + 1) i cams t (omega arith))
    ]
order_at cap stream fps h cnt i j (suc k) (c ∷ cams) t e =
    let s : ℤ × List Call = serve cap h cnt (fps i) i t in
    let after : ℤ → ℤ × List Call = λ u. serve_all cap stream fps h cnt (i + 1) cams u in
    let later = λ (u : ℤ). order_at cap stream fps h cnt (i + 1) j k cams u (omega arith) in
    let other : j ≢ i = λ q. omega (arith, q, e) in
    elim (Bool-cases (is_served h.channel stream i c)) [
      | inl on ↦
          rw on (skipped j s.1 (after s.0).1 (no_order cap h cnt (fps i) i j t other) ∙ later s.0)
      | inr off ↦ rw off (later t)
    ]

-- Whether a message is obeyed.
abbrev pub IsObeyed : List ℕ → ℕ → Type 0
IsObeyed buffer len =
    let h = header_of (take len buffer) in
    (len ≡ 50)
    × (h.len ≡ 50)
    × ((h.cmd_id ≡ cfi_cap_req_cmd_id)
        ⊎ ((h.cmd_id ≡ cts_cap_start_req_cmd_id) ⊎ (h.cmd_id ≡ cts_cap_stop_req_cmd_id)))

-- What a message makes the program do.
pub data Outcome (buffer : List ℕ) (len : ℕ) (arg : CmdArg) (r : Heard) : Type 0 where
  -- It is refused, and changes nothing.
  refused :
      ¬ IsObeyed buffer len
      → r ≡ record { code = negsuc 0; arg = arg; calls = [] }
      → Outcome buffer len arg r
  -- Every channel gets one order if its bit is set, its camera is on and there are captures, and
  -- no order otherwise.
  obeyed :
      IsObeyed buffer len
      → r.code ≡ pos 0
      → ((ch : ℕ)
          → orders ch r.calls ≡ (
              if bit_at (header_of (take len buffer)).channel ch
                && (enabled_at arg.cam ch && arg.stream_en.cap)
              then 1
              else 0))
      → Outcome buffer len arg r

obey-orders :
    (fps : ℕ → ℕ) (h : Header) (arg : CmdArg) (ch : ℕ)
    → orders ch (obey fps h arg).calls
      ≡ (if bit_at h.channel ch && (enabled_at arg.cam ch && arg.stream_en.cap) then 1 else 0)
unfolding obey
obey-orders fps h arg ch =
    order_at arg.cap arg.stream_en.cap fps h _ 0 ch ch arg.cam arg.cap.timeout (omega arith)

is_command_iff :
    (id : ℕ)
    → (is_command id ≡ true) ↔ (
        (id ≡ cfi_cap_req_cmd_id)
        ⊎ ((id ≡ cts_cap_start_req_cmd_id) ⊎ (id ≡ cts_cap_stop_req_cmd_id)))
unfolding is_command
is_command_iff id = (λ e. ground arith, λ e. ground arith)

-- A message of another length, with another length in its header, or with another command is
-- refused and changes nothing; any other message gives every channel one order, or none if its bit
-- is not set, its camera is off or there are no captures.
pub cfi_parser-Outcome :
    (fps : ℕ → ℕ) (buffer : List ℕ) (len : ℕ) (arg : CmdArg)
    → Outcome buffer len arg (cfi_parser fps buffer len arg)
unfolding cfi_parser
cfi_parser-Outcome fps buffer len arg =
    let h = header_of (take len buffer) in
    elim (Bool-cases (len != cfi_send_data_len || (h.len != len || not (is_command h.cmd_id)))) [
      | inl bad ↦ rw bad (refused (λ good. ground (arith, is_command_iff h.cmd_id)) refl)
      | inr good ↦
          rw good (obeyed (ground (arith, is_command_iff h.cmd_id)) refl (obey-orders fps h arg))
    ]
