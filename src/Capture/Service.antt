-- ===== src/Capture/Service.antt =====
-- How captureBin.cpp serves the capture requests: on_new_sample_to_file, checkTimeout, the worker
-- thread and stopCapture. Each step is one section under the lock of the queue, or one atomic
-- operation of the worker.
use gst_app.Prelude.{
  ℕ, ◌+◌, ◌-◌, ◌/◌, ℤ, pos, Bool, true, false, Option, none, some, List, [], ◌∷◌, ◌++◌, length,
  get_or, ltb, ltb_ℤ, if◌then◌else◌,
}
use gst_app.Capture.{
  Request, Task, Work, idle, writing, counted, Answer, CaptureData, no_such_request, update, Place,
  add_capture_request,
}

abbrev pub request_at : CaptureData → ℕ → Request
request_at q id = get_or q.requests id no_such_request

-- g_idle_add of the callback, if there is one.
unfoldable pub tell : Bool → Answer → List Answer → List Answer
tell complete_callback a answers = if complete_callback then answers ++ (a ∷ []) else answers

-- responseSent is set.
abbrev pub send : Request → Request
send r = record r { response_sent = true }

-- The compare-and-swap of responseSent, and the callback.
unfoldable pub respond : ℕ → ℕ → CaptureData → CaptureData
unfolding tell
respond id count q =
    let r = request_at q id in
    if r.response_sent then q else record q {
      requests = update id send q.requests;
      answers =
          tell q.complete_callback
            (record { request = id; completed_count = count; user_data = r.user_data }) q.answers;
    }

-- The request that a frame is for is taken from the queue if there is none.
unfoldable pub next_request : List ℕ → CaptureData → CaptureData
next_request [] q = q
next_request (id ∷ ids) q = record q {
  request_queue = ids;
  current_request = some id;
  capture_cnt_ = 0;
  push_index = 0;
}

unfoldable pub take_next : Option ℕ → CaptureData → CaptureData
unfolding next_request
take_next none q = next_request q.request_queue q
take_next (some id) q = q

unfoldable pub is_none : List ℕ → Bool
is_none [] = true
is_none (id ∷ ids) = false

-- A frame is pushed to the worker; the last one of a request releases it.
unfoldable pub push_frame : ℕ → CaptureData → CaptureData
unfolding is_none
push_frame id q =
    let new_pushed_cnt = q.capture_cnt_ + 1 in
    let pushed = record q {
      task_queue = q.task_queue ++ (record { request = id; index = q.push_index } ∷ []);
      push_index = q.push_index + 1;
      capture_cnt_ = new_pushed_cnt;
    } in
    if ltb_ℤ (pos new_pushed_cnt) (request_at q id).max_cnt then pushed else record pushed {
      current_request = none;
      valve_drop = if is_none q.request_queue then true else q.valve_drop;
    }

unfoldable pub offer_frame : ℕ → Option ℕ → CaptureData → CaptureData
unfolding push_frame
offer_frame queue_limit none q = record q { valve_drop = true }
offer_frame queue_limit (some id) q =
    if ltb queue_limit (length q.task_queue)
    then record q {
      requests = update id (λ r. record r { dropped_cnt = r.dropped_cnt + 1 }) q.requests;
    }
    else push_frame id q

-- on_new_sample_to_file, once a sample is pulled.
unfoldable pub on_new_sample : ℕ → CaptureData → CaptureData
unfolding take_next offer_frame
on_new_sample queue_limit q =
    let ready = take_next q.current_request q in offer_frame queue_limit ready.current_request ready

-- elapsed_ms > timeoutMs; the clock does not go back.
unfoldable pub is_expired : ℕ → Request → Bool
is_expired now r = ltb_ℤ r.timeout_ms (pos ((now - r.start_time) / 1000))

unfoldable pub expire : ℕ → ℕ → CaptureData → CaptureData
unfolding respond
expire id count q =
    respond id count
      (record q { requests = update id (λ r. record r { timed_out = true }) q.requests })

unfoldable pub expire_current : ℕ → Option ℕ → CaptureData → CaptureData
unfolding expire is_none is_expired
expire_current now none q = q
expire_current now (some id) q =
    let after = expire id (request_at q id).capture_cnt q in
    if is_expired now (request_at q id)
    then record after {
      current_request = none;
      valve_drop = if is_none q.request_queue then true else after.valve_drop;
    }
    else q

-- The loop over the pending requests; the second result is what stays in the queue.
unfoldable pub expire_pending : ℕ → List ℕ → CaptureData → CaptureData × List ℕ
unfolding expire is_expired
expire_pending now [] q = (q, [])
expire_pending now (id ∷ ids) q =
    let gone = expire_pending now ids (expire id 0 q) in
    let kept = expire_pending now ids q in
    if is_expired now (request_at q id) then gone else (kept.0, id ∷ kept.1)

unfoldable pub check_timeout : ℕ → CaptureData → CaptureData
unfolding expire_current expire_pending
check_timeout now q =
    let r = expire_pending now q.request_queue (expire_current now q.current_request q) in
    record r.0 { request_queue = r.1 }

unfoldable pub stop_capture : CaptureData → CaptureData
stop_capture q = record q { current_request = none; request_queue = []; valve_drop = true }

-- The worker takes a task, and drops it if its request has timed out.
unfoldable pub take_task : List Task → CaptureData → CaptureData
take_task [] q = q
take_task (t ∷ tasks) q =
    if (request_at q t.request).timed_out
    then record q { task_queue = tasks }
    else record q { task_queue = tasks; work = writing t }

-- The file is written, or not.
unfoldable pub note_written : Bool → Task → CaptureData → CaptureData
note_written success t q =
    let r = request_at q t.request in
    let new_count = r.capture_cnt + 1 in
    if success
    then record q {
      requests = update t.request (λ s. record s { capture_cnt = s.capture_cnt + 1 }) q.requests;
      work = if ltb_ℤ (pos new_count) r.max_cnt then idle else counted t new_count;
    }
    else record q { work = idle }

-- The next step of the worker; `success` is whether a file is written as a whole.
unfoldable pub work_on : Bool → Work → CaptureData → CaptureData
unfolding take_task note_written respond
work_on success idle q = take_task q.task_queue q
work_on success (writing t) q = note_written success t q
work_on success (counted t count) q = record (respond t.request count q) { work = idle }

-- What can happen.
pub data Event : Type 0 where
  request : Place → ℕ → ℤ → Option (List ℕ) → ℕ → ℕ → ℤ → Event
  register : Event
  sample : Event
  timer : ℕ → Event
  worker : Bool → Event
  stop : Event

-- `png` and `queue_limit` do not change.
unfoldable pub step : Bool → ℕ → Event → CaptureData → CaptureData
unfolding add_capture_request on_new_sample check_timeout work_on stop_capture
step png queue_limit (request place now max_cnt prefix user_data mode timeout_ms) q =
    add_capture_request png place now max_cnt prefix user_data mode timeout_ms q
step png queue_limit register q = record q { complete_callback = true }
step png queue_limit sample q = on_new_sample queue_limit q
step png queue_limit (timer now) q = check_timeout now q
step png queue_limit (worker success) q = work_on success q.work q
step png queue_limit stop q = stop_capture q

unfoldable pub run : Bool → ℕ → List Event → CaptureData → CaptureData
unfolding step
run png queue_limit [] q = q
run png queue_limit (e ∷ events) q = run png queue_limit events (step png queue_limit e q)

-- A channel that is made and set up, where `max_cnt` is cap.maxCnt.
abbrev pub fresh : ℕ → CaptureData
fresh max_cnt = record {
  requests = [];
  request_queue = [];
  current_request = none;
  capture_cnt_ = max_cnt;
  push_index = 0;
  task_queue = [];
  work = idle;
  valve_drop = true;
  complete_callback = false;
  answers = [];
}
