-- ===== src/Capture/Frames.antt =====
-- captureBin.cpp takes no more frames for a request than it asks for.
use gst_app.Prelude.{
  ℕ, zero, suc, ◌+◌, ◌≤◌, ◌<◌, pos, pos_part, ◌≡◌, inl, inr, refl, Bool, true, false, Bool-cases,
  Option, none, some, List, [], ◌∷◌, ◌++◌, length, get_or, All, All-append, ltb, ltb_ℤ,
  if◌then◌else◌, arith,
}
use gst_app.Capture.{
  Request, Task, Work, idle, writing, counted, CaptureData, no_such_request, update,
  add_capture_request,
}
use gst_app.Capture.Service.{
  request_at, send, respond, next_request, take_next, push_frame, offer_frame, on_new_sample,
  is_expired, expire, expire_current, expire_pending, check_timeout, stop_capture, take_task,
  note_written, work_on, Event, request, register, sample, timer, worker, stop, step, run, fresh,
}

-- The frames of a request: max_cnt, and at least one.
abbrev pub frames_of : Request → ℕ
frames_of r = if ltb 1 (pos_part r.max_cnt) then pos_part r.max_cnt else 1

abbrev pub frames : List Request → ℕ → ℕ
frames rs id = frames_of (get_or rs id no_such_request)

abbrev Grows : List Request → List Request → Type 0
Grows rs rs' = (id : ℕ) → frames rs id ≤ frames rs' id

update-Grows :
    (at : ℕ) (change : Request → Request) (rs : List Request)
    → ((r : Request) → (change r).max_cnt ≡ r.max_cnt)
    → Grows rs (update at change rs)
unfolding update
update-Grows at change [] same id = omega arith
update-Grows zero change (r ∷ rs) same zero = rw (same r) (omega arith)
update-Grows zero change (r ∷ rs) same (suc id) = omega arith
update-Grows (suc at) change (r ∷ rs) same zero = omega arith
update-Grows (suc at) change (r ∷ rs) same (suc id) = update-Grows at change rs same id

append-Grows : (rs : List Request) (r : Request) → Grows rs (rs ++ (r ∷ []))
append-Grows [] r zero = ground arith
append-Grows [] r (suc id) = omega arith
append-Grows (s ∷ rs) r zero = omega arith
append-Grows (s ∷ rs) r (suc id) = append-Grows rs r id

-- The counters of the request that frames are for.
abbrev InCourse : List Request → Option ℕ → ℕ → ℕ → Type 0
InCourse rs none pushed index = Unit
InCourse rs (some id) pushed index = (pushed ≡ index) × (index < frames rs id)

abbrev pub Asked : List Request → List Task → Type 0
Asked rs tasks = All (λ t. t.index < frames rs t.request) tasks

record Paced (q : CaptureData) : Type 0 where
  course : InCourse q.requests q.current_request q.capture_cnt_ q.push_index
  asked : Asked q.requests q.task_queue

later-InCourse :
    (rs rs' : List Request) (current : Option ℕ) (pushed index : ℕ)
    → Grows rs rs'
    → InCourse rs current pushed index
    → InCourse rs' current pushed index
later-InCourse rs rs' none pushed index more h = tt
later-InCourse rs rs' (some id) pushed index more h = (h.0, omega (arith, h.1, more id))

later-Asked :
    (rs rs' : List Request) (tasks : List Task) → Grows rs rs' → Asked rs tasks → Asked rs' tasks
later-Asked rs rs' [] more h = tt
later-Asked rs rs' (t ∷ tasks) more h =
    (omega (arith, h.0, more t.request), later-Asked rs rs' tasks more h.1)

-- A change of the requests that keeps what they ask for.
requests-Paced :
    (q : CaptureData) (rs : List Request)
    → Grows q.requests rs
    → Paced q
    → Paced (record q { requests = rs })
requests-Paced q rs more h = record {
  course = later-InCourse q.requests rs q.current_request q.capture_cnt_ q.push_index more h.course;
  asked = later-Asked q.requests rs q.task_queue more h.asked;
}

respond-Paced : (at count : ℕ) (q : CaptureData) → Paced q → Paced (respond at count q)
unfolding respond
respond-Paced at count q h = elim (Bool-cases (request_at q at).response_sent) [
  | inl sent ↦ rw sent h
  | inr unsent ↦ rw unsent (
      let h' = requests-Paced q _ (update-Grows at send q.requests (λ r. refl)) h in
      record { course = h'.course; asked = h'.asked })
]

expire-Paced : (at count : ℕ) (q : CaptureData) → Paced q → Paced (expire at count q)
unfolding expire
expire-Paced at count q h = respond-Paced at count _ (
    requests-Paced q _ (update-Grows at (λ r. record r { timed_out = true }) q.requests (λ r. refl))
      h)

expire_current-Paced :
    (now : ℕ) (current : Option ℕ) (q : CaptureData)
    → Paced q
    → Paced (expire_current now current q)
unfolding expire_current
expire_current-Paced now none q h = h
expire_current-Paced now (some at) q h = elim (Bool-cases (is_expired now (request_at q at))) [
  | inl late ↦
      rw late
        (record { course = tt; asked = (expire-Paced at (request_at q at).capture_cnt q h).asked })
  | inr early ↦ rw early h
]

expire_pending-Paced :
    (now : ℕ) (pending : List ℕ) (q : CaptureData)
    → Paced q
    → Paced (expire_pending now pending q).0
unfolding expire_pending
expire_pending-Paced now [] q h = h
expire_pending-Paced now (at ∷ pending) q h = elim (Bool-cases (is_expired now (request_at q at))) [
  | inl late ↦ rw late (expire_pending-Paced now pending _ (expire-Paced at 0 q h))
  | inr early ↦ rw early (expire_pending-Paced now pending q h)
]

check_timeout-Paced : (now : ℕ) (q : CaptureData) → Paced q → Paced (check_timeout now q)
unfolding check_timeout
check_timeout-Paced now q h =
    let h' =
      expire_pending-Paced now q.request_queue _ (expire_current-Paced now q.current_request q h) in
    record { course = h'.course; asked = h'.asked }

next_request-Paced : (pending : List ℕ) (q : CaptureData) → Paced q → Paced (next_request pending q)
unfolding next_request
next_request-Paced [] q h = h
next_request-Paced (at ∷ pending) q h = record { course = (refl, ground arith); asked = h.asked }

take_next-Paced : (current : Option ℕ) (q : CaptureData) → Paced q → Paced (take_next current q)
unfolding take_next
take_next-Paced none q h = next_request-Paced q.request_queue q h
take_next-Paced (some at) q h = h

push_frame-Paced :
    (at : ℕ) (q : CaptureData)
    → InCourse q.requests (some at) q.capture_cnt_ q.push_index
    → q.current_request ≡ some at
    → Paced q
    → Paced (push_frame at q)
unfolding push_frame
push_frame-Paced at q now_at same h =
    let asked' : Asked q.requests
        (q.task_queue ++ (record { request = at; index = q.push_index } ∷ [])) =
      All-append (λ (t : Task). t.index < frames q.requests t.request) q.task_queue _ h.asked
        (now_at.1, tt) in
    elim (Bool-cases (ltb_ℤ (pos (q.capture_cnt_ + 1)) (request_at q at).max_cnt)) [
      | inl more ↦
          rw more (record { course = rw same (ground (arith, now_at, more)); asked = asked' })
      | inr last ↦ rw last (record { course = tt; asked = asked' })
    ]

offer_frame-Paced :
    (limit : ℕ) (current : Option ℕ) (q : CaptureData)
    → q.current_request ≡ current
    → Paced q
    → InCourse q.requests current q.capture_cnt_ q.push_index
    → Paced (offer_frame limit current q)
unfolding offer_frame
offer_frame-Paced limit none q same h now_at = record { course = h.course; asked = h.asked }
offer_frame-Paced limit (some at) q same h now_at =
    elim (Bool-cases (ltb limit (length q.task_queue))) [
      | inl full ↦ rw full (
          requests-Paced q _
            (update-Grows at (λ r. record r { dropped_cnt = r.dropped_cnt + 1 }) q.requests
              (λ r. refl))
            h)
      | inr room ↦ rw room (push_frame-Paced at q now_at same h)
    ]

on_new_sample-Paced : (limit : ℕ) (q : CaptureData) → Paced q → Paced (on_new_sample limit q)
unfolding on_new_sample
on_new_sample-Paced limit q h =
    let h' = take_next-Paced q.current_request q h in offer_frame-Paced limit _ _ refl h' h'.course

take_task-Paced :
    (tasks : List Task) (q : CaptureData)
    → Asked q.requests tasks
    → Paced q
    → Paced (take_task tasks q)
unfolding take_task
take_task-Paced [] q asked h = h
take_task-Paced (t ∷ tasks) q asked h = elim (Bool-cases (request_at q t.request).timed_out) [
  | inl late ↦ rw late (record { course = h.course; asked = asked.1 })
  | inr good ↦ rw good (record { course = h.course; asked = asked.1 })
]

note_written-Paced :
    (success : Bool) (t : Task) (q : CaptureData) → Paced q → Paced (note_written success t q)
unfolding note_written
note_written-Paced true t q h =
    let h' =
      requests-Paced q _
        (update-Grows t.request (λ s. record s { capture_cnt = s.capture_cnt + 1 }) q.requests
          (λ r. refl))
        h in
    record { course = h'.course; asked = h'.asked }
note_written-Paced false t q h = record { course = h.course; asked = h.asked }

work_on-Paced :
    (success : Bool) (work : Work) (q : CaptureData) → Paced q → Paced (work_on success work q)
unfolding work_on
work_on-Paced success idle q h = take_task-Paced q.task_queue q h.asked h
work_on-Paced success (writing t) q h = note_written-Paced success t q h
work_on-Paced success (counted t count) q h =
    let h' = respond-Paced t.request count q h in record { course = h'.course; asked = h'.asked }

step-Paced :
    (png : Bool) (limit : ℕ) (e : Event) (q : CaptureData) → Paced q → Paced (step png limit e q)
unfolding step
step-Paced png limit (request place now max_cnt prefix user_data mode timeout_ms) q h =
    unfold add_capture_request in
    let h' = requests-Paced q _ (append-Grows q.requests _) h in
    record { course = h'.course; asked = h'.asked }
step-Paced png limit register q h = record { course = h.course; asked = h.asked }
step-Paced png limit sample q h = on_new_sample-Paced limit q h
step-Paced png limit (timer now) q h = check_timeout-Paced now q h
step-Paced png limit (worker success) q h = work_on-Paced success q.work q h
step-Paced png limit stop q h = unfold stop_capture in record { course = tt; asked = h.asked }

run-Paced :
    (png : Bool) (limit : ℕ) (events : List Event) (q : CaptureData)
    → Paced q
    → Paced (run png limit events q)
unfolding run
run-Paced png limit [] q h = h
run-Paced png limit (e ∷ events) q h = run-Paced png limit events _ (step-Paced png limit e q h)

-- However the events follow each other, every frame that waits for the worker has a number below
-- the frames that its request asks for (one, where it asks for none).
pub run-Asked :
    (png : Bool) (limit max_cnt : ℕ) (events : List Event)
    → Asked
        (run png limit events (fresh max_cnt)).requests
        (run png limit events (fresh max_cnt)).task_queue
run-Asked png limit max_cnt events =
    (run-Paced png limit events (fresh max_cnt) (record { course = tt; asked = tt })).asked
