-- ===== src/Capture/Answers.antt =====
-- A request of captureBin.cpp is answered at most once.
use gst_app.Prelude.{
  ℕ, zero, suc, ◌+◌, ◌≤◌, pos, ◌≡◌, ◌≢◌, inl, inr, refl, ap, ◌∙◌, Bool, true, false, Bool-cases,
  Option, none, some, List, [], ◌∷◌, ◌++◌, length, get_or, ltb, ltb_ℤ, ◌==◌, if◌then◌else◌, arith,
  ==_iff,
}
use gst_app.Capture.{
  Request, Task, Work, idle, writing, counted, Answer, CaptureData, no_such_request, update,
  add_capture_request,
}
use gst_app.Capture.Service.{
  request_at, respond, next_request, take_next, push_frame, offer_frame, on_new_sample, is_expired,
  expire, expire_current, expire_pending, check_timeout, stop_capture, take_task, note_written,
  work_on, Event, request, register, sample, timer, worker, stop, step, run, fresh, tell, send,
}

-- How many answers a request has got.
abbrev pub answers_to : ℕ → List Answer → ℕ
answers_to id [] = 0
answers_to id (a ∷ as') = (if id == a.request then 1 else 0) + answers_to id as'

-- How many it may have got.
abbrev pub due : ℕ → List Request → ℕ
due id [] = 0
due zero (r ∷ rs) = if r.response_sent then 1 else 0
due (suc id) (r ∷ rs) = due id rs

-- No request has more answers than its flag says.
abbrev pub Once : CaptureData → Type 0
Once q = (id : ℕ) → answers_to id q.answers ≤ due id q.requests

answers_to-append :
    (id : ℕ) (xs ys : List Answer) → answers_to id (xs ++ ys) ≡ answers_to id xs + answers_to id ys
answers_to-append id [] ys = omega arith
answers_to-append id (x ∷ xs) ys = omega (arith, answers_to-append id xs ys)

-- A change that leaves the flag leaves what is due.
due-update :
    (at id : ℕ) (change : Request → Request) (rs : List Request)
    → ((r : Request) → (change r).response_sent ≡ r.response_sent)
    → due id (update at change rs) ≡ due id rs
unfolding update
due-update at id change [] same = refl
due-update zero zero change (r ∷ rs) same = ap (λ t. if t then 1 else 0) (same r)
due-update zero (suc id) change (r ∷ rs) same = refl
due-update (suc at) zero change (r ∷ rs) same = refl
due-update (suc at) (suc id) change (r ∷ rs) same = due-update at id change rs same

due-send :
    (at : ℕ) (rs : List Request)
    → (get_or rs at no_such_request).response_sent ≡ false
    → (due at rs ≡ 0) × (due at (update at send rs) ≡ 1)
unfolding update
due-send at [] h = absurd (ground arith)
due-send zero (r ∷ rs) h = rw h (refl, refl)
due-send (suc at) (r ∷ rs) h = due-send at rs h

due-send_other : (at id : ℕ) (rs : List Request) → id ≢ at → due id (update at send rs) ≡ due id rs
unfolding update
due-send_other at id [] other = refl
due-send_other zero zero (r ∷ rs) other = absurd (other refl)
due-send_other zero (suc id) (r ∷ rs) other = refl
due-send_other (suc at) zero (r ∷ rs) other = refl
due-send_other (suc at) (suc id) (r ∷ rs) other = due-send_other at id rs (λ e. other (ap suc e))

due-new :
    (id : ℕ) (rs : List Request) (r : Request)
    → r.response_sent ≡ false
    → due id (rs ++ (r ∷ [])) ≡ due id rs
due-new zero [] r h = rw h refl
due-new (suc id) [] r h = refl
due-new zero (s ∷ rs) r h = refl
due-new (suc id) (s ∷ rs) r h = due-new id rs r h

tell-answers_to :
    (callback : Bool) (a : Answer) (as' : List Answer) (id : ℕ)
    → answers_to id (tell callback a as') ≤ (if id == a.request then 1 else 0) + answers_to id as'
unfolding tell
tell-answers_to true a as' id = omega (arith, answers_to-append id as' (a ∷ []))
tell-answers_to false a as' id = omega arith

-- A first answer.
tell-Once :
    (q : CaptureData) (callback : Bool) (a : Answer)
    → Once q
    → (request_at q a.request).response_sent ≡ false
    → (id : ℕ)
    → answers_to id (tell callback a q.answers) ≤ due id (update a.request send q.requests)
tell-Once q callback a once unsent id =
    let told = tell-answers_to callback a q.answers id in
    let before = once id in
    let (none_due, one_due) = due-send a.request q.requests unsent in
    elim (Bool-cases (id == a.request)) [
      | inl same ↦
          let e : id ≡ a.request = (==_iff id a.request).0 same in
          let d1 : due id q.requests ≡ 0 = ap (λ t. due t q.requests) e ∙ none_due in
          let d2 : due id (update a.request send q.requests) ≡ 1 =
            ap (λ t. due t (update a.request send q.requests)) e ∙ one_due in
          ground (arith, told, before, d1, d2)
      | inr differ ↦
          let d : due id (update a.request send q.requests) ≡ due id q.requests =
            due-send_other a.request id q.requests
              (λ e. ground (arith, (==_iff id a.request).1 e)) in
          let plain = rw differ at told in omega (arith, plain, before, d)
    ]

respond-Once : (at count : ℕ) (q : CaptureData) → Once q → Once (respond at count q)
unfolding respond
respond-Once at count q once = elim (Bool-cases (request_at q at).response_sent) [
  | inl sent ↦ rw sent once
  | inr unsent ↦ rw unsent (tell-Once q q.complete_callback _ once unsent)
]

-- A change of requests that leaves the flags.
update-Once :
    (at : ℕ) (change : Request → Request) (q : CaptureData)
    → ((r : Request) → (change r).response_sent ≡ r.response_sent)
    → Once q
    → (id : ℕ) → answers_to id q.answers ≤ due id (update at change q.requests)
update-Once at change q same once id =
    omega (arith, once id, due-update at id change q.requests same)

expire-Once : (at count : ℕ) (q : CaptureData) → Once q → Once (expire at count q)
unfolding expire
expire-Once at count q once =
    respond-Once at count _ (update-Once at (λ r. record r { timed_out = true }) q (λ r. refl) once)

expire_current-Once :
    (now : ℕ) (current : Option ℕ) (q : CaptureData) → Once q → Once (expire_current now current q)
unfolding expire_current
expire_current-Once now none q once = once
expire_current-Once now (some at) q once = elim (Bool-cases (is_expired now (request_at q at))) [
  | inl late ↦ rw late (expire-Once at (request_at q at).capture_cnt q once)
  | inr early ↦ rw early once
]

expire_pending-Once :
    (now : ℕ) (pending : List ℕ) (q : CaptureData) → Once q → Once (expire_pending now pending q).0
unfolding expire_pending
expire_pending-Once now [] q once = once
expire_pending-Once now (at ∷ pending) q once =
    elim (Bool-cases (is_expired now (request_at q at))) [
      | inl late ↦ rw late (expire_pending-Once now pending _ (expire-Once at 0 q once))
      | inr early ↦ rw early (expire_pending-Once now pending q once)
    ]

check_timeout-Once : (now : ℕ) (q : CaptureData) → Once q → Once (check_timeout now q)
unfolding check_timeout
check_timeout-Once now q once =
    expire_pending-Once now q.request_queue _ (expire_current-Once now q.current_request q once)

next_request-Once : (pending : List ℕ) (q : CaptureData) → Once q → Once (next_request pending q)
unfolding next_request
next_request-Once [] q once = once
next_request-Once (at ∷ pending) q once = once

take_next-Once : (current : Option ℕ) (q : CaptureData) → Once q → Once (take_next current q)
unfolding take_next
take_next-Once none q once = next_request-Once q.request_queue q once
take_next-Once (some at) q once = once

push_frame-Once : (at : ℕ) (q : CaptureData) → Once q → Once (push_frame at q)
unfolding push_frame
push_frame-Once at q once =
    elim (Bool-cases (ltb_ℤ (pos (q.capture_cnt_ + 1)) (request_at q at).max_cnt)) [
      | inl more ↦ rw more once
      | inr last ↦ rw last once
    ]

offer_frame-Once :
    (limit : ℕ) (current : Option ℕ) (q : CaptureData) → Once q → Once (offer_frame limit current q)
unfolding offer_frame
offer_frame-Once limit none q once = once
offer_frame-Once limit (some at) q once = elim (Bool-cases (ltb limit (length q.task_queue))) [
  | inl full ↦
      rw full
        (update-Once at (λ r. record r { dropped_cnt = r.dropped_cnt + 1 }) q (λ r. refl) once)
  | inr room ↦ rw room (push_frame-Once at q once)
]

on_new_sample-Once : (limit : ℕ) (q : CaptureData) → Once q → Once (on_new_sample limit q)
unfolding on_new_sample
on_new_sample-Once limit q once =
    offer_frame-Once limit _ _ (take_next-Once q.current_request q once)

take_task-Once : (tasks : List Task) (q : CaptureData) → Once q → Once (take_task tasks q)
unfolding take_task
take_task-Once [] q once = once
take_task-Once (t ∷ tasks) q once = elim (Bool-cases (request_at q t.request).timed_out) [
  | inl late ↦ rw late once
  | inr good ↦ rw good once
]

note_written-Once :
    (success : Bool) (t : Task) (q : CaptureData) → Once q → Once (note_written success t q)
unfolding note_written
note_written-Once true t q once =
    update-Once t.request (λ s. record s { capture_cnt = s.capture_cnt + 1 }) q (λ r. refl) once
note_written-Once false t q once = once

work_on-Once :
    (success : Bool) (work : Work) (q : CaptureData) → Once q → Once (work_on success work q)
unfolding work_on
work_on-Once success idle q once = take_task-Once q.task_queue q once
work_on-Once success (writing t) q once = note_written-Once success t q once
work_on-Once success (counted t count) q once = respond-Once t.request count q once

step-Once :
    (png : Bool) (limit : ℕ) (e : Event) (q : CaptureData) → Once q → Once (step png limit e q)
unfolding step
step-Once png limit (request place now max_cnt prefix user_data mode timeout_ms) q once =
    unfold add_capture_request in λ id. omega (arith, once id, due-new id q.requests _ refl)
step-Once png limit register q once = once
step-Once png limit sample q once = on_new_sample-Once limit q once
step-Once png limit (timer now) q once = check_timeout-Once now q once
step-Once png limit (worker success) q once = work_on-Once success q.work q once
step-Once png limit stop q once = unfold stop_capture in once

run-Once :
    (png : Bool) (limit : ℕ) (events : List Event) (q : CaptureData)
    → Once q
    → Once (run png limit events q)
unfolding run
run-Once png limit [] q once = once
run-Once png limit (e ∷ events) q once = run-Once png limit events _ (step-Once png limit e q once)

due_small : (id : ℕ) (rs : List Request) → due id rs ≤ 1
due_small id [] = omega arith
due_small zero (r ∷ rs) = ground arith
due_small (suc id) (r ∷ rs) = due_small id rs

-- However new requests, frames, timeouts, the worker and stops follow each other, no request is
-- answered twice.
pub run-answers_to :
    (png : Bool) (limit : ℕ) (max_cnt : ℕ) (events : List Event) (id : ℕ)
    → answers_to id (run png limit events (fresh max_cnt)).answers ≤ 1
run-answers_to png limit max_cnt events id =
    let q = run png limit events (fresh max_cnt) in
    omega (
      arith,
      run-Once png limit events (fresh max_cnt) (λ k. omega arith) id,
      due_small id q.requests,
    )
