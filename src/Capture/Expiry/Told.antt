-- ===== src/Capture/Expiry/Told.antt =====
-- Whom checkTimeout of captureBin.cpp tells that a request has timed out.
use gst_app.Prelude.{
  ℕ, zero, suc, ◌≡◌, ◌⊎◌, inl, inr, refl, sym, ap, ◌∙◌, Bool, true, false, Bool-cases, Option, none,
  some, List, [], ◌∷◌, ◌++◌, get_or, All, pos, ◌-◌, ◌/◌, ◌≤ℤ◌, arith,
}
use gst_app.Capture.{Request, Answer, CaptureData, no_such_request, update}
use gst_app.Capture.Service.{
  request_at, send, tell, respond, is_expired, expire, expire_current, expire_pending,
  check_timeout,
}
use gst_app.Capture.Expiry.{get_or-update, is_sent, All-change, CurrentServed, check_timeout_sends}

abbrev pub Among : Answer → List Answer → Type 0
Among a [] = ⊥
Among a (b ∷ bs) = (a ≡ b) ⊎ Among a bs

-- The callback was called with the request `id` and the data of its client.
abbrev pub Told : ℕ → CaptureData → CaptureData → Type 0
Told id q after =
    (a : Answer) × Among a after.answers
    × (a.request ≡ id)
    × (a.user_data ≡ (request_at q id).user_data)

Among-append : (a : Answer) (xs ys : List Answer) → Among a xs → Among a (xs ++ ys)
Among-append a [] ys h = absurd h
Among-append a (x ∷ xs) ys h = elim h [ inl e ↦ inl e | inr k ↦ inr (Among-append a xs ys k) ]

last-Among : (a : Answer) (xs : List Answer) → Among a (xs ++ (a ∷ []))
last-Among a [] = inl refl
last-Among a (x ∷ xs) = inr (last-Among a xs)

tell-Among :
    (callback : Bool) (a b : Answer) (as' : List Answer)
    → Among a as'
    → Among a (tell callback b as')
unfolding tell
tell-Among true a b as' h = Among-append a as' (b ∷ []) h
tell-Among false a b as' h = h

-- What a step of the timer does: the callback and the data of the clients stay, no answer is lost,
-- and a client whose request gets its flag is told, if there is a callback.
record Keeps (q after : CaptureData) : Type 0 where
  callback : after.complete_callback ≡ q.complete_callback
  data_at : (id : ℕ) → (request_at after id).user_data ≡ (request_at q id).user_data
  grows : (a : Answer) → Among a q.answers → Among a after.answers
  told :
      (id : ℕ)
      → q.complete_callback ≡ true
      → is_sent q id ≡ false
      → is_sent after id ≡ true
      → Told id q after

same-Keeps : (q : CaptureData) → Keeps q q
same-Keeps q = record {
  callback = refl;
  data_at = λ id. refl;
  grows = λ a h. h;
  told = λ id on unsent sent. absurd (cc);
}

both-Keeps : (q r s : CaptureData) → Keeps q r → Keeps r s → Keeps q s
both-Keeps q r s first second = record {
  callback = second.callback ∙ first.callback;
  data_at = λ id. second.data_at id ∙ first.data_at id;
  grows = λ a h. second.grows a (first.grows a h);
  told = λ id on unsent sent. elim (Bool-cases (is_sent r id)) [
    | inl soon ↦
        let (a, among, same, for_client) = first.told id on unsent soon in
        (a, second.grows a among, same, for_client)
    | inr later ↦
        let (a, among, same, for_client) = second.told id (first.callback ∙ on) later sent in
        (a, among, same, for_client ∙ first.data_at id)
  ];
}

-- Only the request that is answered gets the flag.
sent_only :
    (at id : ℕ) (rs : List Request)
    → (get_or rs id no_such_request).response_sent ≡ false
    → (get_or (update at send rs) id no_such_request).response_sent ≡ true
    → id ≡ at
unfolding update
sent_only at id [] unsent sent = absurd (cc)
sent_only zero zero (r ∷ rs) unsent sent = refl
sent_only zero (suc id) (r ∷ rs) unsent sent = absurd (cc)
sent_only (suc at) zero (r ∷ rs) unsent sent = absurd (cc)
sent_only (suc at) (suc id) (r ∷ rs) unsent sent = ap suc (sent_only at id rs unsent sent)

respond-Keeps : (at count : ℕ) (q : CaptureData) → Keeps q (respond at count q)
unfolding respond
respond-Keeps at count q = elim (Bool-cases (request_at q at).response_sent) [
  | inl done ↦ rw done (same-Keeps q)
  | inr fresh ↦
      let answer : Answer = record {
        request = at;
        completed_count = count;
        user_data = (request_at q at).user_data;
      } in
      rw fresh (record {
        callback = refl;
        data_at = λ id. get_or-update (λ r. r.user_data) at id send q.requests (λ r. refl);
        grows = λ a h. tell-Among q.complete_callback a answer q.answers h;
        told = λ id on unsent sent.
            let same = sent_only at id q.requests unsent sent in
            (
              answer,
              rw on (unfold tell in last-Among answer q.answers),
              sym same,
              ap (λ (k : ℕ). (request_at q k).user_data) (sym same),
            );
      })
]

abbrev mark : Request → Request
mark r = record r { timed_out = true }

expire-Keeps : (at count : ℕ) (q : CaptureData) → Keeps q (expire at count q)
unfolding expire
expire-Keeps at count q =
    let marked : CaptureData = record q { requests = update at mark q.requests } in
    let flag = λ (id : ℕ). get_or-update (λ r. r.response_sent) at id mark q.requests (λ r. refl) in
    both-Keeps q marked _
      (record {
        callback = refl;
        data_at = λ id. get_or-update (λ r. r.user_data) at id mark q.requests (λ r. refl);
        grows = λ a h. h;
        told = λ id on unsent sent. absurd (let e = flag id in cc);
      })
      (respond-Keeps at count marked)

expire_current-Keeps :
    (now : ℕ) (current : Option ℕ) (q : CaptureData) → Keeps q (expire_current now current q)
unfolding expire_current
expire_current-Keeps now none q = same-Keeps q
expire_current-Keeps now (some at) q =
    let kept = expire-Keeps at (request_at q at).capture_cnt q in
    elim (Bool-cases (is_expired now (request_at q at))) [
      | inl late ↦ rw late (record {
        callback = kept.callback;
        data_at = kept.data_at;
        grows = kept.grows;
        told = kept.told;
      })
      | inr early ↦ rw early (same-Keeps q)
    ]

expire_pending-Keeps :
    (now : ℕ) (pending : List ℕ) (q : CaptureData) → Keeps q (expire_pending now pending q).0
unfolding expire_pending
expire_pending-Keeps now [] q = same-Keeps q
expire_pending-Keeps now (at ∷ pending) q = elim (Bool-cases (is_expired now (request_at q at))) [
  | inl late ↦ rw late (
      both-Keeps q (expire at 0 q) _ (expire-Keeps at 0 q)
        (expire_pending-Keeps now pending (expire at 0 q)))
  | inr early ↦ rw early (expire_pending-Keeps now pending q)
]

check_timeout-Keeps : (now : ℕ) (q : CaptureData) → Keeps q (check_timeout now q)
unfolding check_timeout
check_timeout-Keeps now q =
    let first = expire_current now q.current_request q in
    let kept =
      both-Keeps q first _ (expire_current-Keeps now q.current_request q)
        (expire_pending-Keeps now q.request_queue first) in
    record {
      callback = kept.callback;
      data_at = kept.data_at;
      grows = kept.grows;
      told = kept.told;
    }

-- The time since the request was made, in milliseconds, is no more than its timeout.
abbrev pub InTime : ℕ → Request → Type 0
InTime now r = pos ((now - r.start_time) / 1000) ≤ℤ r.timeout_ms

is_expired-InTime : (now : ℕ) (r : Request) → is_expired now r ≡ false → InTime now r
unfolding is_expired
is_expired-InTime now r early = ground arith

-- A request is in time, or its flag is set; and if there is a callback and the flag was not set
-- before, the callback was called for it.
abbrev pub Answered : ℕ → CaptureData → CaptureData → ℕ → Type 0
Answered now q after id =
    InTime now (request_at q id)
    ⊎ ((is_sent after id ≡ true)
        × ((q.complete_callback ≡ false) ⊎ ((is_sent q id ≡ true) ⊎ Told id q after)))

told-Answered :
    (now : ℕ) (q after : CaptureData) (id : ℕ)
    → Keeps q after
    → (is_expired now (request_at q id) ≡ false) ⊎ (is_sent after id ≡ true)
    → Answered now q after id
told-Answered now q after id kept (inl early) = inl (is_expired-InTime now (request_at q id) early)
told-Answered now q after id kept (inr sent) = inr (
  sent,
  elim (Bool-cases q.complete_callback) [
    | inr off ↦ inl off
    | inl on ↦ inr (elim (Bool-cases (is_sent q id)) [
      | inl before ↦ inl before
      | inr unsent ↦ inr (kept.told id on unsent sent)
    ])
  ],
)

-- The request that frames are for, if there is one.
abbrev pub CurrentAnswered : ℕ → Option ℕ → CaptureData → CaptureData → Type 0
CurrentAnswered now none q after = Unit
CurrentAnswered now (some id) q after = Answered now q after id

current-CurrentAnswered :
    (now : ℕ) (current : Option ℕ) (q after : CaptureData)
    → Keeps q after
    → CurrentServed now current q after
    → CurrentAnswered now current q after
current-CurrentAnswered now none q after kept h = tt
current-CurrentAnswered now (some id) q after kept h = told-Answered now q after id kept h

-- After the timer no pending request has been there for longer than its timeout. Every request that
-- had been, pending or being served, has its response flag set, and the callback, if there is one,
-- has been called with it and its client's data, unless its flag was set before.
pub check_timeout_answers :
    (now : ℕ) (q : CaptureData)
    → All
        (λ id. InTime now (request_at (check_timeout now q) id))
        (check_timeout now q).request_queue
      × All (Answered now q (check_timeout now q)) q.request_queue
      × CurrentAnswered now q.current_request q (check_timeout now q)
check_timeout_answers now q =
    let kept = check_timeout-Keeps now q in
    let (in_time, pending, current) = check_timeout_sends now q in
    (
      All-change _ (λ id h. is_expired-InTime now (request_at (check_timeout now q) id) h) in_time,
      All-change q.request_queue (λ id h. told-Answered now q _ id kept h) pending,
      current-CurrentAnswered now q.current_request q _ kept current,
    )
