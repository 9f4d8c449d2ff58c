-- ===== src/Capture/Expiry.antt =====
-- What checkTimeout of captureBin.cpp leaves in the queue.
pub mod Told
use gst_app.Prelude.{
  ℕ, zero, suc, ◌≡◌, ◌⊎◌, inl, inr, refl, sym, ◌∙◌, Bool, true, false, Bool-cases, Option, none,
  some, List, [], ◌∷◌, get_or, All,
}
use gst_app.Capture.{Request, CaptureData, no_such_request, update}
use gst_app.Capture.Service.{
  request_at, send, respond, is_expired, expire, expire_current, expire_pending, check_timeout,
}

-- What a change of one request does to a test that it keeps.
pub get_or-update :
    {B : Type 0} (test : Request → B) (at id : ℕ) (change : Request → Request) (rs : List Request)
    → ((r : Request) → test (change r) ≡ test r)
    → test (get_or (update at change rs) id no_such_request) ≡ test (get_or rs id no_such_request)
unfolding update
get_or-update test at id change [] same = refl
get_or-update test zero zero change (r ∷ rs) same = same r
get_or-update test zero (suc id) change (r ∷ rs) same = refl
get_or-update test (suc at) zero change (r ∷ rs) same = refl
get_or-update test (suc at) (suc id) change (r ∷ rs) same = get_or-update test at id change rs same

is_expired-mark :
    (now : ℕ) (r : Request) → is_expired now (record r { timed_out = true }) ≡ is_expired now r
unfolding is_expired
is_expired-mark now r = refl

is_expired-send : (now : ℕ) (r : Request) → is_expired now (send r) ≡ is_expired now r
unfolding is_expired
is_expired-send now r = refl

respond-keeps :
    (now at count : ℕ) (q : CaptureData) (id : ℕ)
    → is_expired now (request_at (respond at count q) id) ≡ is_expired now (request_at q id)
unfolding respond
respond-keeps now at count q id = elim (Bool-cases (request_at q at).response_sent) [
  | inl sent ↦ rw sent refl
  | inr unsent ↦
      rw unsent (get_or-update (is_expired now) at id send q.requests (is_expired-send now))
]

-- Whether a request is late does not change when another one, or itself, is answered.
expire-keeps :
    (now at count : ℕ) (q : CaptureData) (id : ℕ)
    → is_expired now (request_at (expire at count q) id) ≡ is_expired now (request_at q id)
unfolding expire
expire-keeps now at count q id =
    respond-keeps now at count _ id
    ∙ get_or-update (is_expired now) at id _ q.requests (is_expired-mark now)

abbrev pub is_sent : CaptureData → ℕ → Bool
is_sent q id = (request_at q id).response_sent

sent-update :
    (at id : ℕ) (rs : List Request)
    → (get_or rs id no_such_request).response_sent ≡ true
    → (get_or (update at send rs) id no_such_request).response_sent ≡ true
unfolding update
sent-update at id [] h = refl
sent-update zero zero (r ∷ rs) h = refl
sent-update zero (suc id) (r ∷ rs) h = h
sent-update (suc at) zero (r ∷ rs) h = h
sent-update (suc at) (suc id) (r ∷ rs) h = sent-update at id rs h

send-at :
    (at : ℕ) (rs : List Request)
    → (get_or (update at send rs) at no_such_request).response_sent ≡ true
unfolding update
send-at at [] = refl
send-at zero (r ∷ rs) = refl
send-at (suc at) (r ∷ rs) = send-at at rs

-- An answer stays sent, and an answered request is.
respond-sends :
    (at count : ℕ) (q : CaptureData)
    → (is_sent (respond at count q) at ≡ true)
      × ((id : ℕ) → is_sent q id ≡ true → is_sent (respond at count q) id ≡ true)
unfolding respond
respond-sends at count q = elim (Bool-cases (request_at q at).response_sent) [
  | inl sent ↦ rw sent (sent, λ id h. h)
  | inr unsent ↦ rw unsent (send-at at q.requests, λ id h. sent-update at id q.requests h)
]

expire-sends :
    (at count : ℕ) (q : CaptureData)
    → (is_sent (expire at count q) at ≡ true)
      × ((id : ℕ) → is_sent q id ≡ true → is_sent (expire at count q) id ≡ true)
unfolding expire
expire-sends at count q =
    let (here, kept) = respond-sends at count (record q { requests = update at _ q.requests }) in
    (
      here,
      λ id h. kept id (get_or-update (λ r. r.response_sent) at id _ q.requests (λ r. refl) ∙ h),
    )

pub All-change :
    {Before After : ℕ → Type 0} (ids : List ℕ)
    → ((id : ℕ) → Before id → After id)
    → All Before ids
    → All After ids
All-change [] give h = tt
All-change (id ∷ ids) give h = (give id h.0, All-change ids give h.1)

-- What the loop over pending requests does: which requests are late does not change, answers stay
-- sent, those that stay in the queue are in time, and those that were late are answered.
record Swept (now : ℕ) (pending : List ℕ) (q : CaptureData) (r : CaptureData × List ℕ)
    : Type 0 where
  same : (id : ℕ) → is_expired now (request_at r.0 id) ≡ is_expired now (request_at q id)
  sends : (id : ℕ) → is_sent q id ≡ true → is_sent r.0 id ≡ true
  in_time : All (λ id. is_expired now (request_at r.0 id) ≡ false) r.1
  answered :
      All (λ id. (is_expired now (request_at q id) ≡ false) ⊎ (is_sent r.0 id ≡ true)) pending

expire_pending-Swept :
    (now : ℕ) (pending : List ℕ) (q : CaptureData)
    → Swept now pending q (expire_pending now pending q)
unfolding expire_pending
expire_pending-Swept now [] q = record {
  same = λ id. refl;
  sends = λ id h. h;
  in_time = tt;
  answered = tt;
}
expire_pending-Swept now (at ∷ pending) q =
    let q' : CaptureData = expire at 0 q in
    let gone = expire_pending-Swept now pending q' in
    let kept = expire_pending-Swept now pending q in
    let keeps = expire-keeps now at 0 q in
    let sent = expire-sends at 0 q in
    elim (Bool-cases (is_expired now (request_at q at))) [
      | inl late ↦ rw late (record {
        same = λ id. gone.same id ∙ keeps id;
        sends = λ id h. gone.sends id (sent.1 id h);
        in_time = gone.in_time;
        answered = (
          inr (gone.sends at sent.0),
          All-change pending
              (λ id h. elim h [ inl early ↦ inl (sym (keeps id) ∙ early) | inr done ↦ inr done ])
              gone.answered,
        );
      })
      | inr early ↦ rw early (record {
        same = kept.same;
        sends = kept.sends;
        in_time = (kept.same at ∙ early, kept.in_time);
        answered = (inl early, kept.answered);
      })
    ]

-- The request that frames are for, if there is one, is in time or answered.
abbrev pub CurrentServed : ℕ → Option ℕ → CaptureData → CaptureData → Type 0
CurrentServed now none q after = Unit
CurrentServed now (some id) q after =
    (is_expired now (request_at q id) ≡ false) ⊎ (is_sent after id ≡ true)

record Looked (now : ℕ) (current : Option ℕ) (q after : CaptureData) : Type 0 where
  same : (id : ℕ) → is_expired now (request_at after id) ≡ is_expired now (request_at q id)
  served : CurrentServed now current q after

expire_current-Looked :
    (now : ℕ) (current : Option ℕ) (q : CaptureData)
    → Looked now current q (expire_current now current q)
unfolding expire_current
expire_current-Looked now none q = record { same = λ id. refl; served = tt }
expire_current-Looked now (some at) q =
    let count : ℕ = (request_at q at).capture_cnt in
    elim (Bool-cases (is_expired now (request_at q at))) [
      | inl late ↦
          rw late (record {
            same = expire-keeps now at count q;
            served = inr (expire-sends at count q).0;
          })
      | inr early ↦ rw early (record { same = λ id. refl; served = inl early })
    ]

served_later :
    (now : ℕ) (current : Option ℕ) (q before after : CaptureData)
    → ((id : ℕ) → is_sent before id ≡ true → is_sent after id ≡ true)
    → CurrentServed now current q before
    → CurrentServed now current q after
served_later now none q before after sends h = tt
served_later now (some id) q before after sends h = elim h [
  | inl early ↦ inl early
  | inr done ↦ inr (sends id done)
]

-- After the timer no pending request is late, and every request that was late, pending or being
-- served, has its flag set.
pub check_timeout_sends :
    (now : ℕ) (q : CaptureData)
    → All
        (λ id. is_expired now (request_at (check_timeout now q) id) ≡ false)
        (check_timeout now q).request_queue
      × All
          (λ id.
            (is_expired now (request_at q id) ≡ false) ⊎ (is_sent (check_timeout now q) id ≡ true))
          q.request_queue
      × CurrentServed now q.current_request q (check_timeout now q)
unfolding check_timeout
check_timeout_sends now q =
    let looked = expire_current-Looked now q.current_request q in
    let first : CaptureData = expire_current now q.current_request q in
    let swept = expire_pending-Swept now q.request_queue first in
    (
      swept.in_time,
      All-change q.request_queue
          (λ id h. elim h [ inl early ↦ inl (sym (looked.same id) ∙ early) | inr done ↦ inr done ])
          swept.answered,
      served_later now q.current_request q first _ swept.sends looked.served,
    )
