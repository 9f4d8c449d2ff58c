-- ===== src/HealthProducer/Laws.antt =====
-- What the aggregator can rely on in a health document.
use gst_app.Prelude.{
  ℕ, suc, ◌*◌, ◌≡◌, ◌≢◌, ◌⊎◌, ◌↔◌, refl, Bool, true, false, not, List, [], ◌∷◌, length, All, Option,
  none, some, arith, if◌then◌else◌, inl, inr, Bool-cases,
}
use gst_app.HealthProducer.{
  ChannelHealth, Health, Status, status_ok, status_fail, status_starting, status_na, Code,
  code_none, code_disabled, Observation, Statvfs, storage_fault, note_q_in, observe_gstreamer,
  observe_recording, observe_channel, observe_all, Flags, Observed, Round, top_status, Rounds,
}
use gst_app.HealthProducer.Publish.{Document, Surroundings, publish}

-- The status and the code fit together, and a failure counts once.
pub record Consistent (o : Observation) : Type 0 where
  pub fine : o.status ≡ status_ok → o.code ≡ code_none
  pub off : o.status ≡ status_na → o.code ≡ code_disabled
  pub starting : o.status ≡ status_starting → o.code ≡ code_none
  pub failing : o.status ≡ status_fail → (o.code ≢ code_none) × (o.code ≢ code_disabled)
  pub counted : (o.count ≡ 1) ↔ (o.status ≡ status_fail)

-- A fault of the storage is one of the two storage codes.
IsFault : Option Code → Type 0
IsFault fault = (c : Code) → fault ≡ some c → (c ≢ code_none) × (c ≢ code_disabled)

storage_fault-IsFault : (vfs : Option Statvfs) → IsFault (storage_fault vfs)
unfolding storage_fault IsFault
storage_fault-IsFault none c h = absurd (ground arith)
storage_fault-IsFault (some vfs) c h = ground arith

-- An observation is consistent, and the flags after it say that it fails, or that it is starting,
-- or that a flag was set before it.
record Noted (o : Observation) (before after : Flags) : Type 0 where
  consistent : Consistent o
  failing : (after.any_fail ≡ true) ↔ ((before.any_fail ≡ true) ⊎ (o.status ≡ status_fail))
  starting :
      (after.any_starting ≡ true) ↔ ((before.any_starting ≡ true) ⊎ (o.status ≡ status_starting))

observe_gstreamer-Noted :
    (h : Health) (t channel : ℕ) (ch : ChannelHealth) (flags : Flags)
    → let o : Observed = observe_gstreamer h t channel ch flags in Noted o.added flags o.flags
unfolding observe_gstreamer
observe_gstreamer-Noted h t channel ch flags = ground arith

observe_recording-Noted :
    (h : Health) (t : ℕ) (dir : List ℕ) (fault : Option Code) (channel : ℕ) (ch : ChannelHealth)
    (flags : Flags)
    → IsFault fault
    → let o : Observed = observe_recording h t dir fault channel ch flags in
      Noted o.added flags o.flags
unfolding observe_recording IsFault
observe_recording-Noted h t dir none channel ch flags f = ground arith
observe_recording-Noted h t dir (some c) channel ch flags f = let g = f c refl in ground (arith, g)

-- One of the observations has the status.
abbrev pub Some : Status → List Observation → Type 0
Some s [] = ⊥
Some s (o ∷ os) = (o.status ≡ s) ⊎ Some s os

-- The same for the observations of some rounds.
record AllNoted (os : List Observation) (before after : Flags) : Type 0 where
  consistent : All Consistent os
  failing : (after.any_fail ≡ true) ↔ ((before.any_fail ≡ true) ⊎ Some status_fail os)
  starting : (after.any_starting ≡ true) ↔ ((before.any_starting ≡ true) ⊎ Some status_starting os)

-- What holds in both branches.
choice :
    (Good : Round → Type 0) (test : Bool) (first second : Round)
    → Good first
    → Good second
    → Good (if test then first else second)
choice Good true first second h k = h
choice Good false first second h k = k

observe_channel-AllNoted :
    (h : Health) (t : ℕ) (dir : List ℕ) (fault : Option Code) (q channel : ℕ) (ch : ChannelHealth)
    (flags : Flags)
    → IsFault fault
    → let r : Round = observe_channel h t dir fault q channel ch flags in
      AllNoted (r.first ∷ (r.second ∷ [])) flags r.flags
unfolding observe_channel
observe_channel-AllNoted h t dir fault q channel ch flags f =
    let noted : ChannelHealth = note_q_in t q ch in
    let o : Observed = observe_gstreamer h t channel noted flags in
    let g = observe_gstreamer-Noted h t channel noted flags in
    let r = observe_recording-Noted h t dir fault channel noted o.flags f in
    choice (λ (r : Round). AllNoted (r.first ∷ (r.second ∷ [])) flags r.flags) (not ch.enable) _ _
      (ground arith)
      (record {
        consistent = (g.consistent, (r.consistent, tt));
        failing = ground (arith, g.failing, r.failing);
        starting = ground (arith, g.starting, r.starting);
      })

observe_all-AllNoted :
    (h : Health) (t : ℕ) (dir : List ℕ) (fault : Option Code) (q_in : ℕ → ℕ) (channel : ℕ)
    (channels : List ChannelHealth) (flags : Flags)
    → IsFault fault
    → let r : Rounds = observe_all h t dir fault q_in channel channels flags in
      AllNoted r.observations flags r.flags
unfolding observe_all
observe_all-AllNoted h t dir fault q_in channel [] flags f = record {
  consistent = tt;
  failing = ground arith;
  starting = ground arith;
}
observe_all-AllNoted h t dir fault q_in channel (ch ∷ rest) flags f =
    let r : Round = observe_channel h t dir fault (q_in channel) channel ch flags in
    let here = observe_channel-AllNoted h t dir fault (q_in channel) channel ch flags f in
    let later = observe_all-AllNoted h t dir fault q_in (suc channel) rest r.flags f in
    record {
      consistent = (here.consistent.0, (here.consistent.1.0, later.consistent));
      failing = ground (arith, here.failing, later.failing);
      starting = ground (arith, here.starting, later.starting);
    }

observe_all-length :
    (h : Health) (t : ℕ) (dir : List ℕ) (fault : Option Code) (q_in : ℕ → ℕ) (channel : ℕ)
    (channels : List ChannelHealth) (flags : Flags)
    → length (observe_all h t dir fault q_in channel channels flags).observations
      ≡ 2 * length channels
unfolding observe_all
observe_all-length h t dir fault q_in channel [] flags = refl
observe_all-length h t dir fault q_in channel (ch ∷ rest) flags =
    let r : Round = observe_channel h t dir fault (q_in channel) channel ch flags in
    omega (arith, observe_all-length h t dir fault q_in (suc channel) rest r.flags)

-- An observation that does not contradict a document that is OK.
abbrev pub Calm : Observation → Type 0
Calm o = (o.status ≡ status_ok) ⊎ (o.status ≡ status_na)

Calm-of : (o : Observation) → o.status ≢ status_fail → o.status ≢ status_starting → Calm o
Calm-of o f s = ground arith

All-Calm : (os : List Observation) → ¬ Some status_fail os → ¬ Some status_starting os → All Calm os
All-Calm [] f s = tt
All-Calm (o ∷ os) f s =
    (Calm-of o (λ e. f (inl e)) (λ e. s (inl e)), All-Calm os (λ e. f (inr e)) (λ e. s (inr e)))

-- The status of a document and its observations.
pub record Truthful (d : Document) (channels : ℕ) : Type 0 where
  pub complete : length d.observations ≡ 2 * channels
  pub consistent : All Consistent d.observations
  pub ok : d.status ≡ status_ok → All Calm d.observations
  pub failing : (d.status ≡ status_fail) ↔ Some status_fail d.observations
  pub starting :
      (d.status ≡ status_starting)
      ↔ (Some status_starting d.observations × ¬ Some status_fail d.observations)

abbrev no_flags : Flags
no_flags = record { any_fail = false; any_starting = false }

-- A flag that was not set before.
flag_iff : (flag : Bool) (P : Type 0) → (flag ≡ true) ↔ ((false ≡ true) ⊎ P) → (flag ≡ true) ↔ P
flag_iff flag P h =
    (λ e. elim (h.0 e) [ inl never ↦ absurd (ground arith) | inr p ↦ p ], λ p. h.1 (inr p))

top_status-AllNoted :
    (os : List Observation) (flags : Flags)
    → AllNoted os no_flags flags
    → (top_status flags ≡ status_ok → ¬ Some status_fail os × ¬ Some status_starting os)
      × ((top_status flags ≡ status_fail) ↔ Some status_fail os)
      × ((top_status flags ≡ status_starting) ↔ (Some status_starting os × ¬ Some status_fail os))
top_status-AllNoted os flags h =
    let fails = flag_iff flags.any_fail (Some status_fail os) h.failing in
    let starts = flag_iff flags.any_starting (Some status_starting os) h.starting in
    elim (Bool-cases flags.any_fail) [
      | inl failed ↦ rw failed (
        λ e. absurd (ground arith),
        (λ e. fails.0 failed, λ some_fail. refl),
        (λ e. absurd (ground arith), λ both. absurd (both.1 (fails.0 failed))),
      )
      | inr fine ↦
          let calm : ¬ Some status_fail os = λ x. ground (arith, fails.1 x, fine) in
          elim (Bool-cases flags.any_starting) [
            | inl started ↦
                rw (fine, started)
                  (
                    λ e. absurd (ground arith),
                    (λ e. absurd (ground arith), λ x. absurd (calm x)),
                    (λ e. (starts.0 started, calm), λ both. refl),
                  )
            | inr still ↦
                let none_starts : ¬ Some status_starting os =
                  λ x. ground (arith, starts.1 x, still) in
                rw (fine, still)
                  (
                    λ e. (calm, none_starts),
                    (λ e. absurd (ground arith), λ x. absurd (calm x)),
                    (λ e. absurd (ground arith), λ both. absurd (none_starts both.0)),
                  )
          ]
    ]

-- Every published document has two observations for each channel, whose statuses and codes fit
-- together; it is OK only if every observation is OK or not applicable, it fails exactly if one of
-- them fails, and it is starting exactly if one of them is and none fails.
pub publish-Truthful :
    (s : Surroundings) (h : Health) → Truthful (publish s h).document (length h.channels)
unfolding publish
publish-Truthful s h =
    let fault : Option Code = storage_fault s.storage in
    let r : Rounds = observe_all h s.now_us s.record_dir fault s.q_in 0 h.channels no_flags in
    let noted =
      observe_all-AllNoted h s.now_us s.record_dir fault s.q_in 0 h.channels no_flags
        (storage_fault-IsFault s.storage) in
    let (calm, fails, starts) = top_status-AllNoted r.observations r.flags noted in
    record {
      complete = observe_all-length h s.now_us s.record_dir fault s.q_in 0 h.channels no_flags;
      consistent = noted.consistent;
      ok = λ e. All-Calm r.observations (calm e).0 (calm e).1;
      failing = fails;
      starting = starts;
    }
