-- ===== src/HealthProducer.antt =====
-- healthProducer.cpp: the health document that is published once a second. The clock, the encoder's
-- counters, `statvfs` and the outcomes of the file operations are arguments.
pub mod Publish
pub mod Laws
pub mod Duties
mod Tests
use gst_app.Prelude.{
  ℕ, zero, suc, ◌+◌, ◌-◌, ◌*◌, ◌/◌, ◌^◌, ℤ, pos, negsuc, neg, Bool, true, false, ◌||◌, ◌&&◌, not,
  List, [], ◌∷◌, ◌++◌, length, take, Option, none, some, codes, ltb, leb, ◌==◌, ◌!=◌, if◌then◌else◌,
}

abbrev pub usec_per_sec : ℕ
usec_per_sec = 1000000

-- A channel: whether it is enabled, and its `ChannelHealth`.
pub record ChannelHealth : Type 0 where
  pub enable : Bool
  pub last_q_in : ℕ
  pub q_in_moved_us : ℕ
  pub fragment_us : ℕ
  pub fragment_seen : Bool
  pub disabled_reason : List ℕ

-- The state of the producer.
pub record Health : Type 0 where
  pub channels : List ChannelHealth
  pub sequence : ℕ
  pub pipeline_error_us : ℕ
  pub pipeline_error : List ℕ
  pub stall_sec : ℕ
  pub no_growth_sec : ℕ
  pub publish_failed : Bool

pub data Status : Type 0 where
  status_ok status_fail status_starting status_na : Status

pub data Block : Type 0 where
  gstreamer recording : Block

pub data Code : Type 0 where
  code_none code_disabled pipeline_failed source_stall storage_read_only storage_full no_growth :
      Code

pub data Evidence : Type 0 where
  configured : Bool → Evidence
  bus_error : List ℕ → Evidence
  enc_queue_input : ℕ → Evidence
  record_dir : List ℕ → Evidence
  fragment_closed : Bool → Evidence
  seconds_since_fragment : ℤ → Evidence

pub record Observation : Type 0 where
  pub block : Block
  pub channel : ℕ
  pub status : Status
  pub code : Code
  pub count : ℕ
  pub evidence : Evidence
  pub reason_detail : Option (List ℕ)

abbrev pub is_fail : Status → Bool
is_fail status_fail = true
is_fail status_ok = false
is_fail status_starting = false
is_fail status_na = false

abbrev pub observation : Block → ℕ → Status → Code → Evidence → Option (List ℕ) → Observation
observation block channel status code evidence reason_detail = record {
  block = block;
  channel = channel;
  status = status;
  code = code;
  count = if is_fail status then 1 else 0;
  evidence = evidence;
  reason_detail = reason_detail;
}

-- What `statvfs` answers; `none` is its failure.
pub record Statvfs : Type 0 where
  pub read_only : Bool
  pub blocks : ℕ
  pub available : ℕ

unfoldable pub storage_fault : Option Statvfs → Option Code
storage_fault none = none
storage_fault (some vfs) =
    if vfs.read_only
    then some storage_read_only
    else if vfs.blocks != 0 && vfs.available == 0
    then some storage_full
    else none

-- The difference of two times in whole seconds, rounded towards zero.
abbrev pub seconds_between : ℕ → ℕ → ℤ
seconds_between t since =
    if leb since t then pos ((t - since) / usec_per_sec) else neg ((since - t) / usec_per_sec)

-- The counter of the encoder's queue is noted where it has moved.
unfoldable pub note_q_in : ℕ → ℕ → ChannelHealth → ChannelHealth
note_q_in t q_in ch =
    if q_in != ch.last_q_in then record ch { last_q_in = q_in; q_in_moved_us = t } else ch

-- More than `limit` seconds have gone by since the time.
abbrev pub overdue : ℕ → ℕ → ℕ → Bool
overdue t since limit = ltb (since + limit * usec_per_sec) t

-- The two local flags of `publish`, which each branch sets by itself.
pub record Flags : Type 0 where
  pub any_fail : Bool
  pub any_starting : Bool

-- What a block adds to the document, and the flags after it.
pub record Observed : Type 0 where
  pub added : Observation
  pub flags : Flags

unfoldable pub observe_gstreamer : Health → ℕ → ℕ → ChannelHealth → Flags → Observed
observe_gstreamer h t channel ch flags =
    if h.pipeline_error_us != 0
    then record {
      added =
          observation gstreamer channel status_fail pipeline_failed (bus_error h.pipeline_error)
            none;
      flags = record flags { any_fail = true };
    }
    else if overdue t ch.q_in_moved_us h.stall_sec
    then record {
      added =
          observation gstreamer channel status_fail source_stall (enc_queue_input ch.last_q_in)
            (some (codes "no buffer reached the encoder queue"));
      flags = record flags { any_fail = true };
    }
    else record {
      added = observation gstreamer channel status_ok code_none (enc_queue_input ch.last_q_in) none;
      flags = flags;
    }

unfoldable pub observe_recording :
    Health → ℕ → List ℕ → Option Code → ℕ → ChannelHealth → Flags → Observed
observe_recording h t dir (some fault) channel ch flags = record {
  added = observation recording channel status_fail fault (record_dir dir) none;
  flags = record flags { any_fail = true };
}
observe_recording h t dir none channel ch flags =
    if not ch.fragment_seen
    then record {
      added =
          observation recording channel status_starting code_none (fragment_closed false)
            (some (codes "no fragment committed yet"));
      flags = record flags { any_starting = true };
    }
    else if overdue t ch.fragment_us h.no_growth_sec
    then record {
      added =
          observation recording channel status_fail no_growth
            (seconds_since_fragment (seconds_between t ch.fragment_us)) none;
      flags = record flags { any_fail = true };
    }
    else record {
      added =
          observation recording channel status_ok code_none
            (seconds_since_fragment (seconds_between t ch.fragment_us)) none;
      flags = flags;
    }

abbrev off_reason : ChannelHealth → Option (List ℕ)
off_reason ch = elim ch.disabled_reason [ [] ↦ none | c ∷ cs ↦ some (c ∷ cs) ]

abbrev is_some {ℓ} : {A : Type ℓ} → Option A → Bool
is_some none = false
is_some (some a) = true

abbrev observe_disabled : Block → ℕ → ChannelHealth → Observation
observe_disabled block channel ch =
    observation block channel status_na code_disabled (configured (is_some (off_reason ch)))
      (off_reason ch)

-- One round of the loop over the channels: the channel after it, its two observations and the
-- flags.
pub record Round : Type 0 where
  pub channel_after : ChannelHealth
  pub first : Observation
  pub second : Observation
  pub flags : Flags

unfoldable pub observe_channel :
    Health → ℕ → List ℕ → Option Code → ℕ → ℕ → ChannelHealth → Flags → Round
observe_channel h t dir storage q_in channel ch flags =
    let noted = note_q_in t q_in ch in
    let g = observe_gstreamer h t channel noted flags in
    let r = observe_recording h t dir storage channel noted g.flags in
    if not ch.enable
    then record {
      channel_after = ch;
      first = observe_disabled gstreamer channel ch;
      second = observe_disabled recording channel ch;
      flags = flags;
    }
    else record { channel_after = noted; first = g.added; second = r.added; flags = r.flags }

-- All the rounds.
pub record Rounds : Type 0 where
  pub channels : List ChannelHealth
  pub observations : List Observation
  pub flags : Flags

-- The loop, with the encoder's counter of each channel.
unfoldable pub observe_all :
    Health → ℕ → List ℕ → Option Code → (ℕ → ℕ) → ℕ → List ChannelHealth → Flags → Rounds
observe_all h t dir storage q_in channel [] flags = record {
  channels = [];
  observations = [];
  flags = flags;
}
observe_all h t dir storage q_in channel (ch ∷ rest) flags =
    let r = observe_channel h t dir storage (q_in channel) channel ch flags in
    let others = observe_all h t dir storage q_in (suc channel) rest r.flags in
    record {
      channels = r.channel_after ∷ others.channels;
      observations = r.first ∷ r.second ∷ others.observations;
      flags = others.flags;
    }

abbrev pub top_status : Flags → Status
top_status flags =
    if flags.any_fail
    then status_fail
    else if flags.any_starting
    then status_starting
    else status_ok

-- `healthProducerNotePipelineError`: the detail is cut to the buffer of 192 bytes.
unfoldable pub note_pipeline_error : ℕ → Option (List ℕ) → Health → Health
note_pipeline_error now none h = record h {
  pipeline_error_us = now;
  pipeline_error = codes "pipeline error";
}
note_pipeline_error now (some detail) h = record h {
  pipeline_error_us = now;
  pipeline_error = take 191 detail;
}

abbrev at_channel : ℕ → (ChannelHealth → ChannelHealth) → List ChannelHealth → List ChannelHealth
at_channel i f [] = []
at_channel zero f (ch ∷ rest) = f ch ∷ rest
at_channel (suc i) f (ch ∷ rest) = ch ∷ at_channel i f rest

abbrev given_reason : Option (List ℕ) → List ℕ
given_reason none = codes "disabled at startup"
given_reason (some []) = codes "disabled at startup"
given_reason (some (c ∷ cs)) = take 95 (c ∷ cs)

-- `healthProducerNoteChannelDisabled`, before the caller clears the channel's `enable`.
unfoldable pub note_channel_disabled : ℤ → Option (List ℕ) → Health → Health
note_channel_disabled (pos ch) reason h = record h {
  channels =
      at_channel ch
        (λ c. if not c.enable then c else record c { disabled_reason = given_reason reason })
        h.channels;
}
note_channel_disabled (negsuc n) reason h = h

-- `healthProducerNoteFragmentClosed`.
unfoldable pub note_fragment_closed : ℕ → ℤ → Health → Health
note_fragment_closed now (pos ch) h = record h {
  channels = at_channel ch (λ c. record c { fragment_us = now; fragment_seen = true }) h.channels;
}
note_fragment_closed now (negsuc n) h = h
