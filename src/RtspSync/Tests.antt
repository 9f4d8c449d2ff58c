-- ===== src/RtspSync/Tests.antt =====
-- The generations, waits and frame numbers at concrete inputs.
use gst_app.Prelude.{
  ℕ, ◌+◌, ◌*◌, ◌/◌, ◌≡◌, ◌≢◌, ◌↔◌, refl, pos, true, false, List, [], ◌∷◌, none, some, codes, arith,
}
use gst_app.RtspSync.Generation.{
  Generation, live, freed, Atom, take_ref, drop_ref, check_cancelled, set_active, set_cancelled,
  clear_active, generation_unref, step, is_active, run,
}
use gst_app.RtspSync.Generation.Laws.{run-inactive, takes, drops, Owned, run-Owned}
use gst_app.RtspSync.Wait.{Round, deadline_for, generation_wait}
use gst_app.RtspSync.Wait.Laws.{Elapses, Stops, generation_wait_iff, generation_wait_ends}
use gst_app.RtspSync.FrameId.{
  CmdArg, Structure, Caps, rate_for_channel, h265_au_caps_compatible, frame_id_insertion_allowed,
}
use gst_app.RtspSync.FrameId.Laws.{Paced}

-- A generation with one owner, to which one thread's activation comes late.
abbrev owner : Generation
owner = record { ref_count = 1; id = 4; active = false; cancelled = false; activating = 0 }

abbrev late : List Atom
late = set_active ∷ clear_active ∷ []

abbrev after_late : Generation
after_late = record { ref_count = 1; id = 4; active = false; cancelled = true; activating = 0 }

late_runs : run (check_cancelled ∷ set_cancelled ∷ late) (live owner) ≡ some (live after_late)
unfolding run step
late_runs = refl

run-inactive_example : is_active (live after_late) ≡ false
run-inactive_example =
    run-inactive (check_cancelled ∷ []) late (live owner) (live after_late) late_runs

abbrev shared_twice : List Atom
shared_twice = take_ref ∷ drop_ref ∷ drop_ref ∷ []

shared_twice_runs : run shared_twice (live owner) ≡ some (freed 1)
unfolding run step generation_unref
shared_twice_runs = refl

run-Owned_example : Owned (1 + takes shared_twice) (drops shared_twice) (freed 1)
run-Owned_example = run-Owned shared_twice owner (freed 1) (omega arith) shared_twice_runs

abbrev first_round : Round
first_round = record { active = true; cancelled = false; now = 103 }

abbrev later_rounds : List Round
later_rounds =
    record { active = true; cancelled = false; now = 108 }
    ∷ record { active = true; cancelled = false; now = 111 }
    ∷ []

generation_wait_iff_example :
    ((generation_wait (pos 10) (pos 5) 100 (first_round ∷ later_rounds)).0 ≡ some true
      ↔ Elapses (deadline_for 100 10) (first_round ∷ later_rounds))
    × ((generation_wait (pos 10) (pos 5) 100 (first_round ∷ later_rounds)).0 ≡ some false
        ↔ Stops (deadline_for 100 10) (first_round ∷ later_rounds))
generation_wait_iff_example =
    generation_wait_iff 10 5 100 (first_round ∷ later_rounds) (omega arith)

generation_wait_ends_example :
    (generation_wait (pos 5) (pos 5) 100 (first_round ∷ later_rounds)).0 ≢ none
unfolding deadline_for
generation_wait_ends_example =
    generation_wait_ends (pos 5) (pos 5) 100 first_round later_rounds (ground arith) (omega arith)

-- A scaling that rounds to the nearest.
abbrev scale : ℕ → ℕ → ℕ → ℕ
scale v n d = (v * n + d / 2) / d

abbrev thirty : Structure
thirty = record {
  name = codes "video/x-h265";
  stream_format = some (codes "byte-stream");
  alignment = some (codes "au");
  framerate = some (pos 30, pos 1);
}

abbrev thirty_caps : Caps
thirty_caps = record { fixed = true; structures = thirty ∷ [] }

thirty_Paced : Paced thirty_caps 30
thirty_Paced = record { fixed = refl; structure = thirty; only = refl; rate = refl }

abbrev camera : CmdArg
camera = record {
  stream_rec = true;
  stream_rtsp = true;
  dual_enc = false;
  fps_rec = λ channel. pos 30;
  fps_rtsp = λ channel. pos 15;
  enc = codes "h265";
}

camera_allowed : frame_id_insertion_allowed (some camera) 2 (some thirty_caps) ≡ true
unfolding frame_id_insertion_allowed h265_au_caps_compatible rate_for_channel
camera_allowed = refl
