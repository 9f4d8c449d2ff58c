-- ===== src/Capture/Tests.antt =====
-- The queue of capture requests at concrete events.
use gst_app.Capture.Frames.{Asked, run-Asked}
use gst_app.Prelude.{
  ℕ, ◌≤◌, pos, ◌≡◌, refl, true, false, some, List, [], ◌∷◌, ◌++◌, All, codes, arith,
}
use gst_app.Capture.{CaptureData, Place, file_path, update}
use gst_app.Capture.Service.{
  request_at, check_timeout, Event, request, register, sample, timer, worker, run, fresh,
}
use gst_app.Capture.Answers.{answers_to, run-answers_to}
use gst_app.Capture.Expiry.Told.{InTime, Answered, CurrentAnswered, check_timeout_answers}
use gst_app.Capture.Paths.{NoSlash, file_path_inside}

abbrev place : Place
place = record {
  base_dir = codes "/data";
  oht_name = codes "OHT1";
  date_str = codes "20260101_000000";
  ch = 2;
}

abbrev two_frames : Event
two_frames = request place 0 (pos 2) (some (codes "job")) 7 1 (pos 200)

-- Two requests; the first gets its frames, the second waits for too long.
abbrev events : List Event
events =
    register
    ∷ (two_frames
        ∷ (two_frames
            ∷ (sample
                ∷ (sample
                    ∷ (worker true
                        ∷ (worker true ∷ (worker true ∷ (worker true ∷ (worker true ∷ [])))))))))

served :
    (run false 10 events (fresh 4)).answers
    ≡ record { request = 0; completed_count = 2; user_data = 7 } ∷ []
unfolding run update
served = refl

timed_out_too :
    (run false 10 (events ++ (timer 900000 ∷ [])) (fresh 4)).answers
    ≡ record { request = 0; completed_count = 2; user_data = 7 }
      ∷ (record { request = 1; completed_count = 0; user_data = 7 } ∷ [])
unfolding run update
timed_out_too = refl

in_place : file_path place (some (codes "job")) ≡ codes "/data/job-ch2"
unfolding file_path
in_place = refl

not_above : file_path place (some (codes "../job")) ≡ codes "/data/OHT1_20260101_000000-ch2"
unfolding file_path
not_above = refl

run-answers_to_example : answers_to 0 (run false 10 events (fresh 4)).answers ≤ 1
run-answers_to_example = run-answers_to false 10 4 events 0

abbrev waiting : CaptureData
waiting = run false 10 events (fresh 4)

check_timeout_answers_example :
    All
      (λ id. InTime 900000 (request_at (check_timeout 900000 waiting) id))
      (check_timeout 900000 waiting).request_queue
    × All (Answered 900000 waiting (check_timeout 900000 waiting)) waiting.request_queue
    × CurrentAnswered 900000 waiting.current_request waiting (check_timeout 900000 waiting)
check_timeout_answers_example = check_timeout_answers 900000 waiting

file_path_inside_example :
    (name : List ℕ) × (file_path place (some (codes "../job")) ≡ place.base_dir ++ (b'/' ∷ name))
    × NoSlash name
file_path_inside_example =
    file_path_inside place (some (codes "../job")) (omega arith) (omega arith)

run-Asked_example :
    Asked (run false 10 events (fresh 4)).requests (run false 10 events (fresh 4)).task_queue
run-Asked_example = run-Asked false 10 4 events
