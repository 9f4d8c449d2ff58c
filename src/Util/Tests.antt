-- ===== src/Util/Tests.antt =====
-- The helpers at concrete inputs.
use gst_app.Prelude.{
  ℕ, ◌≡◌, ◌↔◌, refl, pos, true, false, List, [], ◌∷◌, replicate, All, some, codes, arith,
}
use gst_app.Util.LogOnce.{log_once}
use gst_app.Util.LogOnce.Laws.{IsTable, log_once_long}
use gst_app.Util.Files.{
  Call, succeeds, fails, FileCalls, safe_write_file, safe_mkdir_p, check_sd_mount_flag, tolerated,
}
use gst_app.Util.Files.Laws.{parents, IsPath, safe_mkdir_p-parents}

empty-IsTable : IsTable []
empty-IsTable = record { small = omega arith; short = tt }

abbrev after_first : List (List ℕ)
after_first = (log_once (pos 5) (pos 5) (pos 4) (codes "no signal") []).table

abbrev long_message : List ℕ
long_message = replicate 256 65

log_once_long_example :
    ((log_once (pos 5) (pos 3) (pos 4) long_message []).to_syslog ≡ true)
    × ((log_once (pos 5) (pos 3) (pos 4) long_message []).to_console ≡ false)
log_once_long_example =
    log_once_long (pos 5) (pos 3) (pos 4) long_message [] empty-IsTable (omega arith)

-- A failed flush shows, with its error.
abbrev unflushed : FileCalls
unflushed = record { opens = succeeds; prints = succeeds; flushes = fails 28; closes = succeeds }

unflushed_fails : safe_write_file unflushed ≡ some 28
unfolding safe_write_file
unflushed_fails = refl

-- Every directory is there.
abbrev all_there : List ℕ → Call
all_there path = fails 17

run_camera : IsPath (codes "/run/cam/") b'/' (codes "run/cam")
run_camera = record { small = omega arith; some_path = omega arith; trimmed = refl }

safe_mkdir_p-parents_example :
    ((safe_mkdir_p all_there (some (codes "/run/cam/"))).ok ≡ true
      → (safe_mkdir_p all_there (some (codes "/run/cam/"))).calls
        ≡ parents (b'/' ∷ []) (codes "run/cam"))
    × (((safe_mkdir_p all_there (some (codes "/run/cam/"))).ok ≡ true)
        ↔ All (λ d. tolerated (all_there d) ≡ true) (parents (b'/' ∷ []) (codes "run/cam")))
safe_mkdir_p-parents_example =
    safe_mkdir_p-parents all_there (codes "/run/cam/") b'/' (codes "run/cam") run_camera

mounted : check_sd_mount_flag true true (some (codes "2")) ≡ 2
unfolding check_sd_mount_flag
mounted = refl
