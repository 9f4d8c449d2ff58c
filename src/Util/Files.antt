-- ===== src/Util/Files.antt =====
-- `safe_write_file`, `safe_mkdir_p` and `check_sd_mount_flag`.
pub mod Laws
use gst_app.Prelude.{
  ℕ, zero, suc, ◌+◌, ◌-◌, ℤ, pos, negsuc, is_zero, Bool, true, false, ◌&&◌, ◌||◌, not, List, [],
  ◌∷◌, ◌++◌, length, take, drop, get_or, Option, none, some, ltb, leb, ◌==◌, ◌!=◌, if◌then◌else◌,
}

-- EIO and EEXIST, as positive `errno` values.
abbrev pub errno_eio : ℕ
errno_eio = 5

abbrev pub errno_eexist : ℕ
errno_eexist = 17

-- The end of one call: success, or the `errno` it leaves, which may be zero.
pub data Call : Type 0 where
  succeeds : Call
  fails : ℕ → Call

-- What the calls on the file answer.
pub record FileCalls : Type 0 where
  pub opens : Call
  pub prints : Call
  pub flushes : Call
  pub closes : Call

abbrev or_eio : ℕ → ℕ
or_eio errno = if errno != 0 then errno else errno_eio

-- `first_errno` after the print and the flush; zero is none.
abbrev first_errno : Call → Call → ℕ
first_errno (fails e) flushes = or_eio e
first_errno succeeds (fails e) = or_eio e
first_errno succeeds succeeds = 0

abbrev after_close : Call → ℕ → ℕ
after_close succeeds errno = errno
after_close (fails e) errno = if errno == 0 then or_eio e else errno

-- `none` is the result 0; otherwise the result is -1 with the `errno`.
unfoldable pub safe_write_file : FileCalls → Option ℕ
safe_write_file a = elim a.opens [
  | fails e ↦ some e
  | succeeds ↦
      let errno = after_close a.closes (first_errno a.prints a.flushes) in
      if errno != 0 then some errno else none
]

-- The path without a trailing slash.
abbrev pub trim : List ℕ → List ℕ
trim path = if get_or path (length path - 1) 0 == b'/' then take (length path - 1) path else path

-- The calls of `mkdir` and whether all went well; the calls stop at the first that fails otherwise
-- than with EEXIST.
pub record Made : Type 0 where
  pub ok : Bool
  pub calls : List (List ℕ)

abbrev pub tolerated : Call → Bool
tolerated succeeds = true
tolerated (fails e) = e == errno_eexist

-- The loop: `front` is what has been passed of the path, and `rest` is to come.
unfoldable pub mkdir_loop : (List ℕ → Call) → List ℕ → List ℕ → Made
mkdir_loop mkdir front [] = record { ok = tolerated (mkdir front); calls = front ∷ [] }
mkdir_loop mkdir front (c ∷ rest) =
    let later = mkdir_loop mkdir (front ++ (c ∷ [])) rest in
    if c != b'/'
    then later
    else if tolerated (mkdir front)
    then record later { calls = front ∷ later.calls }
    else record { ok = false; calls = front ∷ [] }

-- The first character is never a separator to stop at. `none` is a null path.
unfoldable pub safe_mkdir_p : (List ℕ → Call) → Option (List ℕ) → Made
safe_mkdir_p mkdir none = record { ok = false; calls = [] }
safe_mkdir_p mkdir (some path) =
    if length path == 0 || leb 512 (length path)
    then record { ok = false; calls = [] }
    else elim (trim path) [
      | [] ↦ record { ok = tolerated (mkdir []); calls = [] ∷ [] }
      | c ∷ rest ↦ mkdir_loop mkdir (c ∷ []) rest
    ]

-- What the mount flag's file answers: whether it exists and opens, and its first line.
abbrev contains : ℕ → List ℕ → Bool
contains c [] = false
contains c (x ∷ xs) = x == c || contains c xs

unfoldable pub check_sd_mount_flag : Bool → Bool → Option (List ℕ) → ℕ
check_sd_mount_flag exists opens line = if not exists || not opens then 0 else elim line [
  | none ↦ 0
  | some text ↦ if contains b'1' text then 1 else if contains b'2' text then 2 else 0
]
