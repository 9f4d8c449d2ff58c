-- ===== src/Util/LogOnce.antt =====
-- `log_once`: a table of the messages that have been logged.
pub mod Laws
use gst_app.Prelude.{
  ℕ, ℤ, pos, ltb_ℤ, Bool, true, false, ◌||◌, not, List, [], ◌∷◌, ◌++◌, length, take, same_bytes,
  ltb, if◌then◌else◌,
}

-- LOG_ALERT
abbrev pub log_alert : ℤ
log_alert = pos 1

abbrev pub known : List ℕ → List (List ℕ) → Bool
known message [] = false
known message (entry ∷ entries) = same_bytes message entry || known message entries

-- The outcome of a call: the table, and whether the message went to syslog and to the console.
pub record Logged : Type 0 where
  pub table : List (List ℕ)
  pub to_syslog : Bool
  pub to_console : Bool

-- An entry holds 255 bytes of its message, and the table 255 entries.
unfoldable pub remember : List ℕ → List (List ℕ) → List (List ℕ)
remember message table = if ltb (length table) 255 then table ++ (take 255 message ∷ []) else table

-- The message passes a level, or is at least an alert.
abbrev pub passes_level : ℤ → ℤ → Bool
passes_level opt level = not (ltb_ℤ level opt) || not (ltb_ℤ log_alert opt)

unfoldable pub log_once : ℤ → ℤ → ℤ → List ℕ → List (List ℕ) → Logged
unfolding remember
log_once log_level dbg_level opt message table =
    if known message table
    then record { table = table; to_syslog = false; to_console = false }
    else record {
      table = remember message table;
      to_syslog = passes_level opt log_level;
      to_console = passes_level opt dbg_level;
    }
