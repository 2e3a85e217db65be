-- ===== src/Tests/Running.antt =====
-- Runs of the session, of the watchdog and the monitor, and of the scans for codes.
use passx.Base.{
  All, Bool, List, Option, Text, [], any, arith, false, leb, ltb, none, not, refl, some, true, ℕ,
  ◌%◌, ◌&&◌, ◌++◌, ◌==◌, ◌||◌, ◌∷◌, ◌≡◌,
}
use passx.Session.{Monitored, Turn, passes, wakes, run, unlocked}
use passx.Session.Timeout.{IsDone, locks_when_idle}
use passx.Session.Watchdog.{Watchdog, watch_run, frozen, overdue, ended, ends_when_frozen}
use passx.Security.{Thread, Findings}
use passx.Security.Scans.{NeedsRight, run_passes, passes_keep}
use passx.Ui.Qr.{Chars, Unicode, parse_otpauth_uri, cleaned, trim}
use passx.Ui.Qr.Decode.{IsAscii}
use passx.Ui.Qr.Parse.{
  UnicodeLaws, IsPrintable, IsEncoder, otpauth_uri, parse_otpauth_uri-otpauth_uri,
}
use passx.Ui.Generator.{on_generate_password}
use passx.Ui.Generator.Passwords.{IsPassword, asked_for, InRange, on_generate_password-IsPassword}

-- Unlocked at 5 s, with a timeout of 2 s.
abbrev watched : Monitored
watched = record {
  session = record { lock_state = unlocked; last_activity = 5000000000; timeout = 2000000000 };
  now = 5000000000;
  monitoring = true;
  callbacks = 0;
}

abbrev two_seconds : List Turn
two_seconds = passes 1000000000 ∷ wakes ∷ passes 1000000000 ∷ []

locks_when_idle_example : IsDone 1 (run (two_seconds ++ (wakes ∷ [])) watched)
locks_when_idle_example =
    locks_when_idle 0 two_seconds watched
      (record { open_unlocked = refl; open_monitored = refl; open_called = refl }) refl
      (omega arith)

-- A thread of the process 7 that starts at an address.
abbrev started_at : ℕ → ℕ → Thread
started_at id address = record {
  thread_id = id;
  owner = 7;
  start_address = some address;
  start_region = none;
  instruction_pointer = none;
  region = none;
  working_set = none;
  terminates = λ access. access % 2 == 1;
}

abbrev three_threads : List Thread
three_threads = started_at 1 1000 ∷ started_at 2 500 ∷ started_at 3 1001 ∷ []

three_threads-NeedsRight : All NeedsRight three_threads
three_threads-NeedsRight =
    (λ access h. rw h refl, (λ access h. rw h refl, (λ access h. rw h refl, tt)))

abbrev quiet : Findings
quiet = record {
  security_check = false;
  check_invariants = true;
  baseline_set = false;
  verify_memory_integrity = true;
  pid = 7;
  current_tid = 2;
  load_lib_a = 1000;
  load_lib_w = 2000;
  snapshot_ok = true;
}

passes_keep_example : run_passes (quiet ∷ quiet ∷ []) three_threads ≡ three_threads
passes_keep_example = passes_keep (quiet ∷ quiet ∷ []) three_threads three_threads-NeedsRight

-- Only ASCII has case here.
abbrev ascii : Unicode
ascii = record { wide_upper = λ c. c ∷ []; to_lowercase = λ cs. cs }

ascii-UnicodeLaws : UnicodeLaws ascii
ascii-UnicodeLaws = record { lowercase_lower = λ cs h. refl }

-- Letters and digits are kept.
abbrev keep : ℕ → Bool
keep c = (leb b'0' c && leb c b'9') || ((leb b'A' c && leb c b'Z') || (leb b'a' c && leb c b'z'))

keep-IsEncoder : IsEncoder keep
keep-IsEncoder = record {
  escapes = record { escapes_percent = refl; escapes_plus = refl };
  query = record { escapes_it = refl; not_percent = refl; not_hex = λ n h. ground arith };
  parameter = record { escapes_it = refl; not_percent = refl; not_hex = λ n h. ground arith };
}

-- "A&B", "me@x" and "AB2"
abbrev issuer : Chars
issuer = b'A' ∷ b'&' ∷ b'B' ∷ []

abbrev account_name : Chars
account_name = b'm' ∷ b'e' ∷ b'@' ∷ b'x' ∷ []

abbrev secret : Chars
secret = b'A' ∷ b'B' ∷ b'2' ∷ []

chars_below : (cs : Chars) → any (λ c. not (ltb c 128)) cs ≡ false → All IsAscii cs
chars_below [] h = tt
chars_below (c ∷ cs) h = (ground arith, chars_below cs (ground arith))

printable : IsPrintable ascii issuer account_name secret
unfolding trim cleaned
printable = record {
  issuer_ascii = chars_below issuer refl;
  account_ascii = chars_below account_name refl;
  secret_ascii = chars_below secret refl;
  no_colon = refl;
  account_trimmed = refl;
  secret_clean = refl;
  secret_there = refl;
}

parse_otpauth_uri-otpauth_uri_example :
    parse_otpauth_uri ascii (otpauth_uri keep issuer account_name secret)
    ≡ some (record { account = account_name; secret = secret; issuer = issuer })
parse_otpauth_uri-otpauth_uri_example =
    parse_otpauth_uri-otpauth_uri ascii ascii-UnicodeLaws keep keep-IsEncoder issuer account_name
      secret printable

abbrev first_char : ℕ → ℕ → ℕ
first_char k n = 0

first_char-InRange : InRange first_char
first_char-InRange k n h = h

on_generate_password-IsPassword_example :
    (password : Text) × (on_generate_password first_char 12 true false true false ≡ some password)
    × IsPassword (asked_for true false true false) 12 password
on_generate_password-IsPassword_example =
    on_generate_password-IsPassword first_char 12 true false true false first_char-InRange
      (omega arith)

abbrev beaten : Watchdog
beaten = record { heartbeat = 100; panicked = false; exit_code = none }

-- The clock is set back once.
abbrev readings : List (Option ℕ)
readings = some 101 ∷ some 99 ∷ some 131 ∷ []

ends_when_frozen_example :
    ended (watch_run 30 (frozen readings) beaten) ≡ any (overdue 30 100) readings
ends_when_frozen_example = ends_when_frozen 30 readings beaten refl
