-- ===== src/Tests/Copies.antt =====
-- Runs of the clipboard and of the checks of the program itself.
use passx.Base.{
  Bytes, List, Text, [], arith, bytes_eq, false, if◌then◌else◌, length, none, not, refl, replicate,
  some, take, true, ℕ, ◌&&◌, ◌++◌, ◌+◌, ◌==◌, ◌∷◌, ◌≡◌,
}
use passx.Clipboard.{
  nothing, Clipboard, CopyCalls, set_content, copy_to_clipboard, Turn, passes, wakes, run,
}
use passx.Clipboard.Clears.{is_own, copy_to_clipboard_gone}
use passx.Runtime.{Signing, Response, success, public_key_bytes, verify_self_integrity}
use passx.Runtime.{LoadedModule, text_name, get_current_memory_hash}
use passx.Runtime.Probes.{Probes, Processes, exe, security_check, check_invariants}
use passx.Security.{Findings, monitor_pass}
use passx.Security.Probed.{findings, monitor_pass-security_check}
use passx.Runtime.Integrity.{says_revoked, verify_self_integrity_signed}

abbrev all_work : CopyCalls
all_work = record {
  opens = true;
  empties = true;
  allocates = true;
  locks_memory = true;
  sets = true;
  format = 49432;
  allocates_dummy = true;
  sets_dummy = true;
}

abbrev units_of : Text → List ℕ
units_of text = text

abbrev secret : Text
secret = b'p' ∷ b'w' ∷ []

-- Another thread is to clear the clipboard five seconds after the start.
abbrev before : Clipboard
before = record { content = nothing; now = 0; clearers = 5000000000 ∷ [] }

-- The older clearer wakes up first, and the own one after ten seconds.
abbrev ten_seconds : List Turn
ten_seconds = passes 6000000000 ∷ wakes 1 true true ∷ passes 4000000000 ∷ wakes 0 true true ∷ []

copy_to_clipboard_gone_example :
    is_own ((run ten_seconds (copy_to_clipboard units_of all_work secret 10 before).1).content)
    ≡ false
unfolding copy_to_clipboard set_content run
copy_to_clipboard_gone_example =
    copy_to_clipboard_gone units_of all_work secret 10 ten_seconds before refl (omega arith) refl
      refl

-- A signature starts with the first byte of what it signs.
abbrev pub first_byte : Signing
first_byte = record {
  Key = Bytes;
  verifying_key = λ bytes. some bytes;
  verify = λ key signed sig. bytes_eq (take 1 signed) (take 1 sig);
}

abbrev pub untrimmed : Text → Text
untrimmed text = text

abbrev pub answer : Response
answer = success (b'O' ∷ b'K' ∷ [])

abbrev pub program : Bytes
program = 77 ∷ 90 ∷ 144 ∷ []

verify_self_integrity_signed_example :
    verify_self_integrity first_byte untrimmed
      (some (record { size = some (length program + 64); content = program ++ replicate 64 77 }))
      answer
    ≡ some (true && not (says_revoked untrimmed answer))
unfolding verify_self_integrity bytes_eq
verify_self_integrity_signed_example =
    verify_self_integrity_signed first_byte untrimmed program (replicate 64 77) public_key_bytes
      answer refl refl

-- A process that its shell has started, with no debugger, and code that is what it was.
abbrev quiet_probes : Probes
quiet_probes = record {
  is_debugger_present = false;
  remote_debugger = some false;
  nt_query = none;
  t1 = 100;
  t2 = 900;
  context = none;
  ecx = 512;
}

abbrev shell : Text
shell = b'c' ∷ b'm' ∷ b'd' ∷ exe

abbrev started_by_shell : Processes
started_by_shell = record {
  snapshot = some (record { process_id = 7; parent_process_id = 3 } ∷ []);
  get_process_name = λ pid. if pid == 3 then some shell else none;
}

abbrev loaded_module : LoadedModule
loaded_module = record {
  e_magic = 23117;
  signature = 17744;
  sections = record { name = text_name; virtual_address = 4096; virtual_size = 3 } ∷ [];
  memory = λ address size. program;
}

abbrev of_process : Findings
of_process = record {
  security_check = false;
  check_invariants = true;
  baseline_set = true;
  verify_memory_integrity = true;
  pid = 7;
  current_tid = 2;
  load_lib_a = 1000;
  load_lib_w = 2000;
  snapshot_ok = true;
}

-- The baseline is that of another program.
monitor_pass-security_check_example :
    (monitor_pass
      (findings untrimmed untrimmed
        (λ path. some path)
        untrimmed
        of_process
        quiet_probes
        started_by_shell
        loaded_module
        secret)
      []).0
    ≡ some 5
unfolding monitor_pass security_check check_invariants get_current_memory_hash bytes_eq
monitor_pass-security_check_example =
    monitor_pass-security_check untrimmed untrimmed (λ path. some path) untrimmed of_process
      quiet_probes started_by_shell loaded_module secret [] refl refl
