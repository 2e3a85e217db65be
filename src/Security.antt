-- ===== src/Security.antt =====
-- The decisions of src/security/anti_injection.rs and of the monitor of src/security/mod.rs. What
-- Windows answers of each thread is data; a thread whose termination succeeds is gone.
pub mod Scans
pub mod Probed
pub mod Antivirus
pub mod Hardening
use passx.Base.{
  Bool, Bytes, List, Option, Text, [], drop, false, if◌then◌else◌, is_some, leb, ltb, none, not,
  retain, some, true, ℕ, ◌%◌, ◌&&◌, ◌++◌, ◌+◌, ◌/◌, ◌==◌, ◌||◌, ◌∷◌,
}
use passx.Ui.Model.{contains, starts_with}

-- What `VirtualQuery` answers of an address: whether its pages belong to an image, and their
-- protection.
pub record Region : Type 0 where
  pub is_image : Bool
  pub protect : ℕ

-- A thread of the snapshot. An answer is `none` where the thread cannot be opened, suspended or
-- queried.
pub record Thread : Type 0 where
  pub thread_id : ℕ
  pub owner : ℕ
  pub start_address : Option ℕ
  pub start_region : Option Region
  pub instruction_pointer : Option ℕ
  pub region : Option Region
  -- The flags of `QueryWorkingSetEx`.
  pub working_set : Option ℕ
  -- Whether `TerminateThread` succeeds through a handle that was opened with these rights; the code
  -- drops its result.
  pub terminates : ℕ → Bool

-- THREAD_QUERY_INFORMATION, and with THREAD_GET_CONTEXT and THREAD_SUSPEND_RESUME.
abbrev pub query_access : ℕ
query_access = 64

abbrev pub context_access : ℕ
context_access = 64 + 8 + 2

-- The threads when one of them was to be terminated.
abbrev pub without : ℕ → Thread → List Thread → List Thread
without access t ts = if t.terminates access then ts else t ∷ ts

-- PAGE_EXECUTE, PAGE_EXECUTE_READ, PAGE_EXECUTE_READWRITE and PAGE_EXECUTE_WRITECOPY.
abbrev pub is_executable : ℕ → Bool
is_executable protect =
    let base_protect = protect % 256 in
    base_protect == 16 || (base_protect == 32 || (base_protect == 64 || base_protect == 128))

abbrev unbacked : Option Region → Bool
unbacked none = false
unbacked (some m) = not m.is_image && is_executable m.protect

abbrev near : ℕ → ℕ → Bool
near start_addr load_lib = leb load_lib start_addr && ltb start_addr (load_lib + 64)

-- A thread of the process that starts at `LoadLibrary`, or in executable memory of no image.
unfoldable pub is_injected : ℕ → ℕ → ℕ → Thread → Bool
is_injected pid load_lib_a load_lib_w t = t.owner == pid && elim t.start_address [
  | none ↦ false
  | some start_addr ↦
      if near start_addr load_lib_a || near start_addr load_lib_w
      then true
      else unbacked t.start_region
]

-- The verdict, and the threads that are left: the loop returns at the first injected thread, which it
-- tries to terminate.
abbrev pub scan_threads : (Thread → Bool) → List Thread → Bool × List Thread
scan_threads injected [] = (false, [])
scan_threads injected (t ∷ ts) =
    let rest = scan_threads injected ts in
    if injected t then (false, without query_access t ts) else (rest.0, t ∷ rest.1)

unfoldable pub check_for_injected_threads : ℕ → ℕ → ℕ → Bool → List Thread → Bool × List Thread
unfolding is_injected
check_for_injected_threads pid load_lib_a load_lib_w snapshot_ok threads =
    if load_lib_a == 0 && load_lib_w == 0
    then (false, threads)
    else if not snapshot_ok
    then (false, threads)
    else scan_threads (is_injected pid load_lib_a load_lib_w) threads

-- Another thread of the process that runs in executable memory of no image.
unfoldable pub is_hijacked : ℕ → ℕ → Thread → Bool
is_hijacked pid current_tid t =
    (t.owner == pid && not (t.thread_id == current_tid))
    && (is_some t.instruction_pointer && unbacked t.region)

-- This loop tries to terminate them all.
unfoldable pub check_thread_hijacking : ℕ → ℕ → Bool → List Thread → Bool × List Thread
unfolding is_hijacked
check_thread_hijacking pid current_tid snapshot_ok threads =
    if not snapshot_ok then (false, threads) else (
      false,
      retain (λ t. not (is_hijacked pid current_tid t && t.terminates context_access)) threads,
    )

-- One that runs in a page of an image that was written to: valid, and no longer shared.
unfoldable pub is_stomped : ℕ → ℕ → Thread → Bool
is_stomped pid current_tid t =
    (t.owner == pid && not (t.thread_id == current_tid))
    && (is_some t.instruction_pointer && elim t.region [
      | none ↦ false
      | some m ↦
          m.is_image
          && (is_executable m.protect && elim t.working_set [
            | none ↦ false
            | some flags ↦ flags % 2 == 1 && (flags / 32768) % 2 == 0
          ])
    ])

abbrev stomp_threads : (Thread → Bool) → List Thread → Bool × List Thread
stomp_threads stomped [] = (false, [])
stomp_threads stomped (t ∷ ts) =
    let rest = stomp_threads stomped ts in
    if stomped t then (true, without context_access t ts) else (rest.0, t ∷ rest.1)

unfoldable pub check_module_stomping : ℕ → ℕ → Bool → List Thread → Bool × List Thread
unfolding is_stomped
check_module_stomping pid current_tid snapshot_ok threads =
    if not snapshot_ok then (false, threads) else stomp_threads (is_stomped pid current_tid) threads

-- The first bytes of the checked functions: `ret`, `jmp` and `int 3` stand for a patch.
unfoldable pub check_functions_integrity : Bytes → Bool
check_functions_integrity [] = false
check_functions_integrity (first_byte ∷ funcs) =
    let rest = check_functions_integrity funcs in
    if first_byte == 195 || (first_byte == 233 || (first_byte == 235 || first_byte == 204))
    then true
    else rest

-- "\??\" and "\\?\"
abbrev nt_prefix : Text
nt_prefix = 92 ∷ b'?' ∷ b'?' ∷ 92 ∷ []

abbrev verbatim_prefix : Text
verbatim_prefix = 92 ∷ 92 ∷ b'?' ∷ 92 ∷ []

abbrev normalized : Text → Text
normalized full_path =
    if starts_with nt_prefix full_path || starts_with verbatim_prefix full_path
    then drop 4 full_path
    else full_path

-- "c:\windows\", "c:\program files\", "c:\program files (x86)\", "payload.dll"
abbrev windows_dir : Text
windows_dir = b'c' ∷ b':' ∷ 92 ∷ b'w' ∷ b'i' ∷ b'n' ∷ b'd' ∷ b'o' ∷ b'w' ∷ b's' ∷ 92 ∷ []

abbrev program_files : Text
program_files =
    b'c' ∷ b':' ∷ 92 ∷ b'p' ∷ b'r' ∷ b'o' ∷ b'g' ∷ b'r' ∷ b'a' ∷ b'm' ∷ b' ' ∷ b'f' ∷ b'i' ∷ b'l'
    ∷ b'e' ∷ b's' ∷ []

abbrev program_files_x86 : Text
program_files_x86 = program_files ++ (b' ' ∷ b'(' ∷ b'x' ∷ b'8' ∷ b'6' ∷ b')' ∷ 92 ∷ [])

abbrev payload_name : Text
payload_name = b'p' ∷ b'a' ∷ b'y' ∷ b'l' ∷ b'o' ∷ b'a' ∷ b'd' ∷ b'.' ∷ b'd' ∷ b'l' ∷ b'l' ∷ []

abbrev pub is_system : Text → Bool
is_system path =
    starts_with windows_dir path
    || (starts_with (program_files ++ (92 ∷ [])) path || starts_with program_files_x86 path)

-- Whether the process exits with code 7 when a library is loaded from a path, which is in lower case.
unfoldable pub dll_notification_callback : Bool → Option Text → Bool
unfolding contains
dll_notification_callback is_loaded dll_name = is_loaded && elim dll_name [
  | none ↦ false
  | some full_path ↦ not (is_system (normalized full_path)) && contains full_path payload_name
]

-- What `CreateMutexA` says of a name: it fails, or the mutex is there already, or it is new.
pub data Mutex : Type 0 where
  refused already_exists new_mutex : Mutex

unfoldable pub ensure_single_instance : Mutex → Mutex → Bool
ensure_single_instance new_mutex local_mutex = true
ensure_single_instance already_exists local_mutex = false
ensure_single_instance refused already_exists = false
ensure_single_instance refused _ = true

-- What one pass of the monitor finds, the scans of the threads apart.
pub record Findings : Type 0 where
  pub security_check : Bool
  pub check_invariants : Bool
  pub baseline_set : Bool
  pub verify_memory_integrity : Bool
  pub pid : ℕ
  pub current_tid : ℕ
  pub load_lib_a : ℕ
  pub load_lib_w : ℕ
  pub snapshot_ok : Bool

-- The exit code of one pass, if it exits, and the threads that are left.
unfoldable pub monitor_pass : Findings → List Thread → Option ℕ × List Thread
unfolding check_for_injected_threads check_thread_hijacking
monitor_pass f threads =
    if f.security_check
    then (some 1, threads)
    else if not f.check_invariants
    then (some 2, threads)
    else let injected =
        check_for_injected_threads f.pid f.load_lib_a f.load_lib_w f.snapshot_ok threads in
      if injected.0
      then (some 4, injected.1)
      else let hijacked = check_thread_hijacking f.pid f.current_tid f.snapshot_ok injected.1 in
        if hijacked.0
        then (some 6, hijacked.1)
        else if f.baseline_set && not f.verify_memory_integrity
        then (some 5, hijacked.1)
        else (none, hijacked.1)
