-- ===== src/Runtime/Probes.antt =====
-- src/runtime/invariants.rs and src/memory/virtualization.rs: the decisions of the probes, on a machine
-- of x86_64. What Windows and the processor answer are the fields of `Processes` and `Probes`.
use passx.Base.{
  Bool, List, Option, Text, [], any, bytes_eq, false, find_first, if◌then◌else◌, ltb, none, not,
  some, true, ℕ, ◌%◌, ◌&&◌, ◌+◌, ◌-◌, ◌/◌, ◌==◌, ◌^◌, ◌||◌, ◌∷◌,
}

-- ".exe"
abbrev pub exe : Text
exe = b'.' ∷ b'e' ∷ b'x' ∷ b'e' ∷ []

abbrev pub allowed_parents : List Text
allowed_parents =
    (b'e' ∷ b'x' ∷ b'p' ∷ b'l' ∷ b'o' ∷ b'r' ∷ b'e' ∷ b'r' ∷ exe)
    ∷ (b'c' ∷ b'm' ∷ b'd' ∷ exe)
    ∷ (b'p' ∷ b'w' ∷ b's' ∷ b'h' ∷ exe)
    ∷ (b'p' ∷ b'o' ∷ b'w' ∷ b'e' ∷ b'r' ∷ b's' ∷ b'h' ∷ b'e' ∷ b'l' ∷ b'l' ∷ exe)
    ∷ (b's' ∷ b'e' ∷ b'r' ∷ b'v' ∷ b'i' ∷ b'c' ∷ b'e' ∷ b's' ∷ exe)
    ∷ (b't' ∷ b'a' ∷ b's' ∷ b'k' ∷ b'h' ∷ b'o' ∷ b's' ∷ b't' ∷ b'w' ∷ exe)
    ∷ (b's' ∷ b'v' ∷ b'c' ∷ b'h' ∷ b'o' ∷ b's' ∷ b't' ∷ exe)
    ∷ (b'd' ∷ b'e' ∷ b'v' ∷ b'e' ∷ b'n' ∷ b'v' ∷ exe)
    ∷ (b'c' ∷ b'o' ∷ b'd' ∷ b'e' ∷ exe)
    ∷ (b'c' ∷ b'a' ∷ b'r' ∷ b'g' ∷ b'o' ∷ exe)
    ∷ []

pub record Process : Type 0 where
  pub process_id : ℕ
  pub parent_process_id : ℕ

-- The snapshot, if there is one, and the path of the executable of a process, if it can be asked for.
pub record Processes : Type 0 where
  pub snapshot : Option (List Process)
  pub get_process_name : ℕ → Option Text

unfoldable pub get_parent_pid : Processes → ℕ → Option ℕ
get_parent_pid w target_pid = elim w.snapshot [
  | none ↦ none
  | some entries ↦ elim (find_first (λ p. p.process_id == target_pid) entries) [
    | none ↦ none
    | some entry ↦ some (entry.parent_process_id)
  ]
]

-- `file_name` is that of `Path`, with `OsStr::to_str` after it.
unfoldable pub parent_name : (Text → Option Text) → (Text → Text) → Text → Text
parent_name file_name to_lowercase path = elim (file_name path) [
  | none ↦ []
  | some name ↦ to_lowercase name
]

unfoldable pub check_invariants : (Text → Option Text) → (Text → Text) → Processes → ℕ → Bool
unfolding get_parent_pid parent_name
check_invariants file_name to_lowercase w current_pid = elim (get_parent_pid w current_pid) [
  | none ↦ false
  | some parent_pid ↦ elim (w.get_process_name parent_pid) [
    | none ↦ false
    | some parent_path ↦
        any (λ p. bytes_eq (parent_name file_name to_lowercase parent_path) p) allowed_parents
  ]
]

pub record DebugRegisters : Type 0 where
  pub dr0 : ℕ
  pub dr1 : ℕ
  pub dr2 : ℕ
  pub dr3 : ℕ
  pub dr7 : ℕ

-- What `NtQueryInformationProcess` answers; `none` is an error.
pub record NtQueries : Type 0 where
  pub debug_port : Option ℕ
  pub debug_flags : Option ℕ
  pub debug_object : Option ℕ
  -- The PEB, if its address is not null: `BeingDebugged` and `NtGlobalFlag`.
  pub peb : Option (ℕ × ℕ)

pub record Probes : Type 0 where
  pub is_debugger_present : Bool
  -- `none` is an error.
  pub remote_debugger : Option Bool
  -- Unless ntdll or its function is not found.
  pub nt_query : Option NtQueries
  -- The readings of the time stamp counter.
  pub t1 : ℕ
  pub t2 : ℕ
  pub context : Option DebugRegisters
  -- The register ECX after CPUID with leaf 1.
  pub ecx : ℕ

abbrev pub holds {ℓ} : {A : Type ℓ} → (A → Bool) → Option A → Bool
holds test none = false
holds test (some a) = test a

unfoldable pub check_nt_query_info_process : Probes → Bool
check_nt_query_info_process p =
    holds
      (λ nt.
        holds (λ port. not (port == 0)) nt.debug_port
        || (holds (λ flags. flags == 0) nt.debug_flags
            || holds (λ object. not (object == 0)) nt.debug_object))
      p.nt_query

-- `NtGlobalFlag & 0x70`
unfoldable pub check_peb : Probes → Bool
check_peb p =
    holds (λ nt. holds (λ peb. not (peb.0 == 0) || not ((peb.1 / 16) % 8 == 0)) nt.peb) p.nt_query

-- The difference of two 64-bit numbers, more than 0xFFFFF.
unfoldable pub check_timing_delta : Probes → Bool
check_timing_delta p = ltb 1048575 ((p.t2 + 2 ^ 64 - p.t1) % 2 ^ 64)

unfoldable pub has_hardware_breakpoints : Probes → Bool
has_hardware_breakpoints p =
    holds
      (λ ctx.
        (not (ctx.dr0 == 0) || (not (ctx.dr1 == 0) || (not (ctx.dr2 == 0) || not (ctx.dr3 == 0))))
        && not (ctx.dr7 % 16 == 0))
      p.context

unfoldable pub is_debugged : Probes → Bool
unfolding check_nt_query_info_process check_peb check_timing_delta has_hardware_breakpoints
is_debugged p =
    if p.is_debugger_present
    then true
    else if holds (λ b. b) p.remote_debugger
    then true
    else if check_nt_query_info_process p || (check_peb p || check_timing_delta p)
    then true
    else has_hardware_breakpoints p

-- The bit 31 of ECX.
unfoldable pub is_virtualized : Probes → Bool
is_virtualized p = not ((p.ecx / 2 ^ 31) % 2 == 0)

unfoldable pub security_check : Probes → Bool
unfolding is_debugged is_virtualized
security_check p = is_debugged p || is_virtualized p
