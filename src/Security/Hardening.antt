-- ===== src/Security/Hardening.antt =====
-- The hardening calls of src/security/mod.rs, src/security/anti_injection.rs, src/security/admin.rs and
-- src/runtime/sandbox.rs. What Windows answers is an argument; what the code asks of it is a list.
use passx.Base.{
  Bool, Bytes, List, Option, Text, [], ap, false, if◌then◌else◌, ltb, none, not, refl, some, true,
  ℕ, ◌%◌, ◌++◌, ◌+◌, ◌==◌, ◌^◌, ◌∙◌, ◌∷◌, ◌≡◌,
}
use passx.Runtime.{LoadedModule, get_current_memory_hash}

-- The functions that are looked up by name.
pub data Export : Type 0 where
  convert_string_security_descriptor set_kernel_object_security local_free : Export
  nt_set_information_thread ldr_register_dll_notification nt_query_information_thread : Export

pub data Library : Type 0 where
  advapi32 kernel32 ntdll : Library

pub record Modules : Type 0 where
  pub get_module_handle : Library → Option ℕ
  pub is_invalid : ℕ → Bool
  pub get_proc_address : ℕ → Export → Option ℕ

pub data Call : Type 0 where
  -- The information and the descriptor.
  sets_security : ℕ → ℕ → Call
  frees : ℕ → Call
  -- The class.
  sets_thread_information : ℕ → Call

-- `INIT`, `BASELINE_HASH`, and the policies that were asked for.
pub record Hardened : Type 0 where
  pub called : Bool
  pub baseline : Option Bytes
  pub policies : List (ℕ × ℕ)

abbrev pub not_hardened : Hardened
not_hardened = record { called = false; baseline = none; policies = [] }

-- ProcessImageLoadPolicy, ProcessChildProcessPolicy and ProcessStrictHandleCheckPolicy by their
-- numbers, then the two that the code numbers itself.
abbrev pub requested_policies : List (ℕ × ℕ)
requested_policies = (10, 3) ∷ (13, 1) ∷ (3, 3) ∷ (8, 1) ∷ (5, 1) ∷ []

-- `OnceLock::set`
abbrev set_once : Option Bytes → Option Bytes → Option Bytes
set_once (some old) new = some old
set_once none new = new

module _ (sha256 : Bytes → Bytes) (section_name : Bytes → Text) where
  -- Each call of Windows is let fail.
  unfoldable pub enable_process_mitigation_policies : Option LoadedModule → Hardened → Hardened
  enable_process_mitigation_policies loaded h = if h.called then h else record {
    called = true;
    baseline = set_once h.baseline (get_current_memory_hash sha256 section_name loaded);
    policies = h.policies ++ requested_policies;
  }

  abbrev enable_all : List (Option LoadedModule) → Hardened → Hardened
  enable_all [] h = h
  enable_all (loaded ∷ later) h = enable_all later (enable_process_mitigation_policies loaded h)

  enabled_again :
      (loaded : Option LoadedModule) (h : Hardened)
      → h.called ≡ true
      → enable_process_mitigation_policies loaded h ≡ h
  unfolding enable_process_mitigation_policies
  enabled_again loaded h done =
      ap
        (λ b. if b then h else record {
          called = true;
          baseline = set_once h.baseline (get_current_memory_hash sha256 section_name loaded);
          policies = h.policies ++ requested_policies;
        })
        done

  enable_all-called :
      (later : List (Option LoadedModule)) (h : Hardened) → h.called ≡ true → enable_all later h ≡ h
  enable_all-called [] h done = refl
  enable_all-called (loaded ∷ later) h done =
      ap (enable_all later) (enabled_again loaded h done) ∙ enable_all-called later h done

  -- However often the policies are enabled, the hash that the monitor compares with is that of the
  -- module at the first time.
  enable_all-baseline :
      (loaded : Option LoadedModule) (later : List (Option LoadedModule))
      → (enable_all (loaded ∷ later) not_hardened).baseline
        ≡ get_current_memory_hash sha256 section_name loaded
  unfolding enable_process_mitigation_policies
  enable_all-baseline loaded later =
      ap (λ h. h.baseline)
        (enable_all-called later (enable_process_mitigation_policies loaded not_hardened) refl)

abbrev and_then : {A B : Type 0} → Option A → (A → Option B) → Option B
and_then none next = none
and_then (some a) next = next a

abbrev handle_of : Modules → Library → Option ℕ
handle_of ms library = elim (ms.get_module_handle library) [
  | none ↦ none
  | some handle ↦ if ms.is_invalid handle then none else some handle
]

abbrev security_calls : Option ℕ → List Call
security_calls none = []
security_calls (some sd) = sets_security 4 sd ∷ frees sd ∷ []

abbrev thread_calls : Option ℕ → List Call
thread_calls none = []
thread_calls (some func_ptr) = sets_thread_information 17 ∷ []

-- The last argument is what "D:P" converts to.
unfoldable pub restrict_process_access : Modules → Option ℕ → List Call
restrict_process_access ms converted = security_calls (
    and_then (handle_of ms advapi32) (λ advapi. and_then (handle_of ms kernel32) (λ kernel.
      and_then (ms.get_proc_address advapi convert_string_security_descriptor) (λ convert_fn_ptr.
        and_then (ms.get_proc_address advapi set_kernel_object_security) (λ set_fn_ptr.
          and_then (ms.get_proc_address kernel local_free) (λ free_fn_ptr. converted))))))

unfoldable pub harden_current_thread : Modules → List Call
harden_current_thread ms =
    thread_calls (
      and_then (handle_of ms ntdll)
        (λ handle. ms.get_proc_address handle nt_set_information_thread))

-- Whether the callback is registered: the status of the call is not negative.
unfoldable pub register_dll_notification : Modules → Bool → Bool
register_dll_notification ms status_ok =
    elim (and_then (ms.get_module_handle ntdll)
      (λ handle. ms.get_proc_address handle ldr_register_dll_notification)) [
        | none ↦ false
        | some func ↦ status_ok
      ]

-- The status and the address that the query fills in.
unfoldable pub get_thread_start_address : Modules → ℕ × ℕ → Option ℕ
get_thread_start_address ms (status, start_addr) = and_then (ms.get_module_handle ntdll) (λ handle.
    and_then (ms.get_proc_address handle nt_query_information_thread)
      (λ func_ptr. if status == 0 then some start_addr else none))

-- The length is cast to 32 bits.
unfoldable pub protect_memory : (ℕ → Bool) → ℕ → Bool
protect_memory crypt_protect_memory len = crypt_protect_memory (len % 2 ^ 32)

unfoldable pub unprotect_memory : (ℕ → Bool) → ℕ → Bool
unprotect_memory crypt_unprotect_memory len = crypt_unprotect_memory (len % 2 ^ 32)

-- `JOBOBJECT_BASIC_LIMIT_INFORMATION::LimitFlags`
abbrev limit_flags : ℕ
limit_flags = 8192 + 1024

-- `none` is a job that cannot be created.
unfoldable pub enter_sandbox : (ℕ → Bool) → Option ℕ → (ℕ → ℕ → Bool) → (ℕ → Bool) → Bool
enter_sandbox is_invalid none set_limits assign = false
enter_sandbox is_invalid (some job) set_limits assign =
    if is_invalid job then false else if not (set_limits job limit_flags) then false else assign job

-- What ShellExecuteW is asked for.
pub record Shell : Type 0 where
  pub file : Text
  pub parameters : Option Text

abbrev pub joined_args : List Text → Text
joined_args [] = []
joined_args (arg ∷ []) = arg
joined_args (arg ∷ next ∷ args) = arg ++ (b' ' ∷ joined_args (next ∷ args))

-- No pointer where there are no arguments.
abbrev shell_parameters : List Text → Option Text
shell_parameters [] = none
shell_parameters (arg ∷ args) = some (joined_args (arg ∷ args))

-- The arguments are those after the first; an executable without a path is an empty one.
unfoldable pub relaunch_as_admin : (Shell → ℕ) → Option Text → List Text → Bool
relaunch_as_admin shell_execute current_exe args = ltb 32 (
    shell_execute (record {
      file = elim current_exe [ some path ↦ path | none ↦ [] ];
      parameters = shell_parameters args;
    }))

-- Two arguments are relaunched as one argument with a space would be.
relaunch_as_admin_merges :
    (shell_execute : Shell → ℕ) (exe : Option Text) (a b : Text)
    → relaunch_as_admin shell_execute exe (a ∷ b ∷ [])
      ≡ relaunch_as_admin shell_execute exe ((a ++ (b' ' ∷ b)) ∷ [])
unfolding relaunch_as_admin
relaunch_as_admin_merges shell_execute exe a b = refl
