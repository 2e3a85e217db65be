-- ===== src/Startup.antt =====
-- src/main.rs: what the start of the program comes to. What each check asks of the machine is an
-- argument; the hardening calls between them answer nothing and stand in Security/Hardening.
pub mod Signed
pub mod Updates
use passx.Base.{Bool, Option, Text, false, if◌then◌else◌, is_some, none, not, some, true, ℕ, ◌&&◌}
use passx.Security.{Mutex, ensure_single_instance}
use passx.Security.Antivirus.{Csv, Output, check_antivirus_availability}
use passx.Runtime.{Signing, Executable, Response, verify_self_integrity}

-- The process exits with a code, or the window is opened, with whether there is a TPM.
pub data Launch : Type 0 where
  exits : ℕ → Launch
  opens : Bool → Launch

pub record Machine : Type 0 where
  pub is_admin : Bool
  pub relaunch_as_admin : Bool
  pub defender : Option Output
  pub others : Option Output
  pub products : Option Output
  pub global_mutex : Mutex
  pub local_mutex : Mutex
  -- A build for release asks for a debugger here.
  pub is_release : Bool
  pub debugger_present : Bool
  pub executable : Option Executable
  pub response : Response
  pub tpm_available : Bool

module _ (c : Csv) (s : Signing) (trim : Text → Text) where
  abbrev pub after_integrity : Bool → Option Bool → Launch
  after_integrity tpm_available none = exits 13
  after_integrity tpm_available (some false) = exits 12
  after_integrity tpm_available (some true) = opens tpm_available

  unfoldable pub main : Machine → Launch
  unfolding check_antivirus_availability ensure_single_instance verify_self_integrity
  main m =
      if not m.is_admin
      then exits (if m.relaunch_as_admin then 0 else 10)
      else if is_some (check_antivirus_availability c m.defender m.others m.products)
      then exits 1
      else if not (ensure_single_instance m.global_mutex m.local_mutex)
      then exits 1
      else if m.is_release && m.debugger_present
      then exits 11
      else after_integrity m.tpm_available (verify_self_integrity s trim m.executable m.response)
