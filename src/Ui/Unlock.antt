-- ===== src/Ui/Unlock.antt =====
-- `on_attempt_unlock` of src/ui/bridge/vault.rs. `exclusive_ok` says whether the file can be opened
-- exclusively, `read_ok` whether it can be read; the preferences that are saved are left out. The
-- path is one that the ANSI call of the exclusive opening reads as it is.
pub mod Opens
use passx.Base.{
  Result, Bool, Bytes, List, Option, Text, [], err, if◌then◌else◌, none, not, ok, some, ℕ,
}
use passx.Memory.Guard.View.{secure_copy}
use passx.Vault.Format.{Platform, Vault, VaultMode, VaultError}
use passx.Vault.Format.Load.{load_vault_from_reader}
use passx.Ui.State.{AppState, accounts_filter}
use passx.Ui.Model.{Rendering, VaultEntryModel, generate_vault_entries}
use passx.Ui.Vault.{optional_pass, kept_pass}

pub data UnlockError : Type 0 where
  file_not_found open_failed : UnlockError
  unlock_failed : VaultError → UnlockError

-- The state and the parts of the window that the callback sets.
pub record Access : Type 0 where
  pub state : AppState
  pub screen : ℕ
  pub error_message : Option UnlockError
  pub mirrors : List Text
  pub entries : List VaultEntryModel

module _ (p : Platform) (r : Rendering) (alloc : ℕ → ℕ → Bool) (pass_alloc : ℕ → Bool) where
  abbrev pub refused : UnlockError → Access → Access
  refused e a = record a { error_message = some e }

  -- What a load that succeeded makes of the state and the window.
  abbrev pub opened : Vault → Bytes → Text → Text → Access → Access
  opened vault master_key password path a = record {
    state = record (a.state) {
      vault = some vault;
      key = some master_key;
      password = kept_pass pass_alloc password;
      current_search = [];
      current_filter = accounts_filter;
      vault_file = some path;
    };
    screen = 3;
    error_message = none;
    mirrors = vault.mirrors;
    entries = generate_vault_entries r vault [] accounts_filter;
  }

  abbrev pub loaded : Bool → Bytes → Text → Result VaultError (Vault × Bytes × VaultMode)
  loaded read_ok file password =
      load_vault_from_reader p alloc (if read_ok then some file else none) (optional_pass password)

  unfoldable pub on_attempt_unlock : Bool → Bool → Text → (Text → Option Bytes) → Access → Access
  on_attempt_unlock exclusive_ok read_ok password disk a = elim a.state.vault_path [
    | none ↦ record a { screen = 0 }
    | some path ↦ elim (disk path) [
      | none ↦ refused file_not_found a
      | some file ↦
          if not exclusive_ok then refused open_failed a else elim (loaded read_ok file password) [
            | err e ↦ refused (unlock_failed e) a
            | ok (vault, master_key, mode) ↦ opened vault master_key password path a
          ]
    ]
  ]
