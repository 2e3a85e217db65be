-- ===== src/Ui/Vault/Creates.antt =====
-- src/ui/bridge/vault.rs: choosing, creating and opening a vault. A dialog's path and the random key
-- are arguments; a callback is one step with its thread. The preferences that are saved are left out.
pub mod Stale
use passx.Base.{
  Result, Bool, Bytes, List, Option, Text, [], err, if◌then◌else◌, none, ok, some, ℕ, ◌%◌,
}
use passx.Memory.Guard.View.{secure_copy}
use passx.Vault.Format.{Platform, Vault, VaultMode, VaultError, from_u8, new_vault}
use passx.Vault.Manager.{
  Places, ManagedIo, ManagedError, create_managed_vault, delete_managed_vault, get_vault_path,
}
use passx.Ui.State.{AppState, SaveIo, save_vault, accounts_filter}
use passx.Ui.Model.{Rendering, VaultEntryModel, generate_vault_entries}
use passx.Ui.Entries.{is_empty_text}
use passx.Ui.Vault.{optional_pass, kept_pass}

pub data CreateError : Type 0 where
  invalid_mode password_required no_location allocation_failed : CreateError
  save_failed : VaultError → CreateError
  creation_failed : ManagedError → CreateError

-- The state, the disk, and the parts of the window that these callbacks set.
pub record Start : Type 0 where
  pub state : AppState
  pub disk : Text → Option Bytes
  pub screen : ℕ
  pub message : Option CreateError
  pub shown_path : Text
  pub mirrors : List Text
  pub entries : List VaultEntryModel

-- A dialog that is cancelled gives no path.
unfoldable pub on_browse_for_new_vault : Option Text → Start → Start
on_browse_for_new_vault none a = a
on_browse_for_new_vault (some path) a = record a {
  state = record (a.state) { vault_path = some path };
  shown_path = path;
}

unfoldable pub on_browse_for_existing_vault : Option Text → Start → Start
on_browse_for_existing_vault none a = a
on_browse_for_existing_vault (some path) a = record a {
  state = record (a.state) { vault_path = some path };
  shown_path = path;
  screen = 2;
}

unfoldable pub on_open_managed_vault : Places → Text → Start → Start
unfolding get_vault_path
on_open_managed_vault pl name a = record a {
  state = record (a.state) { vault_path = some (get_vault_path pl name) };
  shown_path = get_vault_path pl name;
  screen = 2;
}

-- `mode_int as u8`
abbrev pub chosen_mode : ℕ → Option VaultMode
chosen_mode mode_int = from_u8 (mode_int % 256)

abbrev pub failed : CreateError → Start → Start
failed e a = record a { message = some e }

module _ (p : Platform) (io : SaveIo) (r : Rendering) (alloc : ℕ → ℕ → Bool) where
  -- What a new vault makes of the state and the window; the file handle stays what it is.
  abbrev pub with_new_vault : Vault → Bytes → Option Bytes → Start → Start
  with_new_vault vault master_key password a = record a {
    state = record (a.state) {
      vault = some vault;
      key = some master_key;
      password = password;
      current_search = [];
      current_filter = accounts_filter;
    };
    screen = 3;
    message = none;
    entries = generate_vault_entries r vault [] accounts_filter;
  }

  abbrev after_new_vault :
      Vault → Bytes → Text → Result VaultError (Unit {0}) × (Text → Option Bytes) → Start → Start
  after_new_vault vault master_key password (err e, disk) a =
      failed (save_failed e) (record a { disk = disk })
  after_new_vault vault master_key password (ok _, disk) a =
      with_new_vault vault master_key (kept_pass (alloc 1) password) (record a { disk = disk })

  unfoldable pub on_create_new_vault_confirmed : ℕ → Bytes → Text → ℕ → Start → Start
  unfolding from_u8 secure_copy save_vault
  on_create_new_vault_confirmed now key_bytes password mode_int a = elim (chosen_mode mode_int) [
    | none ↦ failed invalid_mode a
    | some mode ↦
        if is_empty_text password then failed password_required a else elim a.state.vault_path [
          | none ↦ failed no_location a
          | some path ↦ elim (secure_copy (alloc 0) key_bytes) [
            | none ↦ failed allocation_failed a
            | some master_key ↦
                let vault = new_vault mode now in
                after_new_vault vault master_key password
                  (save_vault p io a.disk path vault master_key mode (optional_pass password)) a
          ]
        ]
  ]

  abbrev after_managed :
      Bytes
      → Text
      → Result ManagedError (Vault × Text × Text) × (Text → Option Bytes)
      → Start
      → Start
  after_managed master_key password (err e, disk) a =
      failed (creation_failed e) (record a { disk = disk })
  after_managed master_key password (ok (vault, file, path), disk) a = record a {
    state = record (a.state) {
      vault = some vault;
      key = some master_key;
      password = kept_pass (alloc 1) password;
      vault_path = some path;
      vault_file = some file;
    };
    disk = disk;
    screen = 3;
    mirrors = [];
    entries = generate_vault_entries r vault [] accounts_filter;
  }

  -- `none` is the panic of a key that cannot be allocated.
  unfoldable pub on_create_managed_vault :
      Places → ManagedIo → ℕ → Bytes → Text → Text → ℕ → Start → Option Start
  unfolding from_u8 secure_copy create_managed_vault
  on_create_managed_vault pl mio now key_bytes name password mode_int a =
      elim (chosen_mode mode_int) [
        | none ↦ some (failed invalid_mode a)
        | some mode ↦ elim (secure_copy (alloc 0) key_bytes) [
          | none ↦ none
          | some master_key ↦ some (
              after_managed master_key password
                (create_managed_vault p io pl mio now name (optional_pass password) mode master_key
                  a.disk)
                a)
        ]
      ]

unfoldable pub on_delete_managed_vault : Places → ManagedIo → Text → Start → Start
unfolding delete_managed_vault
on_delete_managed_vault pl mio name a = record a {
  disk = (delete_managed_vault pl mio name a.disk).1;
}
