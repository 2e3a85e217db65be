-- ===== src/Vault/Manager.antt =====
-- src/vault/manager.rs: the vaults of the managed directory. The directory, `PathBuf::push`, and what
-- the standard library says of characters are parameters; the outcomes of the calls are arguments.
pub mod Created
pub mod Listing
use passx.Base.{
  Result, Bool, Bytes, List, Option, Text, [], any, bytes_eq, err, false, if◌then◌else◌, is_some,
  none, not, ok, take, true, ℕ, ◌&&◌, ◌++◌, ◌==◌, ◌||◌, ◌∷◌,
}
use passx.Vault.Format.{Platform, Vault, VaultMode, VaultError, new_vault}
use passx.Ui.State.{SaveIo, write_file, saved}

pub record Places : Type 0 where
  pub managed_vaults_dir : Text
  pub push : Text → Text → Text
  pub chars : Text → List ℕ
  pub is_alphanumeric : ℕ → Bool
  -- The file that CreateFileA opens for a path: it reads the bytes in the ANSI code page, while
  -- `exists` and `remove_file` of the standard library take them as UTF-8.
  pub ansi : Text → Text

pub data ManagedError : Type 0 where
  invalid_name directory_failed already_exists create_failed acl_failed reopen_failed : ManagedError
  initial_save_failed : VaultError → ManagedError

-- ".vault"
abbrev pub vault_suffix : Text
vault_suffix = b'.' ∷ b'v' ∷ b'a' ∷ b'u' ∷ b'l' ∷ b't' ∷ []

unfoldable pub get_vault_path : Places → Text → Text
get_vault_path pl name = pl.push pl.managed_vaults_dir (name ++ vault_suffix)

-- A character that a name may not have.
unfoldable pub is_invalid_char : Places → ℕ → Bool
is_invalid_char pl c = not (pl.is_alphanumeric c) && (not (c == b'_') && not (c == b'-'))

abbrev pub Disk : Type 0
Disk = Text → Option Bytes

unfoldable pub remove_file : Disk → Text → Text → Option Bytes
remove_file disk path q = if bytes_eq q path then none else disk q

-- The outcomes of the calls, the save apart.
pub record ManagedIo : Type 0 where
  pub init_ok : Bool
  pub create_ok : Bool
  pub acl_ok : Bool
  pub remove_ok : Bool
  pub reopen_ok : Bool

abbrev pub removed : ManagedIo → Disk → Text → Disk
removed io disk path = if io.remove_ok then remove_file disk path else disk

module _ (p : Platform) (save_io : SaveIo) (pl : Places) (io : ManagedIo) where
  -- From the created file on: the vault, the file of the handle, and the path.
  abbrev fill :
      ℕ
      → Text
      → Option Bytes
      → VaultMode
      → Bytes
      → Disk
      → Result ManagedError (Vault × Text × Text) × Disk
  fill now path password mode master_key disk =
      let vault = new_vault mode now in
      let r = saved p save_io vault master_key mode password in
      let handle = pl.ansi path in
      let disk' = write_file disk handle r.1.written in
      elim r.0 [
        | err e ↦ (err (initial_save_failed e), removed io disk' path)
        | ok _ ↦
            if not io.acl_ok
            then (err acl_failed, removed io disk' path)
            else if not io.reopen_ok
            then (err reopen_failed, disk')
            else (ok (vault, handle, path), disk')
      ]

  unfoldable pub create_managed_vault :
      ℕ
      → Text
      → Option Bytes
      → VaultMode
      → Bytes
      → Disk
      → Result ManagedError (Vault × Text × Text) × Disk
  unfolding get_vault_path is_invalid_char write_file remove_file
  create_managed_vault now name password mode master_key disk =
      if any (is_invalid_char pl) (pl.chars name)
      then (err invalid_name, disk)
      else if not io.init_ok
      then (err directory_failed, disk)
      else if is_some (disk (get_vault_path pl name))
      then (err already_exists, disk)
      else if not io.create_ok || is_some (disk (pl.ansi (get_vault_path pl name)))
      then (err create_failed, disk)
      else fill now (get_vault_path pl name) password mode master_key disk

module _ (pl : Places) (io : ManagedIo) where
  -- Whether it succeeds, and the disk; the name is not checked.
  unfoldable pub delete_managed_vault : Text → Disk → Bool × Disk
  unfolding get_vault_path remove_file
  delete_managed_vault name disk =
      if not (is_some (disk (get_vault_path pl name)))
      then (true, disk)
      else if not io.acl_ok
      then (false, disk)
      else if not io.remove_ok
      then (false, disk)
      else (true, remove_file disk (get_vault_path pl name))
