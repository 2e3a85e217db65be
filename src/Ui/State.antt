-- ===== src/Ui/State.antt =====
-- src/ui/bridge/state.rs, and `save_vault_state` of src/ui/bridge/entries.rs. The exclusive file
-- handle is the path of the file that it is open on; `disk` has the contents of the files.
pub mod Saved
use passx.Base.{
  Result, Bool, Bytes, Option, Text, [], bytes_eq, err, if◌then◌else◌, map_err, none, not, some, ℕ,
  ◌∷◌,
}
use passx.Vault.Format.{Platform, Vault, VaultMode, VaultError, io_error}
use passx.Vault.Format.Save.{Draws, Sink, empty_sink, save_vault_to_writer}

pub record AppState : Type 0 where
  pub vault : Option Vault
  pub key : Option Bytes
  pub password : Option Bytes
  pub vault_path : Option Text
  -- The file that the exclusive handle is open on.
  pub vault_file : Option Text
  pub current_filter : Text
  pub current_search : Text

-- "accounts", "trash", "all", "favorites", "totp"
abbrev pub accounts_filter : Text
accounts_filter = b'a' ∷ b'c' ∷ b'c' ∷ b'o' ∷ b'u' ∷ b'n' ∷ b't' ∷ b's' ∷ []

abbrev pub trash_filter : Text
trash_filter = b't' ∷ b'r' ∷ b'a' ∷ b's' ∷ b'h' ∷ []

abbrev pub all_filter : Text
all_filter = b'a' ∷ b'l' ∷ b'l' ∷ []

abbrev pub favorites_filter : Text
favorites_filter = b'f' ∷ b'a' ∷ b'v' ∷ b'o' ∷ b'r' ∷ b'i' ∷ b't' ∷ b'e' ∷ b's' ∷ []

abbrev pub totp_filter : Text
totp_filter = b't' ∷ b'o' ∷ b't' ∷ b'p' ∷ []

abbrev pub new_state : AppState
new_state = record {
  vault = none;
  key = none;
  password = none;
  vault_path = none;
  vault_file = none;
  current_filter = accounts_filter;
  current_search = [];
}

pub record Device : Type 0 where
  pub state : AppState
  pub disk : Text → Option Bytes

-- The outcomes of the calls of one save.
pub record SaveIo : Type 0 where
  pub seek_ok : Bool
  pub truncate_ok : Bool
  pub create_ok : Bool
  pub accept : ℕ → Option ℕ
  pub draws : Draws
  pub alloc : ℕ → ℕ → Bool

pub data SaveError : Type 0 where
  seek_failed truncate_failed no_vault no_vault_or_path : SaveError
  format_error : VaultError → SaveError

unfoldable pub write_file : (Text → Option Bytes) → Text → Bytes → Text → Option Bytes
write_file disk path bytes q = if bytes_eq q path then some bytes else disk q

module _ (p : Platform) (io : SaveIo) where
  abbrev pub saved : Vault → Bytes → VaultMode → Option Bytes → Result VaultError (Unit {0}) × Sink
  saved vault key mode pass =
      save_vault_to_writer p io.alloc io.accept io.draws empty_sink vault key mode pass

  -- `seek`, `set_len(0)` and `save_vault_to_writer` on the exclusive handle: the result and the disk.
  unfoldable pub rewrite_file :
      (Text → Option Bytes)
      → Text
      → Vault
      → Bytes
      → VaultMode
      → Option Bytes
      → Result SaveError (Unit {0}) × (Text → Option Bytes)
  rewrite_file disk file vault key mode pass =
      if not io.seek_ok
      then (err seek_failed, disk)
      else if not io.truncate_ok
      then (err truncate_failed, disk)
      else (
        map_err format_error (saved vault key mode pass).0,
        write_file disk file (saved vault key mode pass).1.written,
      )

  -- `format::save_vault`: `File::create` truncates, and then the vault is written.
  unfoldable pub save_vault :
      (Text → Option Bytes)
      → Text
      → Vault
      → Bytes
      → VaultMode
      → Option Bytes
      → Result VaultError (Unit {0}) × (Text → Option Bytes)
  save_vault disk path vault key mode pass = if not io.create_ok then (err io_error, disk) else (
    (saved vault key mode pass).0,
    write_file disk path (saved vault key mode pass).1.written,
  )

  save_through_handle :
      Text → Device → Bytes → VaultMode → Option Bytes → Result SaveError (Unit {0}) × Device
  unfolding rewrite_file
  save_through_handle file d key mode pass = elim d.state.vault [
    | none ↦ (err no_vault, d)
    | some vault ↦
        let r = rewrite_file d.disk file vault key mode pass in (r.0, record d { disk = r.1 })
  ]

  save_by_path : Device → Bytes → VaultMode → Option Bytes → Result SaveError (Unit {0}) × Device
  unfolding save_vault
  save_by_path d key mode pass = elim d.state.vault [
    | none ↦ (err no_vault_or_path, d)
    | some vault ↦ elim d.state.vault_path [
      | none ↦ (err no_vault_or_path, d)
      | some path ↦
          let r = save_vault d.disk path vault key mode pass in
          (map_err format_error r.0, record d { disk = r.1 })
    ]
  ]

  unfoldable pub save_vault_state :
      Device → Bytes → VaultMode → Option Bytes → Result SaveError (Unit {0}) × Device
  unfolding save_through_handle save_by_path
  save_vault_state d key mode pass = elim d.state.vault_file [
    | some file ↦ save_through_handle file d key mode pass
    | none ↦ save_by_path d key mode pass
  ]
