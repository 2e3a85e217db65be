-- ===== src/Ui/Vault.antt =====
-- src/ui/bridge/vault.rs: locking, the master password and the mirrors. A callback takes the file
-- handle out of the state under the lock, saves outside it, and puts the handle back in a second
-- step, so that other callbacks can run in between. That the clones can be allocated is left open:
-- a clone that cannot be panics, which ends the callback where it takes the resources.
pub mod Finish
pub mod Loads
pub mod Creates
pub mod Sync
pub mod Late
pub mod Listed
use passx.Base.{
  Result, Bool, Bytes, List, Option, Text, [], bytes_eq, err, if◌then◌else◌, is_some, length, ltb,
  map_err, none, not, ok, some, suc, zero, ℕ, ◌++◌, ◌∷◌,
}
use passx.Memory.Guard.View.{secure_copy}
use passx.Vault.Format.{Platform, Vault, VaultMode}
use passx.Ui.State.{
  AppState, SaveIo, SaveError, format_error, no_vault_or_path, rewrite_file, save_vault,
}
use passx.Ui.Entries.{is_empty_text}

unfoldable pub lock_vault : AppState → AppState
lock_vault s = record s { key = none; password = none; vault = none; vault_file = none }

-- What a callback holds outside the lock.
pub record Taken : Type 0 where
  pub vault : Vault
  pub file : Option Text
  pub key : Bytes
  pub password : Option Bytes
  pub path : Option Text

-- The first step: without a vault or a key the callback ends.
unfoldable pub take_resources : AppState → Option (Taken × AppState)
take_resources s = elim s.vault [
  | none ↦ none
  | some v ↦ elim s.key [
    | none ↦ none
    | some k ↦ some (
      record {
        vault = v;
        file = s.vault_file;
        key = k;
        password = s.password;
        path = s.vault_path;
      },
      record s { vault_file = none },
    )
  ]
]

-- The outcome of the save outside the lock: its result, the handle, and the disk.
pub record Outcome : Type 0 where
  pub result : Result SaveError (Unit {0})
  pub file : Option Text
  pub disk : Text → Option Bytes

unfoldable pub save_outside :
    Platform → SaveIo → (Text → Option Bytes) → Taken → Vault → Option Bytes → Outcome
save_outside p io disk t vault pass = elim t.file [
  | some file ↦
      let r = rewrite_file p io disk file vault t.key t.vault.mode pass in
      record { result = r.0; file = some file; disk = r.1 }
  | none ↦ elim t.path [
    | none ↦ record { result = err no_vault_or_path; file = none; disk = disk }
    | some path ↦
        let r = save_vault p io disk path vault t.key t.vault.mode pass in
        record { result = map_err format_error r.0; file = none; disk = r.1 }
  ]
]

-- `if let Some(f) = file_opt { state.vault_file = Some(f) }`
abbrev pub return_file : Option Text → AppState → AppState
return_file none s = s
return_file (some f) s = record s { vault_file = some f }

abbrev pub return_if_open : Option Text → AppState → AppState
return_if_open file s = if is_some s.vault then return_file file s else s

-- The check of the old password, before anything is taken.
unfoldable pub accepts_old : (Bytes → Text) → Text → AppState → Bool
accepts_old from_utf8_lossy old s = elim s.password [
  | some p ↦ bytes_eq old (from_utf8_lossy p)
  | none ↦ is_empty_text old
]

abbrev pub optional_pass : Text → Option Bytes
optional_pass [] = none
optional_pass (c ∷ cs) = some (c ∷ cs)

-- The password as it is kept: none for an empty one, and none when its copy cannot be allocated.
abbrev pub kept_pass : (ℕ → Bool) → Text → Option Bytes
kept_pass alloc [] = none
kept_pass alloc (c ∷ cs) = secure_copy alloc (c ∷ cs)

-- The second step of `on_change_master_password`.
unfoldable pub finish_change_password : (ℕ → Bool) → Text → Outcome → AppState → AppState
finish_change_password alloc new_pass o s = elim o.result [
  | err _ ↦ return_file o.file s
  | ok _ ↦ record (return_if_open o.file s) { password = kept_pass alloc new_pass }
]

-- The second step of `on_add_mirror` and `on_remove_mirror`.
unfoldable pub finish_mirrors : Vault → Outcome → AppState → AppState
finish_mirrors vault o s = elim o.result [
  | err _ ↦ return_if_open o.file s
  | ok _ ↦ record (return_if_open o.file s) { vault = some vault }
]

unfoldable pub add_mirror : Text → Vault → Vault
add_mirror path v = record v { mirrors = v.mirrors ++ (path ∷ []) }

abbrev remove_at : ℕ → List Text → List Text
remove_at n [] = []
remove_at zero (x ∷ xs) = xs
remove_at (suc n) (x ∷ xs) = x ∷ remove_at n xs

-- `none` when the index is out of range; the index of the window is an `i32`, and a negative one is
-- out of range.
unfoldable pub remove_mirror : Option ℕ → Vault → Option Vault
remove_mirror none v = none
remove_mirror (some index) v =
    if ltb index (length v.mirrors)
    then some (record v { mirrors = remove_at index v.mirrors })
    else none

-- The callbacks when nothing comes in between.
module _ (p : Platform) (io : SaveIo) where
  unfoldable pub on_change_master_password :
      (Bytes → Text)
      → (ℕ → Bool)
      → Text
      → Text
      → AppState × (Text → Option Bytes)
      → AppState × (Text → Option Bytes)
  on_change_master_password from_utf8_lossy alloc old new_pass (s, disk) =
      if not (accepts_old from_utf8_lossy old s) then (s, disk) else elim (take_resources s) [
        | none ↦ (s, disk)
        | some (t, s') ↦
            let o = save_outside p io disk t t.vault (optional_pass new_pass) in
            (finish_change_password alloc new_pass o s', o.disk)
      ]

  unfoldable pub on_add_mirror :
      Text → AppState × (Text → Option Bytes) → AppState × (Text → Option Bytes)
  on_add_mirror path (s, disk) = elim (take_resources s) [
    | none ↦ (s, disk)
    | some (t, s') ↦
        let changed = add_mirror path t.vault in
        let o = save_outside p io disk t changed t.password in (finish_mirrors changed o s', o.disk)
  ]

  unfoldable pub on_remove_mirror :
      Option ℕ → AppState × (Text → Option Bytes) → AppState × (Text → Option Bytes)
  on_remove_mirror index (s, disk) = elim (take_resources s) [
    | none ↦ (s, disk)
    | some (t, s') ↦ elim (remove_mirror index t.vault) [
      | none ↦ (return_if_open t.file s', disk)
      | some changed ↦
          let o = save_outside p io disk t changed t.password in
          (finish_mirrors changed o s', o.disk)
    ]
  ]
