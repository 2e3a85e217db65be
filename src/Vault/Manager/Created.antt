-- ===== src/Vault/Manager/Created.antt =====
-- What `create_managed_vault` of src/vault/manager.rs leaves on the disk.
use passx.Base.{
  Bool, Bool-cases, Bytes, Option, Option-cases, Text, any, ap, arith, bytes_eq, bytes_eq_refl,
  bytes_eq→eq, err, false, inl, inr, none, ok, refl, some, true, ℕ, ◌∙◌, ◌≡◌, ◌⊎◌,
}
use passx.Vault.Format.{Platform, Vault, VaultMode, new_vault}
use passx.Vault.Format.Load.{load_vault_from_reader}
use passx.Vault.Format.RoundTrip.{load_vault-save_vault}
use passx.Vault.Format.Save.{IsDraws}
use passx.Vault.Format.Wrap.{PlatformLaws}
use passx.Ui.State.{SaveIo, write_file, saved}
use passx.Vault.Manager.{
  Places, ManagedIo, ManagedError, reopen_failed, Disk, remove_file, get_vault_path,
  is_invalid_char, removed, create_managed_vault,
}

removed-write_file :
    (io : ManagedIo) (disk : Disk) (path q : Text) (bytes : Bytes)
    → io.remove_ok ≡ true
    → disk path ≡ none
    → removed io (write_file disk path bytes) path q ≡ disk q
unfolding write_file remove_file
removed-write_file io disk path q bytes worked absent = elim (Bool-cases (bytes_eq q path)) [
  | inl same ↦
      let e : q ≡ path = bytes_eq→eq q path same in
      let gone : disk q ≡ none = ap disk e ∙ absent in rw (worked, same, gone) refl
  | inr other ↦ ground arith
]

module _ (p : Platform) (save_io : SaveIo) (pl : Places) (io : ManagedIo) where
  -- A creation that fails leaves the disk as it was, except that its file stays when it cannot be
  -- opened again at the end; files can be removed, and the ANSI calls read the path as it is.
  create_managed_vault-err :
      (now : ℕ) (name : Text) (password : Option Bytes) (mode : VaultMode) (master_key : Bytes)
      (disk : Disk) (q : Text) {e : ManagedError}
      → io.remove_ok ≡ true
      → pl.ansi (get_vault_path pl name) ≡ get_vault_path pl name
      → (create_managed_vault p save_io pl io now name password mode master_key disk).0 ≡ err e
      → (e ≡ reopen_failed)
        ⊎ ((create_managed_vault p save_io pl io now name password mode master_key disk).1 q
            ≡ disk q)
  unfolding create_managed_vault
  create_managed_vault-err now name password mode master_key disk q worked plain failed =
      let path = get_vault_path pl name in
      let bytes = (saved p save_io (new_vault mode now) master_key mode password).1.written in
      elim (Option-cases (disk path)) [
        | inr (old, there) ↦ ground arith
        | inl absent ↦ ground (arith, removed-write_file io disk path q bytes worked absent)
      ]

  create_managed_vault-eq-ok :
      (now : ℕ) (name : Text) (password : Option Bytes) (mode : VaultMode) (master_key : Bytes)
      (disk : Disk) {v : Vault} {file path : Text}
      → (create_managed_vault p save_io pl io now name password mode master_key disk).0
        ≡ ok (v, file, path)
      → let s = saved p save_io (new_vault mode now) master_key mode password in
        (v ≡ new_vault mode now)
        × (path ≡ get_vault_path pl name)
        × (file ≡ pl.ansi path)
        × (s.0 ≡ ok tt)
        × (disk path ≡ none)
        × (disk file ≡ none)
        × (any (is_invalid_char pl) (pl.chars name) ≡ false)
        × ((create_managed_vault p save_io pl io now name password mode master_key disk).1
            ≡ write_file disk file s.1.written)
  unfolding create_managed_vault
  create_managed_vault-eq-ok now name password mode master_key disk done = ground arith

  module _ (laws : PlatformLaws p) (alloc' : ℕ → ℕ → Bool)
      (free : (i n : ℕ) → alloc' i n ≡ true) where
    -- A managed vault that is created, with every write that was made, is empty and of the chosen
    -- mode; its name has no forbidden character; no file had its path, nor was there the file that
    -- CreateFileA opens for the path, which is that of the handle; this one loads under the password
    -- to the vault and its key, and no other file changed.
    pub create_managed_vault-loads :
        (now : ℕ) (name : Text) (password : Option Bytes) (mode : VaultMode) (master_key : Bytes)
        (disk : Disk) (q : Text) {v : Vault} {file path : Text}
        → IsDraws save_io.draws
        → ((k : ℕ) → save_io.accept k ≡ none)
        → bytes_eq q file ≡ false
        → (create_managed_vault p save_io pl io now name password mode master_key disk).0
          ≡ ok (v, file, path)
        → let disk' =
            (create_managed_vault p save_io pl io now name password mode master_key disk).1 in
          (v ≡ new_vault mode now)
          × (any (is_invalid_char pl) (pl.chars name) ≡ false)
          × (path ≡ get_vault_path pl name)
          × (file ≡ pl.ansi path)
          × (disk path ≡ none)
          × (disk file ≡ none)
          × (disk' q ≡ disk q)
          × (load_vault_from_reader p alloc' (disk' file) password ≡ ok (v, master_key, mode))
    unfolding write_file
    create_managed_vault-loads now name password mode master_key disk q {v} {file} {path} draws all
          other done =
        let (same, at, opened, wrote, absent, unopened, valid, after) =
          create_managed_vault-eq-ok now name password mode master_key disk done in
        let content = (saved p save_io (new_vault mode now) master_key mode password).1.written in
        let there : (create_managed_vault p save_io pl io now name password mode master_key disk).1
              file
            ≡ some content =
          ap (λ d. d file) after ∙ rw (bytes_eq_refl file) refl in
        (
          same,
          valid,
          at,
          opened,
          absent,
          unopened,
          ap (λ d. d q) after ∙ rw other refl,
          ap (λ f. load_vault_from_reader p alloc' f password) there
              ∙ rw same (
                  load_vault-save_vault p laws save_io.alloc alloc' free save_io.accept
                    save_io.draws (new_vault mode now) master_key mode password draws
                    (record { accounts_stored = tt; totps_stored = tt }) refl (omega arith) all
                    wrote),
        )
