-- ===== src/Ui/Vault/Creates/Stale.antt =====
-- What `on_create_new_vault_confirmed` of src/ui/bridge/vault.rs leaves, and where later saves of the
-- new vault go.
use passx.Base.{
  Bool, Bytes, Option, Text, ap, arith, bytes_eq, bytes_eq_refl, false, none, ok, refl, some, true,
  ℕ, ◌∙◌, ◌∷◌, ◌≡◌,
}
use passx.Crypto.Cipher.RoundTrip.{secure_copy_all}
use passx.Vault.Format.{Platform, Vault, VaultMode, new_vault}
use passx.Vault.Format.Load.{load_vault_from_reader}
use passx.Vault.Format.RoundTrip.{load_vault-save_vault}
use passx.Vault.Format.Save.{IsDraws}
use passx.Vault.Format.Wrap.{PlatformLaws}
use passx.Ui.State.{Device, SaveIo, save_vault, saved, write_file, save_vault_state}
use passx.Ui.Model.{Rendering}
use passx.Ui.Vault.Creates.{Start, chosen_mode, on_create_new_vault_confirmed}

-- The program once the new vault has been changed in memory.
abbrev pub with_changed : Vault → Start → Device
with_changed changed b = record { state = record (b.state) { vault = some changed }; disk = b.disk }

pub save_vault_state_held :
    (p : Platform) (io : SaveIo) (d : Device) (v : Vault) (file : Text) (key : Bytes)
    (mode : VaultMode) (pass : Option Bytes)
    → d.state.vault ≡ some v
    → d.state.vault_file ≡ some file
    → io.seek_ok ≡ true
    → io.truncate_ok ≡ true
    → (save_vault_state p io d key mode pass).1.disk
      ≡ write_file d.disk file (saved p io v key mode pass).1.written
unfolding save_vault_state
save_vault_state_held p io d v file key mode pass hv hf seek trunc = ground arith

-- A save through the handle of one file writes that file, and leaves every other one.
pub save_vault_state_into :
    (p : Platform) (io : SaveIo) (d : Device) (v : Vault) (file q : Text) (key : Bytes)
    (mode : VaultMode) (pass : Option Bytes)
    → d.state.vault ≡ some v
    → d.state.vault_file ≡ some file
    → io.seek_ok ≡ true
    → io.truncate_ok ≡ true
    → bytes_eq q file ≡ false
    → let disk' = (save_vault_state p io d key mode pass).1.disk in
      (disk' file ≡ some (saved p io v key mode pass).1.written) × (disk' q ≡ d.disk q)
unfolding write_file
save_vault_state_into p io d v file q key mode pass hv hf seek trunc other =
    let made = save_vault_state_held p io d v file key mode pass hv hf seek trunc in
    (ap (λ f. f file) made ∙ rw (bytes_eq_refl file) refl, ap (λ f. f q) made ∙ rw other refl)

module _ (p : Platform) (io : SaveIo) (r : Rendering) (alloc : ℕ → ℕ → Bool) where
  on_create_new_vault_confirmed_lem :
      (now : ℕ) (k c : ℕ) (ks cs : Bytes) (mode_int : ℕ) (mode : VaultMode) (path : Text)
      (a : Start)
      → ((i n : ℕ) → alloc i n ≡ true)
      → chosen_mode mode_int ≡ some mode
      → a.state.vault_path ≡ some path
      → (save_vault p io a.disk path (new_vault mode now) (k ∷ ks) mode (some (c ∷ cs))).0 ≡ ok tt
      → let b = on_create_new_vault_confirmed p io r alloc now (k ∷ ks) (c ∷ cs) mode_int a in
        (b.state.vault ≡ some (new_vault mode now))
        × (b.state.key ≡ some (k ∷ ks))
        × (b.state.password ≡ some (c ∷ cs))
        × (b.state.vault_path ≡ some path)
        × (b.state.vault_file ≡ a.state.vault_file)
        × (b.disk
            ≡ (save_vault p io a.disk path (new_vault mode now) (k ∷ ks) mode (some (c ∷ cs))).1)
  unfolding on_create_new_vault_confirmed
  on_create_new_vault_confirmed_lem now k c ks cs mode_int mode path a free chosen located wrote =
      ground (
        arith,
        secure_copy_all (alloc 0) (k ∷ ks) (free 0),
        secure_copy_all (alloc 1) (c ∷ cs) (free 1),
      )

  save_vault-eq-ok :
      (disk : Text → Option Bytes) (path : Text) (v : Vault) (key : Bytes) (mode : VaultMode)
      (pass : Option Bytes)
      → (save_vault p io disk path v key mode pass).0 ≡ ok tt
      → ((saved p io v key mode pass).0 ≡ ok tt)
        × ((save_vault p io disk path v key mode pass).1 path
            ≡ some (saved p io v key mode pass).1.written)
  unfolding save_vault write_file
  save_vault-eq-ok disk path v key mode pass wrote = ground (arith, bytes_eq_refl path)

  -- A new vault is created at a path while a file handle of another file is still in the state. The
  -- handle stays, so a later save of the new vault, here with any change to it, replaces what the
  -- other file held, and the file at the new vault's path stays as it was created.
  pub create_over_stale_handle :
      (now : ℕ) (k c : ℕ) (ks cs : Bytes) (mode_int : ℕ) (mode : VaultMode) (path : Text)
      (a : Start) (old : Text) (io' : SaveIo) (changed : Vault) (key : Bytes) (pass : Option Bytes)
      → ((i n : ℕ) → alloc i n ≡ true)
      → chosen_mode mode_int ≡ some mode
      → a.state.vault_path ≡ some path
      → a.state.vault_file ≡ some old
      → bytes_eq path old ≡ false
      → (save_vault p io a.disk path (new_vault mode now) (k ∷ ks) mode (some (c ∷ cs))).0 ≡ ok tt
      → io'.seek_ok ≡ true
      → io'.truncate_ok ≡ true
      → let b = on_create_new_vault_confirmed p io r alloc now (k ∷ ks) (c ∷ cs) mode_int a in
        let d' = (save_vault_state p io' (with_changed changed b) key mode pass).1 in
        (b.state.vault_path ≡ some path)
        × (b.disk path
            ≡ some (saved p io (new_vault mode now) (k ∷ ks) mode (some (c ∷ cs))).1.written)
        × (d'.disk old ≡ some (saved p io' changed key mode pass).1.written)
        × (d'.disk path ≡ b.disk path)
  create_over_stale_handle now k c ks cs mode_int mode path a old io' changed key pass free chosen
        located stale other wrote seek trunc =
      let b = on_create_new_vault_confirmed p io r alloc now (k ∷ ks) (c ∷ cs) mode_int a in
      let (_, _, _, at, kept, disk) =
        on_create_new_vault_confirmed_lem now k c ks cs mode_int mode path a free chosen located
          wrote in
      let (_, there) =
        save_vault-eq-ok a.disk path (new_vault mode now) (k ∷ ks) mode (some (c ∷ cs)) wrote in
      let (into, untouched) =
        save_vault_state_into p io' (with_changed changed b) changed old path key mode pass refl
          (kept ∙ stale) seek trunc other in
      (at, ap (λ d. d path) disk ∙ there, into, untouched)

  module _ (laws : PlatformLaws p) (alloc' : ℕ → ℕ → Bool)
      (free' : (i n : ℕ) → alloc' i n ≡ true) where
    -- A new vault that is saved, with every write that was made, is open in memory with its key and
    -- password, and the file at the chosen path loads under the password to it.
    on_create_new_vault_confirmed-loads :
        (now : ℕ) (k c : ℕ) (ks cs : Bytes) (mode_int : ℕ) (mode : VaultMode) (path : Text)
        (a : Start)
        → ((i n : ℕ) → alloc i n ≡ true)
        → chosen_mode mode_int ≡ some mode
        → a.state.vault_path ≡ some path
        → IsDraws io.draws
        → ((n : ℕ) → io.accept n ≡ none)
        → (save_vault p io a.disk path (new_vault mode now) (k ∷ ks) mode (some (c ∷ cs))).0 ≡ ok tt
        → let b = on_create_new_vault_confirmed p io r alloc now (k ∷ ks) (c ∷ cs) mode_int a in
          (b.state.vault ≡ some (new_vault mode now))
          × (b.state.key ≡ some (k ∷ ks))
          × (b.state.password ≡ some (c ∷ cs))
          × (load_vault_from_reader p alloc' (b.disk path) (some (c ∷ cs))
              ≡ ok (new_vault mode now, k ∷ ks, mode))
    on_create_new_vault_confirmed-loads now k c ks cs mode_int mode path a free chosen located draws
          all wrote =
        let (vault, key, pass, _, _, disk) =
          on_create_new_vault_confirmed_lem now k c ks cs mode_int mode path a free chosen located
            wrote in
        let (complete, there) =
          save_vault-eq-ok a.disk path (new_vault mode now) (k ∷ ks) mode (some (c ∷ cs)) wrote in
        (
          vault,
          key,
          pass,
          ap (λ f. load_vault_from_reader p alloc' f (some (c ∷ cs)))
                (ap (λ d. d path) disk ∙ there)
              ∙ load_vault-save_vault p laws io.alloc alloc' free' io.accept io.draws
                  (new_vault mode now) (k ∷ ks) mode (some (c ∷ cs)) draws
                  (record { accounts_stored = tt; totps_stored = tt }) refl (omega arith) all
                  complete,
        )
