-- ===== src/Ui/State/Saved.antt =====
-- What `save_vault_state` of src/ui/bridge/entries.rs leaves in memory and in the file.
use passx.Base.{
  Bool, Bytes, Option, Text, [], arith, bytes_eq_refl, err, inl, inr, is_some, none, ok, refl, some,
  true, unwrap_or, ℕ, ◌<◌, ◌^◌, ◌≡◌, ◌⊎◌,
}
use passx.Vault.Format.Save.{IsDraws, prepare, wrap_key, save_vault_to_writer}
use passx.Vault.Format.Load.{load_vault_from_reader}
use passx.Vault.Format.RoundTrip.{load_vault-save_vault}
use passx.Vault.Format.Wrap.{PlatformLaws, IsStored}
use passx.Vault.Format.{
  Platform, Vault, VaultMode, VaultError, device_bound, portable, missing_password,
}
use passx.Ui.State.{Device, SaveIo, format_error, save_vault_state, write_file, saved}

-- The file that a save goes to: the exclusive handle's, or the one at the path.
abbrev pub vault_file_of : Device → Option Bytes
vault_file_of d = elim d.state.vault_file [
  | some file ↦ d.disk file
  | none ↦ elim d.state.vault_path [ some path ↦ d.disk path | none ↦ none ]
]

module _ (p : Platform) (io : SaveIo) where
  -- A save changes neither the vault in memory nor its secrets nor the view, whatever fails.
  pub save_vault_state-memory :
      (d : Device) (key : Bytes) (mode : VaultMode) (pass : Option Bytes)
      → let s = (save_vault_state p io d key mode pass).1.state in
        (s.vault ≡ d.state.vault)
        × (s.key ≡ d.state.key)
        × (s.password ≡ d.state.password)
        × (s.vault_path ≡ d.state.vault_path)
        × (s.current_filter ≡ d.state.current_filter)
        × (s.current_search ≡ d.state.current_search)
        × (is_some s.vault_file ≡ is_some d.state.vault_file)
  unfolding save_vault_state
  save_vault_state-memory d key mode pass = ground arith

  -- Without a password nothing can be wrapped, whatever the mode.
  prepare_no_password :
      (v : Vault) (key : Bytes) (mode : VaultMode)
      → prepare p io.alloc io.draws v key mode none ≡ err missing_password
  unfolding prepare wrap_key
  prepare_no_password v key device_bound = refl
  prepare_no_password v key portable = refl

  -- A save through the exclusive handle empties the file before it computes what to write: when the
  -- vault cannot be encrypted, or no password is given, the error is reported and the file is left
  -- empty.
  pub save_vault_state_empties :
      (d : Device) (v : Vault) (file : Text) (key : Bytes) (mode : VaultMode) (pass : Option Bytes)
      (e : VaultError)
      → d.state.vault ≡ some v
      → d.state.vault_file ≡ some file
      → io.seek_ok ≡ true
      → io.truncate_ok ≡ true
      → (prepare p io.alloc io.draws v key mode pass ≡ err e)
        ⊎ ((pass ≡ none) × (e ≡ missing_password))
      → ((save_vault_state p io d key mode pass).0 ≡ err (format_error e))
        × (vault_file_of (save_vault_state p io d key mode pass).1 ≡ some [])
  unfolding save_vault_state save_vault_to_writer write_file
  save_vault_state_empties d v file key mode pass e hv hf hs ht cause =
      let failed : prepare p io.alloc io.draws v key mode pass ≡ err e = elim cause [
        | inl h ↦ h
        | inr (no_pass, missing) ↦ rw (no_pass, missing) (prepare_no_password v key mode)
      ] in
      ground (arith, bytes_eq_refl file)

  save_vault_state-eq-ok :
      (d : Device) (v : Vault) (key : Bytes) (mode : VaultMode) (pass : Option Bytes)
      → d.state.vault ≡ some v
      → (save_vault_state p io d key mode pass).0 ≡ ok tt
      → ((saved p io v key mode pass).0 ≡ ok tt)
        × (vault_file_of (save_vault_state p io d key mode pass).1
            ≡ some (saved p io v key mode pass).1.written)
  unfolding save_vault_state write_file
  save_vault_state-eq-ok d v key mode pass hv h = ground (
    arith,
    bytes_eq_refl (unwrap_or [] d.state.vault_path),
    bytes_eq_refl (unwrap_or [] d.state.vault_file),
  )

  module _ (laws : PlatformLaws p) (alloc' : ℕ → ℕ → Bool)
      (free : (i n : ℕ) → alloc' i n ≡ true) where
    -- After a save that reports success, when every write went through, the file at hand, that of
    -- the exclusive handle or else the one at the vault's path, loads to the vault in memory.
    pub save_vault_state-loads :
        (d : Device) (v : Vault) (key : Bytes) (pass : Option Bytes)
        → d.state.vault ≡ some v
        → IsDraws io.draws
        → IsStored v
        → v.sequence_number < 2 ^ 64
        → ((k : ℕ) → io.accept k ≡ none)
        → (save_vault_state p io d key v.mode pass).0 ≡ ok tt
        → load_vault_from_reader p alloc'
            (vault_file_of (save_vault_state p io d key v.mode pass).1)
            pass
          ≡ ok (v, key, v.mode)
    save_vault_state-loads d v key pass hv draws sound fits all h =
        let (done, file) = save_vault_state-eq-ok d v key v.mode pass hv h in
        rw file (
          load_vault-save_vault p laws io.alloc alloc' free io.accept io.draws v key v.mode pass
            draws sound refl fits all done)
