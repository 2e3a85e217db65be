-- ===== src/Ui/Unlock/Opens.antt =====
-- When an attempt to unlock opens the vault.
use passx.Base.{
  Bool, Bool-cases, Bytes, Option, Option-cases, Result-cases, Text, [], arith, inl, inr, none, ok,
  refl, some, true, ℕ, ◌<◌, ◌^◌, ◌∷◌, ◌≡◌, ◌⊎◌,
}
use passx.Crypto.Cipher.RoundTrip.{secure_copy_all}
use passx.Vault.Format.{Platform, Vault, VaultMode}
use passx.Vault.Format.RoundTrip.{load_vault-save_vault}
use passx.Vault.Format.Save.{IsDraws}
use passx.Vault.Format.Wrap.{IsStored, PlatformLaws}
use passx.Ui.State.{SaveIo, saved, accounts_filter}
use passx.Ui.Model.{Rendering, generate_vault_entries}
use passx.Ui.Unlock.{Access, on_attempt_unlock, loaded}

module _ (p : Platform) (r : Rendering) (alloc : ℕ → ℕ → Bool) (pass_alloc : ℕ → Bool) where
  -- An attempt to unlock leaves the state as it is, unless the file at the vault's path could be
  -- opened exclusively and loads under the password: then the vault and the key in memory are those
  -- of the file, and the handle is open on it.
  pub on_attempt_unlock-cases :
      (exclusive_ok read_ok : Bool) (password : Text) (disk : Text → Option Bytes) (a : Access)
      → let s =
          (on_attempt_unlock p r alloc pass_alloc exclusive_ok read_ok password disk a).state in
        (s ≡ a.state)
        ⊎ ((path : Text) × (file : Bytes) × (v : Vault) × (key : Bytes) × (mode : VaultMode)
            × (a.state.vault_path ≡ some path)
            × (disk path ≡ some file)
            × (exclusive_ok ≡ true)
            × (loaded p r alloc pass_alloc read_ok file password ≡ ok (v, key, mode))
            × (s.vault ≡ some v)
            × (s.key ≡ some key)
            × (s.vault_file ≡ some path))
  unfolding on_attempt_unlock
  on_attempt_unlock-cases exclusive_ok read_ok password disk a =
      elim (Option-cases a.state.vault_path) [
        | inl none_set ↦ inl (ground arith)
        | inr (path, hp) ↦ elim (Option-cases (disk path)) [
          | inl missing ↦ inl (ground arith)
          | inr (file, hd) ↦ elim (Bool-cases exclusive_ok) [
            | inr locked ↦ inl (ground arith)
            | inl he ↦ elim (Result-cases (loaded p r alloc pass_alloc read_ok file password)) [
              | inr (e, failed) ↦ inl (ground arith)
              | inl (x, hl) ↦ inr (
                path,
                file,
                x.0,
                x.1,
                x.2,
                hp,
                hd,
                he,
                hl,
                ground arith,
                ground arith,
                ground arith,
              )
            ]
          ]
        ]
      ]

  -- A vault whose complete save lies at the vault's path opens under the password of the save, which
  -- is not empty, with the key of the save, in the view of its live accounts.
  pub on_attempt_unlock-saved :
      (laws : PlatformLaws p) (io : SaveIo) (c : ℕ) (cs : Text) (v : Vault) (key : Bytes)
      (path : Text) (disk : Text → Option Bytes) (a : Access)
      → ((i n : ℕ) → alloc i n ≡ true)
      → ((n : ℕ) → pass_alloc n ≡ true)
      → a.state.vault_path ≡ some path
      → IsDraws io.draws
      → IsStored v
      → v.sequence_number < 2 ^ 64
      → ((k : ℕ) → io.accept k ≡ none)
      → (saved p io v key v.mode (some (c ∷ cs))).0 ≡ ok tt
      → disk path ≡ some (saved p io v key v.mode (some (c ∷ cs))).1.written
      → let b = on_attempt_unlock p r alloc pass_alloc true true (c ∷ cs) disk a in
        (b.state.vault ≡ some v)
        × (b.state.key ≡ some key)
        × (b.state.password ≡ some (c ∷ cs))
        × (b.entries ≡ generate_vault_entries r v [] accounts_filter)
        × (b.error_message ≡ none)
  unfolding on_attempt_unlock
  on_attempt_unlock-saved laws io c cs v key path disk a free copies hp draws sound fits all done
        hd =
      let back =
        load_vault-save_vault p laws io.alloc alloc free io.accept io.draws v key v.mode
          (some (c ∷ cs)) draws sound refl fits all done in
      ground (arith, hp, hd, back, secure_copy_all pass_alloc (c ∷ cs) copies)
