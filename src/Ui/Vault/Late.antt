-- ===== src/Ui/Vault/Late.antt =====
-- A sync of the mirrors (src/ui/bridge/vault.rs) that ends after the vault was locked and another one
-- was unlocked.
use passx.Base.{
  Bool, Bytes, Option, Option-cases, Result-cases, Text, arith, bytes_eq, false, inl, inr, refl,
  some, subst, sym, true, ℕ, ◌∙◌, ◌≡◌,
}
use passx.Vault.Format.{Platform, Vault, VaultMode}
use passx.Ui.State.{AppState, SaveIo, save_vault_state, saved}
use passx.Ui.Model.{Rendering}
use passx.Ui.Unlock.{Access, loaded, on_attempt_unlock}
use passx.Ui.Vault.{lock_vault, return_if_open}
use passx.Ui.Vault.Sync.{SyncTaken, take_mirrors}
use passx.Ui.Vault.Creates.Stale.{save_vault_state_into}

take_mirrors_held :
    (s s' : AppState) (t : SyncTaken) (f : Text)
    → take_mirrors s ≡ some (t, s')
    → s.vault_file ≡ some f
    → t.file ≡ some f
unfolding take_mirrors
take_mirrors_held s s' t f taken held = ground arith

return_if_open-some :
    (f : Text) (s : AppState) (w : Vault)
    → s.vault ≡ some w
    → (return_if_open (some f) s).vault_file ≡ some f
return_if_open-some f s w opened = rw opened refl

return_if_open-vault : (file : Option Text) (s : AppState) → (return_if_open file s).vault ≡ s.vault
return_if_open-vault file s = ground arith

return_if_open-path :
    (file : Option Text) (s : AppState) → (return_if_open file s).vault_path ≡ s.vault_path
return_if_open-path file s = ground arith

module _ (p : Platform) (r : Rendering) (alloc : ℕ → ℕ → Bool) (pass_alloc : ℕ → Bool) where
  -- The state after another vault, at a path, is unlocked in a state that was locked.
  abbrev pub unlocked_at : Text → Text → (Text → Option Bytes) → Access → AppState → AppState
  unlocked_at path password disk a s =
      (on_attempt_unlock p r alloc pass_alloc true true password disk
        (record a { state = record (lock_vault s) { vault_path = some path } })).state

  unlocked_at_lem :
      (path password : Text) (disk : Text → Option Bytes) (a : Access) (s' : AppState) (w : Vault)
      → (unlocked_at path password disk a s').vault ≡ some w
      → ((unlocked_at path password disk a s').vault_file ≡ some path)
        × ((unlocked_at path password disk a s').vault_path ≡ some path)
  unfolding on_attempt_unlock lock_vault
  unlocked_at_lem path password disk a s' w opened = elim (Option-cases (disk path)) [
    | inl missing ↦ absurd (ground arith)
    | inr (file, there) ↦ elim (Result-cases (loaded p r alloc pass_alloc true file password)) [
      | inr (e, failed) ↦ absurd (ground arith)
      | inl (x, fine) ↦ (ground arith, ground arith)
    ]
  ]

  -- A sync takes the handle of one vault's file; that vault is locked, and another one, at another
  -- path, is unlocked, whose file its own handle is open on. Then the sync ends: the handle that it
  -- puts back is that of the first file, so a later save of the other vault, here with any change to
  -- it, replaces what the first file held, and the other vault's file does not change.
  pub sync_returns_to_other_vault :
      (io : SaveIo) (s s' : AppState) (t : SyncTaken) (f : Text) (path password : Text)
      (disk : Text → Option Bytes) (a : Access) (w changed : Vault) (key : Bytes) (mode : VaultMode)
      (pass : Option Bytes)
      → take_mirrors s ≡ some (t, s')
      → s.vault_file ≡ some f
      → bytes_eq path f ≡ false
      → (unlocked_at path password disk a s').vault ≡ some w
      → io.seek_ok ≡ true
      → io.truncate_ok ≡ true
      → let b = unlocked_at path password disk a s' in
        let late = return_if_open t.file b in
        let d' =
          (save_vault_state p io
            (record { state = record late { vault = some changed }; disk = disk })
            key
            mode
            pass).1 in
        (b.vault_file ≡ some path)
        × (late.vault ≡ some w)
        × (late.vault_path ≡ some path)
        × (d'.disk f ≡ some (saved p io changed key mode pass).1.written)
        × (d'.disk path ≡ disk path)
  sync_returns_to_other_vault io s s' t f path password disk a w changed key mode pass taken held
        apart opened seek trunc =
      let b = unlocked_at path password disk a s' in
      let late = return_if_open t.file b in
      let file : late.vault_file ≡ some f =
        subst (λ x. (return_if_open x b).vault_file ≡ some f)
          (sym (take_mirrors_held s s' t f taken held)) (return_if_open-some f b w opened) in
      let (written, untouched) =
        save_vault_state_into p io
          (record { state = record late { vault = some changed }; disk = disk }) changed f path key
          mode pass refl file seek trunc apart in
      let (own, at) = unlocked_at_lem path password disk a s' w opened in
      (
        own,
        return_if_open-vault t.file b ∙ opened,
        return_if_open-path t.file b ∙ at,
        written,
        untouched,
      )
