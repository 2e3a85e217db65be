-- ===== src/Ui/Vault/Finish.antt =====
-- What the second step of a callback does to a state that was changed, or locked, in between.
use passx.Base.{Result, Bool, Bytes, Option, Text, err, none, ok, refl, some, ℕ, ◌≡◌}
use passx.Ui.State.{AppState, SaveError}
use passx.Ui.Vault.{lock_vault, Outcome, kept_pass, finish_change_password}

finished :
    (alloc : ℕ → Bool) (new_pass : Text) (r : Result SaveError (Unit {0})) (file : Option Text)
    (disk : Text → Option Bytes) (now : AppState)
    → let o : Outcome = record { result = r; file = file; disk = disk } in
      let s = finish_change_password alloc new_pass o (lock_vault now) in
      (s.vault ≡ none)
      × (s.key ≡ none)
      × (s.password ≡ (elim r [ err _ ↦ none | ok _ ↦ kept_pass alloc new_pass ]))
      × (s.vault_file ≡ (elim r [ err _ ↦ file | ok _ ↦ none ]))
unfolding finish_change_password lock_vault
finished alloc new_pass (ok tt) file disk now = (refl, refl, refl, refl)
finished alloc new_pass (err x) none disk now = (refl, refl, refl, refl)
finished alloc new_pass (err x) (some f) disk now = (refl, refl, refl, refl)

-- A change of the master password that ends after the vault was locked leaves the new password in
-- memory when it succeeds, and the open file handle when it fails; the vault and the key stay away.
finish_change_password_after_lock :
    (alloc : ℕ → Bool) (new_pass : Text) (o : Outcome) (now : AppState)
    → let s = finish_change_password alloc new_pass o (lock_vault now) in
      (s.vault ≡ none)
      × (s.key ≡ none)
      × (s.password ≡ (elim o.result [ err _ ↦ none | ok _ ↦ kept_pass alloc new_pass ]))
      × (s.vault_file ≡ (elim o.result [ err _ ↦ o.file | ok _ ↦ none ]))
unfolding finish_change_password lock_vault
finish_change_password_after_lock alloc new_pass o now =
    finished alloc new_pass o.result o.file o.disk now
