-- ===== src/Ui/Runs/Unlocked.antt =====
-- What the steps of the callbacks of src/ui/bridge/vault.rs leave of a vault and its key.
use passx.Base.{
  Bool, Bytes, Option, Result-cases, Text, arith, inl, inr, is_some, none, refl, some, true, ℕ, ◌≡◌,
}
use passx.Vault.Format.{Vault}
use passx.Ui.State.{AppState}
use passx.Ui.Vault.{
  Taken, Outcome, take_resources, return_file, return_if_open, finish_change_password,
  finish_mirrors,
}
use passx.Ui.Runs.Held.{is_whole}

-- A vault and its key.
abbrev pub IsUnlocked : AppState → Type 0
IsUnlocked s = (is_some s.vault ≡ true) × (is_some s.key ≡ true)

-- Such a state is whole whatever becomes of the rest.
pub IsUnlocked-is_whole : (s : AppState) → IsUnlocked s → is_whole s ≡ true
IsUnlocked-is_whole s (opened, has_key) = rw opened has_key

pub return_file-IsUnlocked :
    (file : Option Bytes) (s : AppState) → IsUnlocked s → IsUnlocked (return_file file s)
return_file-IsUnlocked none s h = h
return_file-IsUnlocked (some f) s h = h

pub return_if_open-IsUnlocked :
    (file : Option Bytes) (s : AppState) → IsUnlocked s → IsUnlocked (return_if_open file s)
return_if_open-IsUnlocked file s h = rw (h.0) (return_file-IsUnlocked file s h)

pub take_resources-IsUnlocked :
    (s s' : AppState) (t : Taken) → take_resources s ≡ some (t, s') → IsUnlocked s'
unfolding take_resources
take_resources-IsUnlocked s s' t h = ground arith

pub finish_change_password-IsUnlocked :
    (alloc : ℕ → Bool) (new_pass : Text) (o : Outcome) (s : AppState)
    → IsUnlocked s
    → IsUnlocked (finish_change_password alloc new_pass o s)
unfolding finish_change_password
finish_change_password-IsUnlocked alloc new_pass o s h = elim (Result-cases o.result) [
  | inl (x, done) ↦ rw (done, finish_change_password) (return_if_open-IsUnlocked o.file s h)
  | inr (x, failed) ↦ rw (failed, finish_change_password) (return_file-IsUnlocked o.file s h)
]

pub finish_mirrors-IsUnlocked :
    (vault : Vault) (o : Outcome) (s : AppState)
    → IsUnlocked s
    → IsUnlocked (finish_mirrors vault o s)
unfolding finish_mirrors
finish_mirrors-IsUnlocked vault o s h = elim (Result-cases o.result) [
  | inl (x, done) ↦ rw (done, finish_mirrors) (refl, (return_if_open-IsUnlocked o.file s h).1)
  | inr (x, failed) ↦ rw (failed, finish_mirrors) (return_if_open-IsUnlocked o.file s h)
]
