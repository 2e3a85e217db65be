-- ===== src/Ui/Runs/Vaults.antt =====
-- What the callbacks of src/ui/bridge/vault.rs, search.rs and icons.rs, and the thread that saves the
-- settings, leave of the secrets in the state.
use passx.Base.{
  Bool, Bool-cases, Bytes, List, Option, Option-cases, Text, arith, inl, inr, none, some, true, ℕ,
  ◌≡◌,
}
use passx.Vault.Format.{Platform, GeneratorSettings}
use passx.Vault.Manager.{Places, ManagedIo}
use passx.Vault.Mirror.{MirrorIo}
use passx.Ui.State.{AppState, SaveIo}
use passx.Ui.Model.{Rendering}
use passx.Ui.Entries.Handlers.{Env, Program, vault_of}
use passx.Ui.Background.{on_perform_search, fetch_website_icon}
use passx.Ui.Generator.{saver_turn, take_settings, save_settings, drain}
use passx.Ui.Unlock.{Access, on_attempt_unlock}
use passx.Ui.Vault.{
  on_change_master_password, on_add_mirror, on_remove_mirror, take_resources, accepts_old,
  return_if_open, finish_change_password, finish_mirrors, add_mirror, remove_mirror, save_outside,
  optional_pass,
}
use passx.Ui.Vault.Sync.{on_sync_mirrors, take_mirrors}
use passx.Ui.Vault.Creates.{Start, on_create_new_vault_confirmed, on_create_managed_vault}
use passx.Ui.Runs.Unlocked.{
  IsUnlocked-is_whole, return_if_open-IsUnlocked, take_resources-IsUnlocked,
  finish_change_password-IsUnlocked, finish_mirrors-IsUnlocked,
}
use passx.Ui.Runs.Held.{is_whole, vault_of-some}

return_if_open-is_whole :
    (file : Option Bytes) (s : AppState)
    → is_whole s ≡ true
    → is_whole (return_if_open file s) ≡ true
return_if_open-is_whole none s whole = ground arith
return_if_open-is_whole (some f) s whole = ground arith

pub on_perform_search-is_whole :
    (e : Env) (query filter : Text) (g : Program)
    → is_whole g.device.state ≡ true
    → is_whole ((on_perform_search e query filter g).device.state) ≡ true
unfolding on_perform_search
on_perform_search-is_whole e query filter g whole = whole

pub fetch_website_icon-is_whole :
    (e : Env) (response : Option Text) (id : Text) (g : Program)
    → is_whole g.device.state ≡ true
    → is_whole ((fetch_website_icon e response id g).device.state) ≡ true
unfolding fetch_website_icon
fetch_website_icon-is_whole e none id g whole = whole
fetch_website_icon-is_whole e (some b64) id g whole =
    elim (Option-cases (vault_of g.device.state)) [
      | inl shut ↦ rw (shut, fetch_website_icon) whole
      | inr (v, opened) ↦
          rw (opened, fetch_website_icon) ((vault_of-some e g.device.state v opened).1)
    ]

module _ (p : Platform) (io : SaveIo) where
  take_settings-is_whole :
      (alloc : ℕ → ℕ → Bool) (now : ℕ) (latest : GeneratorSettings) (s : AppState)
      → is_whole s ≡ true
      → is_whole ((take_settings alloc now latest s).1) ≡ true
  unfolding take_settings
  take_settings-is_whole alloc now latest s whole = ground arith

  pub saver_turn-is_whole :
      (alloc : ℕ → ℕ → Bool) (now : ℕ) (first : GeneratorSettings) (queue : List GeneratorSettings)
      (s : AppState) (disk : Text → Option Bytes)
      → is_whole s ≡ true
      → is_whole ((saver_turn p io alloc now first queue (s, disk)).0) ≡ true
  unfolding saver_turn
  saver_turn-is_whole alloc now first queue s disk whole =
      let taken = take_settings alloc now (drain first queue) s in
      return_if_open-is_whole (save_settings p io taken.0 taken.1 disk).0 taken.1
        (take_settings-is_whole alloc now (drain first queue) s whole)

  pub on_change_master_password-is_whole :
      (lossy : Bytes → Text) (alloc : ℕ → Bool) (old new_pass : Text) (s : AppState)
      (disk : Text → Option Bytes)
      → is_whole s ≡ true
      → is_whole ((on_change_master_password p io lossy alloc old new_pass (s, disk)).0) ≡ true
  unfolding on_change_master_password
  on_change_master_password-is_whole lossy alloc old new_pass s disk whole =
      elim (Bool-cases (accepts_old lossy old s)) [
        | inr wrong ↦ rw (wrong, on_change_master_password) whole
        | inl right ↦ elim (Option-cases (take_resources s)) [
          | inl shut ↦ rw (right, shut, on_change_master_password) whole
          | inr ((t, s'), taken) ↦
              let o = save_outside p io disk t t.vault (optional_pass new_pass) in
              rw (right, taken, on_change_master_password)
                (IsUnlocked-is_whole (finish_change_password alloc new_pass o s') (
                  finish_change_password-IsUnlocked alloc new_pass o s'
                    (take_resources-IsUnlocked s s' t taken)))
        ]
      ]

  pub on_add_mirror-is_whole :
      (path : Text) (s : AppState) (disk : Text → Option Bytes)
      → is_whole s ≡ true
      → is_whole ((on_add_mirror p io path (s, disk)).0) ≡ true
  unfolding on_add_mirror
  on_add_mirror-is_whole path s disk whole = elim (Option-cases (take_resources s)) [
    | inl shut ↦ rw (shut, on_add_mirror) whole
    | inr ((t, s'), taken) ↦
        let changed = add_mirror path t.vault in
        let o = save_outside p io disk t changed t.password in
        rw (taken, on_add_mirror)
          (IsUnlocked-is_whole (finish_mirrors changed o s')
            (finish_mirrors-IsUnlocked changed o s' (take_resources-IsUnlocked s s' t taken)))
  ]

  pub on_remove_mirror-is_whole :
      (index : Option ℕ) (s : AppState) (disk : Text → Option Bytes)
      → is_whole s ≡ true
      → is_whole ((on_remove_mirror p io index (s, disk)).0) ≡ true
  unfolding on_remove_mirror
  on_remove_mirror-is_whole index s disk whole = elim (Option-cases (take_resources s)) [
    | inl shut ↦ rw (shut, on_remove_mirror) whole
    | inr ((t, s'), taken) ↦
        let unlocked = take_resources-IsUnlocked s s' t taken in
        elim (Option-cases (remove_mirror index t.vault)) [
          | inl outside ↦
              rw (taken, outside, on_remove_mirror)
                (IsUnlocked-is_whole (return_if_open t.file s')
                  (return_if_open-IsUnlocked t.file s' unlocked))
          | inr (changed, removed) ↦
              let o = save_outside p io disk t changed t.password in
              rw (taken, removed, on_remove_mirror)
                (IsUnlocked-is_whole (finish_mirrors changed o s')
                  (finish_mirrors-IsUnlocked changed o s' unlocked))
        ]
  ]

pub on_sync_mirrors-is_whole :
    (io : MirrorIo) (seek_ok read_ok : Bool) (s : AppState) (disk : Text → Option Bytes)
    → is_whole s ≡ true
    → is_whole ((on_sync_mirrors io seek_ok read_ok (s, disk)).0.0) ≡ true
unfolding on_sync_mirrors take_mirrors
on_sync_mirrors-is_whole io seek_ok read_ok s disk whole = ground arith

module _ (p : Platform) (r : Rendering) (alloc : ℕ → ℕ → Bool) where
  pub on_attempt_unlock-is_whole :
      (pass_alloc : ℕ → Bool) (exclusive_ok read_ok : Bool) (password : Text)
      (disk : Text → Option Bytes) (a : Access)
      → is_whole a.state ≡ true
      → is_whole
          ((on_attempt_unlock p r alloc pass_alloc exclusive_ok read_ok password disk a).state)
        ≡ true
  unfolding on_attempt_unlock
  on_attempt_unlock-is_whole pass_alloc exclusive_ok read_ok password disk a whole = ground arith

  pub on_create_new_vault_confirmed-is_whole :
      (io : SaveIo) (now : ℕ) (key_bytes : Bytes) (password : Text) (mode_int : ℕ) (a : Start)
      → is_whole a.state ≡ true
      → is_whole
          ((on_create_new_vault_confirmed p io r alloc now key_bytes password mode_int a).state)
        ≡ true
  unfolding on_create_new_vault_confirmed
  on_create_new_vault_confirmed-is_whole io now key_bytes password mode_int a whole = ground arith

  pub on_create_managed_vault-is_whole :
      (io : SaveIo) (pl : Places) (mio : ManagedIo) (now : ℕ) (key_bytes : Bytes)
      (name password : Text) (mode_int : ℕ) (a b : Start)
      → on_create_managed_vault p io r alloc pl mio now key_bytes name password mode_int a ≡ some b
      → is_whole a.state ≡ true
      → is_whole b.state ≡ true
  unfolding on_create_managed_vault
  on_create_managed_vault-is_whole io pl mio now key_bytes name password mode_int a b done whole =
      ground arith
