-- ===== src/Ui/Runs/Held.antt =====
-- Which secrets the state of src/ui/bridge/state.rs holds after any sequence of callbacks.
use passx.Base.{
  Result, Bool, Bytes, Option, Option-cases, Text, ap, arith, err, if◌then◌else◌, inl, inr, is_some,
  none, not, ok, refl, some, subst, sym, true, ℕ, ◌||◌, ◌≡◌,
}
use passx.Vault.Format.{Vault, VaultMode}
use passx.Ui.State.{AppState, Device, save_vault_state}
use passx.Ui.State.{SaveError}
use passx.Ui.State.Saved.{save_vault_state-memory}
use passx.Ui.Entries.Handlers.{
  after_delete, after_restore, Env, Program, Window, persist, with_vault, vault_of, finish_import,
  after_save_entry, key_copy, pass_copy, save_with,
}

-- A state with a vault has its key; one without has no key, no password and no file handle.
abbrev pub is_whole : AppState → Bool
is_whole s =
    if is_some s.vault
    then is_some s.key
    else not (is_some s.key || (is_some s.password || is_some s.vault_file))

-- The same secrets, and a vault and a handle or not, as before.
abbrev Same : AppState → AppState → Type 0
Same s s' =
    (is_some s'.vault ≡ is_some s.vault)
    × (s'.key ≡ s.key)
    × (s'.password ≡ s.password)
    × (is_some s'.vault_file ≡ is_some s.vault_file)

Same-is_whole : (s s' : AppState) → Same s s' → is_whole s ≡ true → is_whole s' ≡ true
Same-is_whole s s' same whole =
    let (vault, key, password, file) = same in rw (vault, key, password, file) whole

-- A callback that does not panic leaves a whole state.
abbrev pub ends_whole : Option Program → Bool
ends_whole none = true
ends_whole (some g) = is_whole g.device.state

pub whole-key :
    (s : AppState) (v : Vault) → s.vault ≡ some v → is_whole s ≡ true → is_some s.key ≡ true
whole-key s v opened whole = rw opened at whole

module _ (e : Env) where
  save_vault_state-Same :
      (d : Device) (key : Bytes) (mode : VaultMode) (pass : Option Bytes)
      → Same d.state (save_vault_state e.platform e.io d key mode pass).1.state
  save_vault_state-Same d key mode pass =
      let (vault, same_key, password, _, _, _, file) =
        save_vault_state-memory e.platform e.io d key mode pass in
      (ap is_some vault, same_key, password, file)

  persist-Same : (mode : VaultMode) (d : Device) → Same d.state (persist e mode d).1.state
  unfolding persist
  persist-Same mode d =
      elim (key_copy e d.state)
        as (λ k. Same d.state (save_with e mode d k (pass_copy e d.state)).1.state) [
          | none ↦ (refl, refl, refl, refl)
          | some key ↦ save_vault_state-Same d key mode (pass_copy e d.state)
        ]

  pub vault_of-some :
      (s : AppState) (v : Vault)
      → vault_of s ≡ some v
      → (is_some s.vault ≡ true) × (is_some s.key ≡ true)
  vault_of-some s v h = ground arith

  -- The common frame of the callbacks: an open vault is replaced, and saved.
  pub persist-is_whole :
      (mode : VaultMode) (d : Device) (v : Vault)
      → is_some d.state.key ≡ true
      → is_whole ((persist e mode (with_vault v d)).1.state) ≡ true
  persist-is_whole mode d v has_key =
      Same-is_whole (with_vault v d).state (persist e mode (with_vault v d)).1.state
        (persist-Same mode (with_vault v d)) has_key

  pub after_save_entry-device :
      (id url : Text) (x : Option (Result SaveError (Unit {0})) × Device) (w : Window)
      → (after_save_entry e id url x w).device ≡ x.1
  after_save_entry-device id url (none, d) w = refl
  after_save_entry-device id url (some (err x), d) w = refl
  after_save_entry-device id url (some (ok x), d) w = refl

  pub after_delete-device :
      (x : Option (Result SaveError (Unit {0})) × Device) (w : Window)
      → (after_delete e x w).device ≡ x.1
  after_delete-device (none, d) w = refl
  after_delete-device (some x, d) w = refl

  pub after_restore-device :
      (x : Option (Result SaveError (Unit {0})) × Device) (w : Window)
      → (after_restore e x w).device ≡ x.1
  after_restore-device (none, d) w = refl
  after_restore-device (some x, d) w = refl

  pub finish_import-device :
      (added : ℕ) (label : Text) (x : Option (Result SaveError (Unit {0})) × Device) (w : Window)
      → (finish_import e added label x w).device ≡ x.1
  unfolding finish_import
  finish_import-device added label (none, d) w = refl
  finish_import-device added label (some (err x), d) w = refl
  finish_import-device added label (some (ok x), d) w = refl

  -- A callback that does nothing to a vault that is not open, and otherwise replaces it and saves.
  pub replaced-is_whole :
      (change : Vault → Vault) (g h : Program)
      → (vault_of g.device.state ≡ none → h.device ≡ g.device)
      → ((v : Vault)
          → vault_of g.device.state ≡ some v
          → h.device ≡ (persist e (change v).mode (with_vault (change v) g.device)).1)
      → is_whole g.device.state ≡ true
      → is_whole h.device.state ≡ true
  replaced-is_whole change g h shut replaced whole = elim (Option-cases (vault_of g.device.state)) [
    | inl not_open ↦ subst (λ d. is_whole d.state ≡ true) (sym (shut not_open)) whole
    | inr (v, opened) ↦
        subst (λ d. is_whole d.state ≡ true) (sym (replaced v opened))
          (persist-is_whole (change v).mode g.device (change v)
            (vault_of-some g.device.state v opened).1)
  ]
