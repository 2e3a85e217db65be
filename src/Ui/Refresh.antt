-- ===== src/Ui/Refresh.antt =====
-- The thread of src/ui/bridge/entries.rs that makes the rows anew every second, next to what
-- `on_lock_vault` of src/ui/bridge/vault.rs leaves in the window.
use passx.Base.{List, [], none, refl, ℕ, ◌%◌, ◌-◌, ◌∙◌, ◌∷◌, ◌≡◌}
use passx.Ui.Model.{Rendering}
use passx.Ui.Entries.Handlers.{Program, rows, shown}
use passx.Ui.Vault.{lock_vault}

-- `totp_progress` in thirtieths, of a time after 1970.
abbrev pub progress : ℕ → ℕ
progress now = 30 - now % 30

-- The window with the progress.
pub record Refreshed : Type 0 where
  pub program : Program
  pub totp_progress : ℕ

unfoldable pub on_lock_vault : Program → Program
unfolding lock_vault
on_lock_vault g = record {
  device = record (g.device) { state = lock_vault g.device.state };
  window = record (g.window) { current_screen = 2 };
}

module _ (r : Rendering) where
  -- One pass; the lock is free again before the window is changed.
  unfoldable pub periodic_refresh : ℕ → Refreshed → Refreshed
  periodic_refresh now p = record {
    program = record (p.program) {
      window = shown (rows r p.program.device.state) p.program.window;
    };
    totp_progress = progress now;
  }

  abbrev pub refreshes : List ℕ → Refreshed → Refreshed
  refreshes [] p = p
  refreshes (now ∷ later) p = refreshes later (periodic_refresh now p)

  periodic_refresh-locked :
      (now : ℕ) (p : Refreshed)
      → p.program.device.state.vault ≡ none
      → (periodic_refresh now p).program.window.entries ≡ p.program.window.entries
  unfolding periodic_refresh
  periodic_refresh-locked now p locked = rw locked refl

  periodic_refresh-vault :
      (now : ℕ) (p : Refreshed)
      → (periodic_refresh now p).program.device.state.vault ≡ p.program.device.state.vault
  unfolding periodic_refresh
  periodic_refresh-vault now p = refl

  refreshes-locked :
      (times : List ℕ) (p : Refreshed)
      → p.program.device.state.vault ≡ none
      → ((refreshes times p).program.window.entries ≡ p.program.window.entries)
        × ((refreshes times p).program.device.state.vault ≡ none)
  refreshes-locked [] p locked = (refl, locked)
  refreshes-locked (now ∷ later) p locked =
      let (entries, vault) =
        refreshes-locked later (periodic_refresh now p) (periodic_refresh-vault now p ∙ locked) in
      (entries ∙ periodic_refresh-locked now p locked, vault)

  -- After a lock, and however many passes of the refresh, there is no vault in the state, and the
  -- window still holds the rows that it had, their notes included.
  pub on_lock_vault_keeps_rows :
      (g : Program) (tick : ℕ) (times : List ℕ)
      → let after = refreshes times (record { program = on_lock_vault g; totp_progress = tick }) in
        (after.program.window.entries ≡ g.window.entries)
        × (after.program.device.state.vault ≡ none)
  unfolding on_lock_vault
  on_lock_vault_keeps_rows g tick times =
      refreshes-locked times (record { program = on_lock_vault g; totp_progress = tick }) refl
