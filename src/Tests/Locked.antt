-- ===== src/Tests/Locked.antt =====
-- A vault that is locked and left alone, and a copy after a verification that was canceled.
use passx.Base.{[], none, some, true, ◌∷◌, ◌≡◌, ◌⊎◌}
use passx.Clipboard.{Clipboard, CopyCalls, nothing}
use passx.Ui.Auth.{Consent, verified, canceled}
use passx.Ui.Copies.{on_copy_password, on_copy_password_verified}
use passx.Ui.Refresh.{on_lock_vault, refreshes, on_lock_vault_keeps_rows}
use passx.Tests.Callbacks.{env, final}

on_lock_vault_keeps_rows_example :
    let after =
      refreshes
        (env.rendering)
        (100 ∷ 101 ∷ 102 ∷ [])
        (record { program = on_lock_vault final; totp_progress = 7 }) in
    (after.program.window.entries ≡ final.window.entries)
    × (after.program.device.state.vault ≡ none)
on_lock_vault_keeps_rows_example =
    on_lock_vault_keeps_rows (env.rendering) final 7 (100 ∷ 101 ∷ 102 ∷ [])

abbrev refusal : Consent
refusal = record { has_factory = true; window_operation = some (some canceled); operation = none }

abbrev calls : CopyCalls
calls = record {
  opens = true;
  empties = true;
  allocates = true;
  locks_memory = true;
  sets = true;
  format = 49000;
  allocates_dummy = true;
  sets_dummy = true;
}

abbrev clipboard : Clipboard
clipboard = record { content = nothing; now = 5; clearers = [] }

on_copy_password_verified_example :
    (on_copy_password
        (λ text. text)
        (λ bytes. bytes)
        refusal
        calls
        (final.device.state)
        (b'a' ∷ [])
        clipboard
      ≡ clipboard)
    ⊎ ((refusal.window_operation ≡ some (some verified))
        ⊎ (refusal.operation ≡ some (some verified)))
on_copy_password_verified_example =
    on_copy_password_verified (λ text. text) (λ bytes. bytes) refusal calls (final.device.state)
      (b'a' ∷ []) clipboard
