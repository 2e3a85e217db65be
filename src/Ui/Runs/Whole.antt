-- ===== src/Ui/Runs/Whole.antt =====
-- The secrets in the state of src/ui/bridge/state.rs after any sequence of callbacks.
use passx.Base.{none, refl, some, subst, sym, true, ◌≡◌}
use passx.Ui.State.{Device, new_state}
use passx.Ui.Vault.{lock_vault}
use passx.Ui.Vault.Creates.{
  on_browse_for_new_vault, on_browse_for_existing_vault, on_open_managed_vault,
  on_delete_managed_vault,
}
use passx.Ui.Runs.{
  Step, Steps, saves_entry, deletes, restores, saves_totp, links, unlinks, imports_passwords,
  imports_totps, searches, fetches_icon, saves_settings, locks, unlocks, changes_password,
  adds_mirror, removes_mirror, syncs, browses_new, browses_existing, opens_managed, creates,
  creates_managed, deletes_managed, none_yet, then_one, in_window, at_start,
}
use passx.Ui.Runs.Held.{is_whole, ends_whole}
use passx.Ui.Runs.Entries.{
  on_save_entry-is_whole, on_delete_entry-is_whole, on_restore_entry-is_whole,
  on_save_totp-is_whole, on_link_totp-is_whole, on_unlink_totp-is_whole, import_passwords-is_whole,
  import_authenticators-is_whole,
}
use passx.Ui.Runs.Vaults.{
  on_perform_search-is_whole, fetch_website_icon-is_whole, saver_turn-is_whole,
  on_change_master_password-is_whole, on_add_mirror-is_whole, on_remove_mirror-is_whole,
  on_sync_mirrors-is_whole, on_attempt_unlock-is_whole, on_create_new_vault_confirmed-is_whole,
  on_create_managed_vault-is_whole,
}

Step-is_whole : {d d' : Device} → Step d d' → is_whole d.state ≡ true → is_whole d'.state ≡ true
unfolding lock_vault on_browse_for_new_vault on_browse_for_existing_vault on_open_managed_vault
    on_delete_managed_vault
Step-is_whole (saves_entry e id title username password url notes w {d} {g} ran) whole =
    subst (λ o. ends_whole o ≡ true) ran
      (on_save_entry-is_whole e id title username password url notes (in_window d w) whole)
Step-is_whole (deletes e id w {d}) whole = on_delete_entry-is_whole e id (in_window d w) whole
Step-is_whole (restores e id w {d}) whole = on_restore_entry-is_whole e id (in_window d w) whole
Step-is_whole (saves_totp e id account secret issuer linked w {d}) whole =
    on_save_totp-is_whole e id account secret issuer linked (in_window d w) whole
Step-is_whole (links e totp_id account_id w {d}) whole =
    on_link_totp-is_whole e totp_id account_id (in_window d w) whole
Step-is_whole (unlinks e account_id w {d}) whole =
    on_unlink_totp-is_whole e account_id (in_window d w) whole
Step-is_whole (imports_passwords e entries w {d} {g} ran) whole =
    subst (λ o. ends_whole o ≡ true) ran (import_passwords-is_whole e entries (in_window d w) whole)
Step-is_whole (imports_totps e entries w {d} {g} ran) whole =
    subst (λ o. ends_whole o ≡ true) ran
      (import_authenticators-is_whole e entries (in_window d w) whole)
Step-is_whole (searches e query filter w {d}) whole =
    on_perform_search-is_whole e query filter (in_window d w) whole
Step-is_whole (fetches_icon e response id w {d}) whole =
    fetch_website_icon-is_whole e response id (in_window d w) whole
Step-is_whole (saves_settings p io alloc now first queue {d}) whole =
    saver_turn-is_whole p io alloc now first queue d.state d.disk whole
Step-is_whole (locks {d}) whole = refl
Step-is_whole (unlocks p r alloc pass_alloc exclusive_ok read_ok password a {d}) whole =
    on_attempt_unlock-is_whole p r alloc pass_alloc exclusive_ok read_ok password d.disk
      (record a { state = d.state }) whole
Step-is_whole (changes_password p io lossy alloc old new_pass {d}) whole =
    on_change_master_password-is_whole p io lossy alloc old new_pass d.state d.disk whole
Step-is_whole (adds_mirror p io path {d}) whole =
    on_add_mirror-is_whole p io path d.state d.disk whole
Step-is_whole (removes_mirror p io index {d}) whole =
    on_remove_mirror-is_whole p io index d.state d.disk whole
Step-is_whole (syncs io seek_ok read_ok {d}) whole =
    on_sync_mirrors-is_whole io seek_ok read_ok d.state d.disk whole
Step-is_whole (browses_new none a {d}) whole = whole
Step-is_whole (browses_new (some path) a {d}) whole = whole
Step-is_whole (browses_existing none a {d}) whole = whole
Step-is_whole (browses_existing (some path) a {d}) whole = whole
Step-is_whole (opens_managed pl name a {d}) whole = whole
Step-is_whole (creates p io r alloc now key_bytes password mode_int a {d}) whole =
    on_create_new_vault_confirmed-is_whole p r alloc io now key_bytes password mode_int
      (at_start d a) whole
Step-is_whole (creates_managed p io r alloc pl mio now key_bytes name password mode_int a b {d} ran)
      whole =
    on_create_managed_vault-is_whole p r alloc io pl mio now key_bytes name password mode_int
      (at_start d a) b ran whole
Step-is_whole (deletes_managed pl mio name a {d}) whole = whole

is_whole-Steps : {d d' : Device} → Steps d d' → is_whole d.state ≡ true → is_whole d'.state ≡ true
is_whole-Steps none_yet whole = whole
is_whole-Steps (then_one steps step) whole = Step-is_whole step (is_whole-Steps steps whole)

-- After any sequence of callbacks from the start of the program, each of them run to its end, a state
-- without a vault holds no key, no password and no file handle, and one with a vault has its key.
pub Steps-is_whole : {d d' : Device} → Steps d d' → d.state ≡ new_state → is_whole d'.state ≡ true
Steps-is_whole steps fresh = is_whole-Steps steps (subst (λ s. is_whole s ≡ true) (sym fresh) refl)
