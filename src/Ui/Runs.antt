-- ===== src/Ui/Runs.antt =====
-- The callbacks of src/ui/bridge one after the other, each with its thread run to its end: what they
-- leave in the state that they share.
pub mod Held
pub mod Entries
pub mod Vaults
pub mod Whole
pub mod Synced
pub mod Edits
pub mod Unlocked
use passx.Base.{Bool, Bytes, List, Option, Text, some, ℕ, ◌≡◌}
use passx.Vault.Entry.{AccountEntry, TotpEntry}
use passx.Vault.Format.{Platform, GeneratorSettings}
use passx.Vault.Manager.{Places, ManagedIo}
use passx.Vault.Mirror.{MirrorIo}
use passx.Ui.State.{AppState, Device, SaveIo}
use passx.Ui.Model.{Rendering}
use passx.Ui.Entries.Handlers.{
  Env, Window, Program, on_save_entry, on_delete_entry, on_restore_entry, on_save_totp,
  on_link_totp, on_unlink_totp, import_passwords, import_authenticators,
}
use passx.Ui.Background.{on_perform_search, fetch_website_icon}
use passx.Ui.Generator.{saver_turn}
use passx.Ui.Unlock.{Access, on_attempt_unlock}
use passx.Ui.Vault.{lock_vault, on_change_master_password, on_add_mirror, on_remove_mirror}
use passx.Ui.Vault.Sync.{on_sync_mirrors}
use passx.Ui.Vault.Creates.{
  Start, on_browse_for_new_vault, on_browse_for_existing_vault, on_open_managed_vault,
  on_create_new_vault_confirmed, on_create_managed_vault, on_delete_managed_vault,
}

abbrev pub in_window : Device → Window → Program
in_window d w = record { device = d; window = w }

abbrev pub device_of : AppState × (Text → Option Bytes) → Device
device_of (s, disk) = record { state = s; disk = disk }

abbrev pub at_start : Device → Start → Start
at_start d a = record a { state = d.state; disk = d.disk }

abbrev pub started : Start → Device
started a = record { state = a.state; disk = a.disk }

-- One callback, with the device before and the device after; what it shows in the window is left out.
pub data Step : Device → Device → Type 0 where
  saves_entry :
      (e : Env) (id title username : Text) (password : Bytes) (url : Text) (notes : Bytes)
      (w : Window) {d : Device} {g : Program}
      → on_save_entry e id title username password url notes (in_window d w) ≡ some g
      → Step d g.device
  deletes :
      (e : Env) (id : Text) (w : Window) {d : Device}
      → Step d (on_delete_entry e id (in_window d w)).device
  restores :
      (e : Env) (id : Text) (w : Window) {d : Device}
      → Step d (on_restore_entry e id (in_window d w)).device
  saves_totp :
      (e : Env) (id account secret issuer linked : Text) (w : Window) {d : Device}
      → Step d (on_save_totp e id account secret issuer linked (in_window d w)).device
  links :
      (e : Env) (totp_id account_id : Text) (w : Window) {d : Device}
      → Step d (on_link_totp e totp_id account_id (in_window d w)).device
  unlinks :
      (e : Env) (account_id : Text) (w : Window) {d : Device}
      → Step d (on_unlink_totp e account_id (in_window d w)).device
  imports_passwords :
      (e : Env) (entries : List AccountEntry) (w : Window) {d : Device} {g : Program}
      → import_passwords e entries (in_window d w) ≡ some g
      → Step d g.device
  imports_totps :
      (e : Env) (entries : List TotpEntry) (w : Window) {d : Device} {g : Program}
      → import_authenticators e entries (in_window d w) ≡ some g
      → Step d g.device
  searches :
      (e : Env) (query filter : Text) (w : Window) {d : Device}
      → Step d (on_perform_search e query filter (in_window d w)).device
  fetches_icon :
      (e : Env) (response : Option Text) (id : Text) (w : Window) {d : Device}
      → Step d (fetch_website_icon e response id (in_window d w)).device
  saves_settings :
      (p : Platform) (io : SaveIo) (alloc : ℕ → ℕ → Bool) (now : ℕ) (first : GeneratorSettings)
      (queue : List GeneratorSettings) {d : Device}
      → Step d (device_of (saver_turn p io alloc now first queue (d.state, d.disk)))
  locks : {d : Device} → Step d (record d { state = lock_vault d.state })
  unlocks :
      (p : Platform) (r : Rendering) (alloc : ℕ → ℕ → Bool) (pass_alloc : ℕ → Bool)
      (exclusive_ok read_ok : Bool) (password : Text) (a : Access) {d : Device}
      → Step d (record d {
        state =
            (on_attempt_unlock p r alloc pass_alloc exclusive_ok read_ok password d.disk
              (record a { state = d.state })).state;
      })
  changes_password :
      (p : Platform) (io : SaveIo) (lossy : Bytes → Text) (alloc : ℕ → Bool) (old new_pass : Text)
      {d : Device}
      → Step d
          (device_of (on_change_master_password p io lossy alloc old new_pass (d.state, d.disk)))
  adds_mirror :
      (p : Platform) (io : SaveIo) (path : Text) {d : Device}
      → Step d (device_of (on_add_mirror p io path (d.state, d.disk)))
  removes_mirror :
      (p : Platform) (io : SaveIo) (index : Option ℕ) {d : Device}
      → Step d (device_of (on_remove_mirror p io index (d.state, d.disk)))
  syncs :
      (io : MirrorIo) (seek_ok read_ok : Bool) {d : Device}
      → Step d (device_of (on_sync_mirrors io seek_ok read_ok (d.state, d.disk)).0)
  browses_new :
      (picked : Option Text) (a : Start) {d : Device}
      → Step d (started (on_browse_for_new_vault picked (at_start d a)))
  browses_existing :
      (picked : Option Text) (a : Start) {d : Device}
      → Step d (started (on_browse_for_existing_vault picked (at_start d a)))
  opens_managed :
      (pl : Places) (name : Text) (a : Start) {d : Device}
      → Step d (started (on_open_managed_vault pl name (at_start d a)))
  creates :
      (p : Platform) (io : SaveIo) (r : Rendering) (alloc : ℕ → ℕ → Bool) (now : ℕ)
      (key_bytes : Bytes) (password : Text) (mode_int : ℕ) (a : Start) {d : Device}
      → Step d (
          started (
            on_create_new_vault_confirmed p io r alloc now key_bytes password mode_int
              (at_start d a)))
  creates_managed :
      (p : Platform) (io : SaveIo) (r : Rendering) (alloc : ℕ → ℕ → Bool) (pl : Places)
      (mio : ManagedIo) (now : ℕ) (key_bytes : Bytes) (name password : Text) (mode_int : ℕ)
      (a b : Start) {d : Device}
      → on_create_managed_vault p io r alloc pl mio now key_bytes name password mode_int
          (at_start d a)
        ≡ some b
      → Step d (started b)
  deletes_managed :
      (pl : Places) (mio : ManagedIo) (name : Text) (a : Start) {d : Device}
      → Step d (started (on_delete_managed_vault pl mio name (at_start d a)))

pub data Steps (d : Device) : Device → Type 0 where
  none_yet : Steps d d
  then_one : {x y : Device} → Steps d x → Step x y → Steps d y
