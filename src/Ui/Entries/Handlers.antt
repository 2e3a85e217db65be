-- ===== src/Ui/Entries/Handlers.antt =====
-- The callbacks of src/ui/bridge/entries.rs as whole: the guards, the change under the lock, the
-- copies of the secrets, the save, and what the window then shows. Each callback's thread is one
-- step; `none` is a panic. The window's message "" is `none`.
pub mod Files
use passx.Base.{
  Result, Bool, Bytes, List, Option, Text, [], err, false, if◌then◌else◌, is_some, none, not, ok,
  some, ℕ, ◌&&◌, ◌++◌, ◌∷◌,
}
use passx.Memory.Guard.View.{secure_copy}
use passx.Vault.Entry.{TotpEntry, AccountEntry, Fresh}
use passx.Vault.Format.{Platform, Vault, VaultMode}
use passx.Ui.State.{AppState, Device, SaveIo, SaveError, save_vault_state}
use passx.Ui.Model.{Rendering, VaultEntryModel, generate_vault_entries}
use passx.Ui.Entries.{
  do_import_totps, save_entry, delete_entry, restore_entry, save_totp, link_totp, unlink_totp,
  do_import_accounts, is_empty_text,
}

pub data Status : Type 0 where
  imported : ℕ → Text → Status
  import_not_saved : Status

pub record Window : Type 0 where
  pub entries : List VaultEntryModel
  pub error_message : Option SaveError
  pub io_status : Option Status
  pub selected_entry_id : Text
  pub current_screen : ℕ
  pub show_totp_modal : Bool
  -- The entries that `invoke_select_entry` selects again, and the icons that are fetched.
  pub selections : List Text
  pub icon_fetches : List (Text × Text)

pub record Program : Type 0 where
  pub device : Device
  pub window : Window

-- What one callback draws from its surroundings.
pub record Env : Type 0 where
  pub platform : Platform
  pub rendering : Rendering
  pub to_uppercase : Text → Text
  pub fresh : Fresh
  pub now : ℕ
  pub alloc_edit : ℕ → ℕ → Bool
  pub alloc_copy : ℕ → ℕ → Bool
  pub io : SaveIo

-- `SecureBuffer::from_slice(&p[..])` of an optional buffer.
abbrev pub copy_of : (ℕ → Bool) → Option Bytes → Option Bytes
copy_of alloc none = none
copy_of alloc (some b) = secure_copy alloc b

abbrev pub with_vault : Vault → Device → Device
with_vault v d = record d { state = record (d.state) { vault = some v } }

-- The rows for the vault in memory, under the search and the filter at hand.
abbrev pub rows : Rendering → AppState → Option (List VaultEntryModel)
rows r s = elim s.vault [
  | none ↦ none
  | some v ↦ some (generate_vault_entries r v s.current_search s.current_filter)
]

abbrev pub shown : Option (List VaultEntryModel) → Window → Window
shown none w = w
shown (some e) w = record w { entries = e }

-- `if let (Some(vault), Some(key), Some(path)) = (vault, key, vault_path)`
abbrev pub is_open : AppState → Bool
is_open s = is_some s.vault && (is_some s.key && is_some s.vault_path)

abbrev pub vault_of : AppState → Option Vault
vault_of s = if is_open s then s.vault else none

module _ (e : Env) where
  abbrev pub key_copy : AppState → Option Bytes
  key_copy s = copy_of (e.alloc_copy 0) s.key

  abbrev pub pass_copy : AppState → Option Bytes
  pass_copy s = copy_of (e.alloc_copy 1) s.password

  abbrev pub save_with :
      VaultMode
      → Device
      → Option Bytes
      → Option Bytes
      → Option (Result SaveError (Unit {0})) × Device
  save_with mode d none pass = (none, d)
  save_with mode d (some key) pass = (
    some (save_vault_state e.platform e.io d key mode pass).0,
    (save_vault_state e.platform e.io d key mode pass).1,
  )

  -- The save with the copies of the key and the password; without a copy of the key there is none.
  unfoldable pub persist : VaultMode → Device → Option (Result SaveError (Unit {0})) × Device
  persist mode d = save_with mode d (key_copy d.state) (pass_copy d.state)

  abbrev pub after_save_entry :
      Text → Text → Option (Result SaveError (Unit {0})) × Device → Window → Program
  after_save_entry id url (none, d) w = record { device = d; window = w }
  after_save_entry id url (some (err x), d) w = record {
    device = d;
    window = record w { error_message = some x };
  }
  after_save_entry id url (some (ok _), d) w = record {
    device = d;
    window =
        let refreshed = shown (rows e.rendering d.state) (record w { error_message = none }) in
        record refreshed {
          icon_fetches =
              if is_empty_text url then w.icon_fetches else w.icon_fetches ++ ((url, id) ∷ []);
        };
  }

  unfoldable pub on_save_entry :
      Text → Text → Text → Bytes → Text → Bytes → Program → Option Program
  unfolding persist
  on_save_entry id title username password url notes g = elim (vault_of g.device.state) [
    | none ↦ some g
    | some v ↦ elim (save_entry e.fresh e.alloc_edit e.now id title username password url notes v) [
      | none ↦ none
      | some v' ↦ some (after_save_entry id url (persist v'.mode (with_vault v' g.device)) g.window)
    ]
  ]

  abbrev pub after_delete : Option (Result SaveError (Unit {0})) × Device → Window → Program
  after_delete (none, d) w = record { device = d; window = w }
  after_delete (some _, d) w = record {
    device = d;
    window = record (shown (rows e.rendering d.state) w) { selected_entry_id = [] };
  }

  -- The outcome of the save is ignored.
  unfoldable pub on_delete_entry : Text → Program → Program
  unfolding persist
  on_delete_entry id g = elim (vault_of g.device.state) [
    | none ↦ g
    | some v ↦
        let v' = delete_entry g.device.state.current_filter e.now id v in
        after_delete (persist v'.mode (with_vault v' g.device)) g.window
  ]

  abbrev pub after_restore : Option (Result SaveError (Unit {0})) × Device → Window → Program
  after_restore (none, d) w = record { device = d; window = w }
  after_restore (some _, d) w = record { device = d; window = shown (rows e.rendering d.state) w }

  unfoldable pub on_restore_entry : Text → Program → Program
  unfolding persist
  on_restore_entry id g = elim (vault_of g.device.state) [
    | none ↦ g
    | some v ↦
        let v' = restore_entry e.now id v in
        after_restore (persist v'.mode (with_vault v' g.device)) g.window
  ]

  abbrev reselected : Window → Window
  reselected w =
      if is_empty_text w.selected_entry_id
      then w
      else record w { selections = w.selections ++ (w.selected_entry_id ∷ []) }

  -- The common end of the callbacks for authenticators: the rows are those of the changed vault, and
  -- are shown whatever the save says.
  abbrev pub after_totp_change : (Window → Window) → Vault → Program → Program
  after_totp_change f v' g = record {
    device = (persist v'.mode (with_vault v' g.device)).1;
    window = reselected (
        f (record (g.window) {
          entries =
              generate_vault_entries e.rendering v' g.device.state.current_search
                g.device.state.current_filter;
        }));
  }

  unfoldable pub on_save_totp : Text → Text → Text → Text → Text → Program → Program
  unfolding persist
  on_save_totp id account secret issuer linked g = elim (vault_of g.device.state) [
    | none ↦ g
    | some v ↦
        after_totp_change (λ w. record w { current_screen = 3; show_totp_modal = false })
          (save_totp e.to_uppercase e.fresh e.alloc_edit e.now id account secret issuer linked v) g
  ]

  unfoldable pub on_link_totp : Text → Text → Program → Program
  unfolding persist
  on_link_totp totp_id account_id g = elim (vault_of g.device.state) [
    | none ↦ g
    | some v ↦ after_totp_change (λ w. w) (link_totp e.now totp_id account_id v) g
  ]

  unfoldable pub on_unlink_totp : Text → Program → Program
  unfolding persist
  on_unlink_totp account_id g = elim (vault_of g.device.state) [
    | none ↦ g
    | some v ↦ after_totp_change (λ w. w) (unlink_totp e.now account_id v) g
  ]

  -- `finish_import`
  unfoldable pub finish_import :
      ℕ → Text → Option (Result SaveError (Unit {0})) × Device → Window → Program
  finish_import added label (none, d) w = record { device = d; window = w }
  finish_import added label (some (ok _), d) w = record {
    device = d;
    window = record (shown (rows e.rendering d.state) w) {
      io_status = some (imported added label);
    };
  }
  finish_import added label (some (err _), d) w = record {
    device = d;
    window = record w { io_status = some import_not_saved };
  }

  -- "passwords"
  abbrev pub passwords_label : Text
  passwords_label = b'p' ∷ b'a' ∷ b's' ∷ b's' ∷ b'w' ∷ b'o' ∷ b'r' ∷ b'd' ∷ b's' ∷ []

  -- A missing path panics.
  unfoldable pub import_passwords : List AccountEntry → Program → Option Program
  unfolding persist finish_import
  import_passwords entries g =
      if not (is_some g.device.state.vault_path) then none else elim g.device.state.vault [
        | none ↦ some g
        | some v ↦
            let r = do_import_accounts entries v in
            some (
              finish_import r.1 passwords_label (persist v.mode (with_vault r.0 g.device)) g.window)
      ]

  -- "authenticators"
  abbrev pub authenticators_label : Text
  authenticators_label =
      b'a' ∷ b'u' ∷ b't' ∷ b'h' ∷ b'e' ∷ b'n' ∷ b't' ∷ b'i' ∷ b'c' ∷ b'a' ∷ b't' ∷ b'o' ∷ b'r'
      ∷ b's' ∷ []

  unfoldable pub import_authenticators : List TotpEntry → Program → Option Program
  unfolding persist finish_import
  import_authenticators entries g =
      if not (is_some g.device.state.vault_path) then none else elim g.device.state.vault [
        | none ↦ some g
        | some v ↦
            let r = do_import_totps entries v in
            some (
              finish_import r.1 authenticators_label (persist v.mode (with_vault r.0 g.device))
                g.window)
      ]
