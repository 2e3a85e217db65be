-- ===== src/Ui/Details.antt =====
-- What the window asks of one entry: the details of src/ui/bridge/model.rs and entries.rs, the copies
-- to the clipboard, the reveal, and the codes. `authenticate_user`, and the crates base32 and totp-rs,
-- are parameters.
pub mod Linked
use passx.Base.{
  Bool, Bytes, List, Option, Text, [], false, find_first, if◌then◌else◌, is_some, length, none, not,
  some, suc, true, unwrap_or, zero, ℕ, ◌∷◌,
}
use passx.Vault.Entry.{AccountEntry, TotpEntry}
use passx.Vault.Format.{Vault}
use passx.Vault.Operations.{is_account, is_totp}
use passx.Ui.State.{AppState}
use passx.Ui.Model.{
  Rendering, Icon, EntryType, account, totp, masked, is_linked, linked_totp, decode_icon_data,
}
use passx.Ui.Entries.{strip_separators}

-- The window's `has_icon` says whether there is an icon; the entry type "" is `none`.
pub record VaultEntryData : Type 0 where
  pub id : Text
  pub title : Text
  pub username : Text
  pub url : Text
  pub icon_text : Text
  pub deleted : Bool
  pub folder : Text
  pub icon : Option Icon
  pub totp_code : Text
  pub has_totp : Bool
  pub entry_type : Option EntryType
  pub notes : Text

unfoldable pub account_to_data : Rendering → AccountEntry → Option TotpEntry → VaultEntryData
account_to_data r e linked = record {
  id = e.id;
  title = e.title;
  username = e.username;
  url = e.url;
  icon_text = r.initial e.title;
  deleted = e.deleted;
  folder = unwrap_or [] e.folder;
  icon = decode_icon_data r e.icon_data;
  totp_code = if is_some linked then masked else [];
  has_totp = is_some linked;
  entry_type = some account;
  notes = r.from_utf8_lossy e.notes;
}

unfoldable pub totp_to_data : Rendering → TotpEntry → VaultEntryData
totp_to_data r t = record {
  id = t.id;
  title = t.issuer;
  username = t.account_name;
  url = [];
  icon_text = r.initial t.issuer;
  deleted = t.deleted;
  folder = [];
  icon = decode_icon_data r t.icon_data;
  totp_code = masked;
  has_totp = true;
  entry_type = some totp;
  notes = [];
}

abbrev pub no_data : Option EntryType → VaultEntryData
no_data entry_type = record {
  id = [];
  title = [];
  username = [];
  url = [];
  icon_text = [];
  deleted = false;
  folder = [];
  icon = none;
  totp_code = [];
  has_totp = false;
  entry_type = entry_type;
  notes = [];
}

abbrev pub account_of : Vault → Text → Option AccountEntry
account_of v id = find_first (is_account id) v.accounts

abbrev pub totp_of : Vault → Text → Option TotpEntry
totp_of v id = find_first (is_totp id) v.totps

abbrev pub details_in :
    Rendering
    → (Text → List TotpEntry → Option TotpEntry)
    → Option EntryType
    → Text
    → Option Vault
    → VaultEntryData
details_in r linked missing id none = no_data missing
details_in r linked missing id (some v) = elim (account_of v id) [
  | some acc ↦ account_to_data r acc (linked acc.id v.totps)
  | none ↦ elim (totp_of v id) [ some t ↦ totp_to_data r t | none ↦ no_data missing ]
]

-- The first callback that is set for the details.
unfoldable pub entry_details_6c : Rendering → AppState → Text → VaultEntryData
unfolding account_to_data totp_to_data linked_totp
entry_details_6c r s id = details_in r linked_totp (some account) id s.vault

-- The one that is set later, and takes its place; it looks at all authenticators.
unfoldable pub entry_details_18 : Rendering → AppState → Text → VaultEntryData
unfolding account_to_data totp_to_data is_linked
entry_details_18 r s id =
    details_in r (λ acc totps. find_first (is_linked acc) totps) none id s.vault

-- What is copied, or shown, once the user is authenticated.
unfoldable pub password_of : (Bytes → Text) → Bool → AppState → Text → Option Text
password_of lossy authenticated s id = if not authenticated then none else elim s.vault [
  | none ↦ none
  | some v ↦ elim (account_of v id) [ none ↦ none | some entry ↦ some (lossy entry.password) ]
]

-- A user name is copied without authentication.
unfoldable pub on_copy_username : AppState → Text → Option Text
on_copy_username s id = elim s.vault [
  | none ↦ none
  | some v ↦ elim (account_of v id) [
    | some entry ↦ some entry.username
    | none ↦ elim (totp_of v id) [ some entry ↦ some entry.account_name | none ↦ none ]
  ]
]

-- The crates: a base32 alphabet without padding, whether `TOTP::new` takes the secret and the two
-- names, and the code for the current time.
pub record Codes : Type 0 where
  pub from_utf8_lossy : Bytes → Text
  pub to_uppercase : Text → Text
  pub base32_decode : Text → Option Bytes
  pub takes_totp : Bytes → Text → Text → Bool
  pub generate_current : Bytes → Option Text

pub data Code : Type 0 where
  code : Text → Code
  clock_error invalid bad_secret : Code

-- Zeros up to a length.
unfoldable pub padded : ℕ → Bytes → Bytes
padded zero bytes = bytes
padded (suc n) [] = 0 ∷ padded n []
padded (suc n) (b ∷ bs) = b ∷ padded n bs

unfoldable pub generate_totp_code : Codes → Bytes → Text → Text → Code
unfolding padded
generate_totp_code c secret issuer account_name =
    elim (c.base32_decode (c.to_uppercase (strip_separators (c.from_utf8_lossy secret)))) [
      | none ↦ bad_secret
      | some decoded ↦
          if c.takes_totp (padded 20 decoded) issuer account_name
          then elim (c.generate_current (padded 20 decoded)) [
            | none ↦ clock_error
            | some text ↦ code text
          ]
          else invalid
    ]

-- The code of an entry: that of a live authenticator linked to the account, or of the authenticator.
unfoldable pub on_copy_totp_code : Codes → Bool → AppState → Text → Option Code
unfolding generate_totp_code linked_totp
on_copy_totp_code c authenticated s id = if not authenticated then none else elim s.vault [
  | none ↦ none
  | some v ↦ elim (account_of v id) [
    | some acc ↦ elim (linked_totp id v.totps) [
      | none ↦ none
      | some t ↦ some (generate_totp_code c t.secret acc.title acc.username)
    ]
    | none ↦ elim (totp_of v id) [
      | none ↦ none
      | some t ↦ some (generate_totp_code c t.secret t.issuer t.account_name)
    ]
  ]
]

-- The reveal of a password, and what is left of it after ten seconds.
pub record Revealed : Type 0 where
  pub revealed_password : Text
  pub is_password_revealed : Bool

unfoldable pub reveal : (Bytes → Text) → Bool → AppState → Text → Revealed → Revealed
unfolding password_of
reveal lossy authenticated s id w = elim (password_of lossy authenticated s id) [
  | none ↦ w
  | some pass ↦ record { revealed_password = pass; is_password_revealed = true }
]

unfoldable pub auto_hide : Revealed → Revealed
auto_hide w =
    if w.is_password_revealed
    then record { revealed_password = []; is_password_revealed = false }
    else w
