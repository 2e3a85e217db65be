-- ===== src/Ui/Model.antt =====
-- src/ui/bridge/model.rs: the rows that the window shows. What the code calls of the standard
-- library and of the base64 and image crates is a parameter.
pub mod Shown
use passx.Base.{
  Bool, Bytes, List, Option, Text, [], bytes_eq, false, find_first, if◌then◌else◌, is_some, none,
  not, some, true, unwrap_or, ℕ, ◌&&◌, ◌++◌, ◌==◌, ◌||◌, ◌∷◌,
}
use passx.Vault.Entry.{AccountEntry, TotpEntry}
use passx.Vault.Format.{Vault}
use passx.Ui.State.{accounts_filter, all_filter, trash_filter, favorites_filter, totp_filter}

abbrev pub Icon : Type 0
Icon = Bytes × ℕ × ℕ

pub record Rendering : Type 0 where
  -- `str::to_lowercase`
  pub to_lowercase : Text → Text
  -- `chars().next().unwrap_or('?').to_uppercase()`
  pub initial : Text → Text
  -- `String::from_utf8_lossy`
  pub from_utf8_lossy : Bytes → Text
  -- base64 decoding, and the picture that it gives; the panic on a picture that is not stored with an
  -- alpha channel of 8 bits is left out
  pub decode : Text → Option Icon

pub data EntryType : Type 0 where
  account totp : EntryType

pub record VaultEntryModel : Type 0 where
  pub id : Text
  pub title : Text
  pub username : Text
  pub url : Text
  pub icon_text : Text
  pub deleted : Bool
  pub folder : Text
  pub icon_data : Option Icon
  pub totp_code : Text
  pub has_totp : Bool
  pub entry_type : EntryType
  pub linked_id : Text
  pub notes : Text

abbrev pub starts_with : Text → Text → Bool
starts_with [] s = true
starts_with (c ∷ q) [] = false
starts_with (c ∷ q) (x ∷ s) = c == x && starts_with q s

-- `s.contains(q)`
unfoldable pub contains : Text → Text → Bool
contains [] q = starts_with q []
contains (x ∷ s) q = starts_with q (x ∷ s) || contains s q

-- `linked_account_id.as_deref() == Some(id)`
unfoldable pub is_linked : Text → TotpEntry → Bool
is_linked id t = elim t.linked_account_id [ none ↦ false | some j ↦ bytes_eq j id ]

-- "******"
abbrev pub masked : Text
masked = b'*' ∷ b'*' ∷ b'*' ∷ b'*' ∷ b'*' ∷ b'*' ∷ []

-- The first live authenticator that is linked to an account.
unfoldable pub linked_totp : Text → List TotpEntry → Option TotpEntry
linked_totp id totps = find_first (λ t. not t.deleted && is_linked id t) totps

module _ (r : Rendering) where
  open r use {to_lowercase, initial, from_utf8_lossy, decode}

  abbrev pub decode_icon_data : Option Text → Option Icon
  decode_icon_data none = none
  decode_icon_data (some b64) = decode b64

  -- The search text matches one of two fields.
  unfoldable pub matches : Text → Text → Text → Bool
  matches q a b = bytes_eq q [] || (contains (to_lowercase a) q || contains (to_lowercase b) q)

  unfoldable pub account_row : List TotpEntry → AccountEntry → VaultEntryModel
  account_row totps acc = record {
    id = acc.id;
    title = acc.title;
    username = acc.username;
    url = acc.url;
    icon_text = initial acc.title;
    deleted = acc.deleted;
    folder = unwrap_or [] acc.folder;
    icon_data = decode_icon_data acc.icon_data;
    totp_code = if is_some (linked_totp acc.id totps) then masked else [];
    has_totp = is_some (linked_totp acc.id totps);
    entry_type = account;
    linked_id = elim (linked_totp acc.id totps) [ none ↦ [] | some t ↦ t.id ];
    notes = from_utf8_lossy acc.notes;
  }

  unfoldable pub totp_row : TotpEntry → VaultEntryModel
  totp_row t = record {
    id = t.id;
    title = t.issuer;
    username = t.account_name;
    url = [];
    icon_text = initial t.issuer;
    deleted = t.deleted;
    folder = [];
    icon_data = decode_icon_data t.icon_data;
    totp_code = masked;
    has_totp = true;
    entry_type = totp;
    linked_id = unwrap_or [] t.linked_account_id;
    notes = [];
  }

  -- The loops of `generate_vault_entries`, with their `continue`s; `trash` says whether the filter
  -- is "trash".
  unfoldable pub account_rows :
      Bool → Text → List TotpEntry → List AccountEntry → List VaultEntryModel
  account_rows trash q totps [] = []
  account_rows trash q totps (acc ∷ accs) =
      let rest = account_rows trash q totps accs in
      if trash && not acc.deleted
      then rest
      else if not trash && acc.deleted
      then rest
      else if not (matches q acc.title acc.username)
      then rest
      else account_row totps acc ∷ rest

  unfoldable pub totp_rows : Bool → Text → List TotpEntry → List VaultEntryModel
  totp_rows trash q [] = []
  totp_rows trash q (t ∷ ts) =
      let rest = totp_rows trash q ts in
      if trash && not t.deleted
      then rest
      else if not trash && t.deleted
      then rest
      else if not (matches q t.issuer t.account_name)
      then rest
      else totp_row t ∷ rest

  abbrev pub shows_accounts : Text → Bool
  shows_accounts filter =
      bytes_eq filter accounts_filter
      || (bytes_eq filter all_filter
          || (bytes_eq filter trash_filter || bytes_eq filter favorites_filter))

  abbrev pub shows_totps : Text → Bool
  shows_totps filter =
      bytes_eq filter totp_filter || (bytes_eq filter all_filter || bytes_eq filter trash_filter)

  unfoldable pub generate_vault_entries : Vault → Text → Text → List VaultEntryModel
  generate_vault_entries vault search filter =
      let q = to_lowercase search in
      let trash = bytes_eq filter trash_filter in
      (if shows_accounts filter then account_rows trash q vault.totps vault.accounts else [])
      ++ (if shows_totps filter then totp_rows trash q vault.totps else [])
