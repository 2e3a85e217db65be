-- ===== src/Ui/Transfer.antt =====
-- src/ui/bridge/import_export.rs. What the crates csv and serde_json write and read is a parameter,
-- as is `String::from_utf8_lossy`; each created entry draws on its own surroundings.
pub mod RoundTrip
pub mod Totps
pub mod Reimport
pub mod Dialogs
pub mod Confined
use passx.Base.{
  ◌>>=◌, Result, Bool, Bytes, List, Option, Text, [], err, false, filter_map, if◌then◌else◌, length,
  map, none, not, ok, ok_or, retain, some, suc, true, unwrap_or, ℕ, ◌&&◌, ◌+◌, ◌∷◌,
}
use passx.Memory.Guard.View.{secure_copy}
use passx.Vault.Entry.{AccountEntry, TotpEntry, Fresh, empty_buffer}
use passx.Ui.State.{write_file}
use passx.Ui.Entries.{is_empty_text}

pub record AccountExport : Type 0 where
  pub name : Text
  pub url : Text
  pub username : Text
  pub password : Text
  pub note : Text
  pub folder : Text

pub record TotpExportStruct : Type 0 where
  pub name : Text
  pub secret : Text
  pub issuer : Text
  pub algorithm : Text
  pub digits : ℕ
  pub period : ℕ

-- "SHA1"
abbrev pub sha1 : Text
sha1 = b'S' ∷ b'H' ∷ b'A' ∷ b'1' ∷ []

unfoldable pub account_from_entry : (Bytes → Text) → AccountEntry → AccountExport
account_from_entry lossy entry = record {
  name = entry.title;
  url = entry.url;
  username = entry.username;
  password = lossy entry.password;
  note = lossy entry.notes;
  folder = unwrap_or [] entry.folder;
}

abbrev pub note_buffer : (ℕ → Bool) → Text → Option Bytes
note_buffer alloc note = if is_empty_text note then empty_buffer alloc else secure_copy alloc note

abbrev pub folder_of : Text → Option Text
folder_of folder = if is_empty_text folder then none else some folder

unfoldable pub account_to_entry : Fresh → AccountExport → Option AccountEntry
account_to_entry f x = elim (secure_copy f.alloc x.password) [
  | none ↦ none
  | some password_buf ↦ elim (note_buffer f.alloc x.note) [
    | none ↦ none
    | some notes_buf ↦ some (record {
      id = f.id;
      title = x.name;
      username = x.username;
      password = password_buf;
      url = x.url;
      notes = notes_buf;
      deleted = false;
      folder = folder_of x.folder;
      icon_data = none;
      created_at = f.created;
      updated_at = f.updated;
    })
  ]
]

unfoldable pub totp_from_entry : (Bytes → Text) → TotpEntry → Option TotpExportStruct
totp_from_entry lossy entry =
    if is_empty_text (lossy entry.secret)
    then none
    else some (record {
      name = entry.account_name;
      secret = lossy entry.secret;
      issuer = entry.issuer;
      algorithm = sha1;
      digits = 6;
      period = 30;
    })

unfoldable pub totp_to_entry : Fresh → TotpExportStruct → Option TotpEntry
totp_to_entry f x = elim (secure_copy f.alloc x.secret) [
  | none ↦ none
  | some secret_buf ↦ some (record {
    id = f.id;
    issuer = x.issuer;
    account_name = x.name;
    secret = secret_buf;
    linked_account_id = none;
    deleted = false;
    icon_data = none;
    created_at = f.created;
    updated_at = f.updated;
  })
]

pub data TransferError : Type 0 where
  csv_not_created csv_write_error csv_flush_error json_error write_error : TransferError
  csv_not_opened read_error invalid_json no_vault_loaded : TransferError
  csv_row_error : ℕ → TransferError

-- The two formats of a record: a row that does not parse is `none`.
pub record Codec (R : Type 0) : Type 0 where
  pub csv_print : List R → Bytes
  pub csv_rows : Bytes → List (Option R)
  pub json_print : List R → Option Bytes
  pub json_parse : Bytes → Option (List R)

-- The outcomes of the calls of one export, and what is in a file that was not written to its end.
pub record ExportIo : Type 0 where
  pub create_ok : Bool
  pub row_ok : ℕ → Bool
  pub flush_ok : Bool
  pub write_ok : Bool
  pub partial : Bytes

abbrev pub rows_ok {ℓ} : {R : Type ℓ} → (ℕ → Bool) → ℕ → List R → Bool
rows_ok row_ok k [] = true
rows_ok row_ok k (x ∷ xs) = row_ok k && rows_ok row_ok (suc k) xs

-- Each creation of an entry draws on the surroundings of its row.
abbrev pub collect : {R E : Type 0} → (Fresh → R → Option E) → (ℕ → Fresh) → ℕ → List R → List E
collect to_entry fresh k [] = []
collect to_entry fresh k (x ∷ xs) = elim (to_entry (fresh k) x) [
  | none ↦ collect to_entry fresh (suc k) xs
  | some e ↦ e ∷ collect to_entry fresh (suc k) xs
]

-- The rows of a CSV file up to the first that does not parse.
abbrev pub parsed : {R : Type 0} → ℕ → List (Option R) → Result TransferError (List R)
parsed i [] = ok []
parsed i (none ∷ rows) = err (csv_row_error (i + 1))
parsed i (some x ∷ rows) = do rest ← parsed (suc i) rows; ok (x ∷ rest)

abbrev pub Disk : Type 0
Disk = Text → Option Bytes

module _ {R : Type 0} (c : Codec R) where
  -- The common body of the exports to CSV.
  unfoldable pub export_csv : ExportIo → List R → Text → Disk → Result TransferError ℕ × Disk
  unfolding write_file
  export_csv io export path disk =
      if not io.create_ok
      then (err csv_not_created, disk)
      else if not (rows_ok io.row_ok 0 export)
      then (err csv_write_error, write_file disk path io.partial)
      else if not io.flush_ok
      then (err csv_flush_error, write_file disk path io.partial)
      else (ok (length export), write_file disk path (c.csv_print export))

  -- And of those to JSON.
  unfoldable pub export_json : ExportIo → List R → Text → Disk → Result TransferError ℕ × Disk
  unfolding write_file
  export_json io export path disk = elim (c.json_print export) [
    | none ↦ (err json_error, disk)
    | some json ↦
        if not io.create_ok
        then (err write_error, disk)
        else if not io.write_ok
        then (err write_error, write_file disk path io.partial)
        else (ok (length export), write_file disk path json)
  ]

  module _ {E : Type 0} (to_entry : Fresh → R → Option E) where
    unfoldable pub import_csv : Bool → (ℕ → Fresh) → Text → Disk → Result TransferError (List E)
    import_csv open_ok fresh path disk = do
      content ← ok_or csv_not_opened (if open_ok then disk path else none)
      rows ← parsed 0 (c.csv_rows content)
      ok (collect to_entry fresh 0 rows)

    -- The file must be valid UTF-8.
    unfoldable pub import_json :
        Bool → (Bytes → Bool) → (ℕ → Fresh) → Text → Disk → Result TransferError (List E)
    import_json read_ok is_utf8 fresh path disk = do
      content ← ok_or read_error (if read_ok then disk path else none)
      text ← if is_utf8 content then ok content else err read_error
      rows ← ok_or invalid_json (c.json_parse text)
      ok (collect to_entry fresh 0 rows)

abbrev pub exported_accounts : (Bytes → Text) → List AccountEntry → List AccountExport
exported_accounts lossy entries =
    map (account_from_entry lossy) (retain (λ e. not e.deleted) entries)

abbrev pub exported_totps : (Bytes → Text) → List TotpEntry → List TotpExportStruct
exported_totps lossy entries =
    filter_map (totp_from_entry lossy) (retain (λ e. not e.deleted) entries)

-- The eight functions of the module.
module _ (accounts : Codec AccountExport) (totps : Codec TotpExportStruct)
    (lossy : Bytes → Text) where
  unfoldable pub export_accounts_csv :
      ExportIo → List AccountEntry → Text → Disk → Result TransferError ℕ × Disk
  unfolding export_csv account_from_entry
  export_accounts_csv io entries path disk =
      export_csv accounts io (exported_accounts lossy entries) path disk

  unfoldable pub export_accounts_json :
      ExportIo → List AccountEntry → Text → Disk → Result TransferError ℕ × Disk
  unfolding export_json account_from_entry
  export_accounts_json io entries path disk =
      export_json accounts io (exported_accounts lossy entries) path disk

  unfoldable pub export_totps_csv :
      ExportIo → List TotpEntry → Text → Disk → Result TransferError ℕ × Disk
  unfolding export_csv totp_from_entry
  export_totps_csv io entries path disk =
      export_csv totps io (exported_totps lossy entries) path disk

  unfoldable pub export_totps_json :
      ExportIo → List TotpEntry → Text → Disk → Result TransferError ℕ × Disk
  unfolding export_json totp_from_entry
  export_totps_json io entries path disk =
      export_json totps io (exported_totps lossy entries) path disk

module _ (accounts : Codec AccountExport) (totps : Codec TotpExportStruct) where
  unfoldable pub import_accounts_csv :
      Bool → (ℕ → Fresh) → Text → Disk → Result TransferError (List AccountEntry)
  unfolding import_csv account_to_entry
  import_accounts_csv open_ok fresh path disk =
      import_csv accounts account_to_entry open_ok fresh path disk

  unfoldable pub import_accounts_json :
      Bool → (Bytes → Bool) → (ℕ → Fresh) → Text → Disk → Result TransferError (List AccountEntry)
  unfolding import_json account_to_entry
  import_accounts_json read_ok is_utf8 fresh path disk =
      import_json accounts account_to_entry read_ok is_utf8 fresh path disk

  unfoldable pub import_totps_csv :
      Bool → (ℕ → Fresh) → Text → Disk → Result TransferError (List TotpEntry)
  unfolding import_csv totp_to_entry
  import_totps_csv open_ok fresh path disk = import_csv totps totp_to_entry open_ok fresh path disk

  unfoldable pub import_totps_json :
      Bool → (Bytes → Bool) → (ℕ → Fresh) → Text → Disk → Result TransferError (List TotpEntry)
  unfolding import_json totp_to_entry
  import_totps_json read_ok is_utf8 fresh path disk =
      import_json totps totp_to_entry read_ok is_utf8 fresh path disk
