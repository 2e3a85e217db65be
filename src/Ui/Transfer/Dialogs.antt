-- ===== src/Ui/Transfer/Dialogs.antt =====
-- The callbacks of src/ui/bridge/entries.rs that export and import. `authenticate_user`, the file
-- dialog and `Path::extension` are parameters; a thread is one step, and `none` is a panic.
use passx.Base.{
  Result, Bool, Bytes, Option, Text, [], bytes_eq, err, if◌then◌else◌, none, not, ok, some,
  unwrap_or, ℕ, ◌∷◌,
}
use passx.Vault.Entry.{Fresh}
use passx.Vault.Format.{Vault}
use passx.Ui.Entries.Handlers.{Env, Program, import_passwords, import_authenticators}
use passx.Ui.Transfer.{
  AccountExport, TotpExportStruct, Codec, ExportIo, Disk, TransferError, no_vault_loaded,
  export_accounts_csv, export_accounts_json, export_totps_csv, export_totps_json,
  import_accounts_csv, import_accounts_json, import_totps_csv, import_totps_json,
}

pub record Surroundings : Type 0 where
  pub env : Env
  pub accounts : Codec AccountExport
  pub totps : Codec TotpExportStruct
  pub from_utf8_lossy : Bytes → Text
  pub is_utf8 : Bytes → Bool
  pub authenticate_user : Bool
  -- The path that the dialog gives.
  pub picked : Option Text
  pub extension : Text → Option Text
  pub export_io : ExportIo
  pub read_ok : Bool
  pub fresh_entries : ℕ → Fresh

-- What the window says of an export or an import that failed, beside the program.
pub data Message : Type 0 where
  exported_accounts exported_authenticators : ℕ → Message
  export_failed import_failed : TransferError → Message

-- "json"
abbrev json_extension : Text
json_extension = b'j' ∷ b's' ∷ b'o' ∷ b'n' ∷ []

-- "csv"
abbrev csv_extension : Text
csv_extension = b'c' ∷ b's' ∷ b'v' ∷ []

module _ (x : Surroundings) where
  abbrev pub is_json : Text → Bool
  is_json path = bytes_eq (unwrap_or csv_extension (x.extension path)) json_extension

  abbrev said : (ℕ → Message) → Result TransferError ℕ → Message
  said f (ok count) = f count
  said f (err e) = export_failed e

  abbrev after_export :
      (ℕ → Message) → Result TransferError ℕ × Disk → Program → Program × Option Message
  after_export f r g = (record g { device = record (g.device) { disk = r.1 } }, some (said f r.0))

  abbrev export_of : Vault → Text → Disk → Result TransferError ℕ × Disk
  export_of vault path disk =
      if is_json path
      then export_accounts_json x.accounts x.totps x.from_utf8_lossy x.export_io vault.accounts path
          disk
      else export_accounts_csv x.accounts x.totps x.from_utf8_lossy x.export_io vault.accounts path
          disk

  abbrev export_totps_of : Vault → Text → Disk → Result TransferError ℕ × Disk
  export_totps_of vault path disk =
      if is_json path
      then export_totps_json x.accounts x.totps x.from_utf8_lossy x.export_io vault.totps path disk
      else export_totps_csv x.accounts x.totps x.from_utf8_lossy x.export_io vault.totps path disk

  -- The common frame of the two exports.
  abbrev exporting :
      (ℕ → Message)
      → (Vault → Text → Disk → Result TransferError ℕ × Disk)
      → Program
      → Program × Option Message
  exporting f write g = if not x.authenticate_user then (g, none) else elim x.picked [
    | none ↦ (g, none)
    | some path ↦ elim g.device.state.vault [
      | none ↦ (g, some (export_failed no_vault_loaded))
      | some vault ↦ after_export f (write vault path g.device.disk) g
    ]
  ]

  unfoldable pub on_export_passwords : Program → Program × Option Message
  unfolding export_accounts_csv export_accounts_json
  on_export_passwords g = exporting exported_accounts export_of g

  unfoldable pub on_export_totps : Program → Program × Option Message
  unfolding export_totps_csv export_totps_json
  on_export_totps g = exporting exported_authenticators export_totps_of g

  abbrev added : Option Program → Option (Program × Option Message)
  added none = none
  added (some g) = some (g, none)

  unfoldable pub on_import_passwords : Program → Option (Program × Option Message)
  unfolding import_accounts_csv import_accounts_json import_passwords
  on_import_passwords g = elim x.picked [
    | none ↦ some (g, none)
    | some path ↦
        elim (if is_json path
          then import_accounts_json x.accounts x.totps x.read_ok x.is_utf8 x.fresh_entries path
              g.device.disk
          else import_accounts_csv x.accounts x.totps x.read_ok x.fresh_entries path
              g.device.disk) [
                | ok entries ↦ added (import_passwords x.env entries g)
                | err e ↦ some (g, some (import_failed e))
              ]
  ]

  unfoldable pub on_import_totps : Program → Option (Program × Option Message)
  unfolding import_totps_csv import_totps_json import_authenticators
  on_import_totps g = elim x.picked [
    | none ↦ some (g, none)
    | some path ↦
        elim (if is_json path
          then import_totps_json x.accounts x.totps x.read_ok x.is_utf8 x.fresh_entries path
              g.device.disk
          else import_totps_csv x.accounts x.totps x.read_ok x.fresh_entries path g.device.disk) [
            | ok entries ↦ added (import_authenticators x.env entries g)
            | err e ↦ some (g, some (import_failed e))
          ]
  ]
