-- ===== src/Tests/Transfers.antt =====
-- Runs of the exports, the imports and the mirrors, with a format that can be computed.
use passx.Base.{
  All, Bool, Bytes, List, Option, Text, [], ap, arith, false, is_some, length, map, none, not, ok,
  refl, retain, some, suc, sym, true, zero, ℕ, ◌++◌, ◌∙◌, ◌∷◌, ◌≡◌, ◌⊎◌,
}
use passx.Vault.Entry.{AccountEntry, Fresh}
use passx.Vault.Format.{Vault}
use passx.Vault.Mirror.{MirrorIo, sync_mirrors_from_file}
use passx.Vault.Mirror.Copies.{Has}
use passx.Ui.State.{AppState, write_file}
use passx.Ui.Transfer.{
  AccountExport, TotpExportStruct, Codec, ExportIo, account_from_entry, export_csv,
  export_accounts_csv, import_accounts_csv,
}
use passx.Ui.Transfer.RoundTrip.{
  CodecLaws, IsExportable, reborn_all, import_accounts_csv-export_accounts_csv,
}
use passx.Ui.Vault.Sync.{summary, take_mirrors, sync_taken, on_sync_mirrors, on_sync_mirrors-copies}
use passx.Ui.Transfer.Dialogs.{Surroundings, on_export_passwords}
use passx.Ui.Transfer.Confined.{on_export_passwords_confined}
use passx.Tests.Callbacks.{env, start}
use passx.Tests.Access.{held, some_vault, file, disk, lossy}

-- A field is its characters, each counted up by one, and a zero.
abbrev field : Text → Bytes
field [] = 0 ∷ []
field (c ∷ cs) = suc c ∷ field cs

abbrev print_fields : List Text → Bytes
print_fields [] = []
print_fields (t ∷ ts) = field t ++ print_fields ts

abbrev with_char : ℕ → List Text → List Text
with_char c [] = (c ∷ []) ∷ []
with_char c (t ∷ ts) = (c ∷ t) ∷ ts

abbrev fields : Bytes → List Text
fields [] = []
fields (zero ∷ bs) = [] ∷ fields bs
fields (suc c ∷ bs) = with_char c (fields bs)

fields-field : (t : Text) (bs : Bytes) → fields (field t ++ bs) ≡ t ∷ fields bs
fields-field [] bs = refl
fields-field (c ∷ cs) bs = ap (with_char c) (fields-field cs bs)

fields-print_fields : (ts : List Text) → fields (print_fields ts) ≡ ts
fields-print_fields [] = refl
fields-print_fields (t ∷ ts) =
    fields-field t (print_fields ts) ∙ ap (◌∷◌ t) (fields-print_fields ts)

abbrev flat : List AccountExport → List Text
flat [] = []
flat (x ∷ xs) = x.name ∷ x.url ∷ x.username ∷ x.password ∷ x.note ∷ x.folder ∷ flat xs

abbrev grouped : List Text → List (Option AccountExport)
grouped [] = []
grouped (a ∷ b ∷ c ∷ d ∷ e ∷ f ∷ rest) =
    some (record { name = a; url = b; username = c; password = d; note = e; folder = f })
    ∷ grouped rest
grouped _ = none ∷ []

grouped-flat : (xs : List AccountExport) → grouped (flat xs) ≡ map some xs
grouped-flat [] = refl
grouped-flat (x ∷ xs) = ap (◌∷◌ (some x)) (grouped-flat xs)

abbrev all_rows : List (Option AccountExport) → Option (List AccountExport)
all_rows [] = some []
all_rows (none ∷ rows) = none
all_rows (some x ∷ rows) = elim (all_rows rows) [ none ↦ none | some xs ↦ some (x ∷ xs) ]

all_rows-map : (xs : List AccountExport) → all_rows (map some xs) ≡ some xs
all_rows-map [] = refl
all_rows-map (x ∷ xs) = rw (all_rows-map xs) refl

abbrev account_codec : Codec AccountExport
account_codec = record {
  csv_print = λ xs. print_fields (flat xs);
  csv_rows = λ bs. grouped (fields bs);
  json_print = λ xs. some (print_fields (flat xs));
  json_parse = λ bs. all_rows (grouped (fields bs));
}

rows_lem : (xs : List AccountExport) → grouped (fields (print_fields (flat xs))) ≡ map some xs
rows_lem xs = ap grouped (fields-print_fields (flat xs)) ∙ grouped-flat xs

account_codec-CodecLaws : CodecLaws account_codec
account_codec-CodecLaws = record {
  rows_of_print = rows_lem;
  parse_of_print = λ xs {json} h.
      let same : print_fields (flat xs) ≡ json = cc in
      ap (λ bs. all_rows (grouped (fields bs))) (sym same)
      ∙ (ap all_rows (rows_lem xs) ∙ all_rows-map xs);
}

abbrev no_codec : Codec TotpExportStruct
no_codec = record {
  csv_print = λ xs. [];
  csv_rows = λ bs. [];
  json_print = λ xs. none;
  json_parse = λ bs. none;
}

abbrev export_io : ExportIo
export_io = record {
  create_ok = true;
  row_ok = λ k. true;
  flush_ok = true;
  write_ok = true;
  partial = [];
}

abbrev entry : Text → Bool → AccountEntry
entry title deleted = record {
  id = b'1' ∷ [];
  title = title;
  username = b'u' ∷ [];
  password = b'p' ∷ b'w' ∷ [];
  url = [];
  notes = 0 ∷ [];
  deleted = deleted;
  folder = some (b'f' ∷ []);
  icon_data = none;
  created_at = 1;
  updated_at = 2;
}

abbrev entries : List AccountEntry
entries = entry (b'A' ∷ []) false ∷ entry (b'B' ∷ []) true ∷ []

abbrev fresh : ℕ → Fresh
fresh k = record { alloc = λ n. true; id = k ∷ []; created = 7; updated = 7 }

exportable : All (IsExportable lossy) (retain (λ e. not e.deleted) entries)
exportable = (
  record {
    password_text = refl;
    notes_text = refl;
    buffers = record { password_nonempty = omega arith; notes_nonempty = omega arith };
    folder_named = refl;
  },
  tt,
)

abbrev path : Text
path = b'x' ∷ []

exported : (export_accounts_csv account_codec no_codec lossy export_io entries path disk).0 ≡ ok 1
unfolding export_accounts_csv export_csv write_file account_from_entry
exported = refl

import_accounts_csv-export_accounts_csv_example :
    (◌≡◌ {A = ℕ} 1 (length (retain (λ e. not e.deleted) entries)))
    × (import_accounts_csv account_codec no_codec true fresh path
          (export_accounts_csv account_codec no_codec lossy export_io entries path disk).1
        ≡ ok (reborn_all fresh 0 (retain (λ e. not e.deleted) entries)))
import_accounts_csv-export_accounts_csv_example =
    import_accounts_csv-export_accounts_csv account_codec no_codec account_codec-CodecLaws lossy
      export_io fresh entries path disk exportable (λ i k. refl) exported

abbrev mirror_io : MirrorIo
mirror_io = record {
  parent_ok = λ k. true;
  create_ok = λ k. true;
  write_ok = λ k. true;
  partial = λ k. [];
}

abbrev mirrored_vault : Vault
mirrored_vault = record some_vault { mirrors = path ∷ (b'y' ∷ []) ∷ [] }

abbrev there : Text → Option Bytes
there p = some (9 ∷ [])

abbrev mirrored : AppState
mirrored = record held { vault = some mirrored_vault }

two_synced :
    (on_sync_mirrors mirror_io true true (mirrored, there)).1
    ≡ some (record { success_count = 2; fail_count = 0 })
unfolding on_sync_mirrors take_mirrors sync_taken sync_mirrors_from_file summary write_file
two_synced = refl

on_sync_mirrors-copies_example :
    let r = (on_sync_mirrors mirror_io true true (mirrored, there)).0 in
    (r.0 ≡ mirrored) × All (Has (9 ∷ []) r.1) mirrored_vault.mirrors
on_sync_mirrors-copies_example =
    on_sync_mirrors-copies mirror_io true true mirrored there mirrored_vault file (9 ∷ []) refl refl
      refl two_synced refl

-- The user is authenticated and picks a file.
abbrev around : Surroundings
around = record {
  env = env;
  accounts = account_codec;
  totps = no_codec;
  from_utf8_lossy = lossy;
  is_utf8 = λ b. true;
  authenticate_user = true;
  picked = some path;
  extension = λ p. none;
  export_io = export_io;
  read_ok = true;
  fresh_entries = fresh;
}

on_export_passwords_confined_example :
    ((on_export_passwords around start).0.device.state ≡ start.device.state)
    × (((on_export_passwords around start).0.device.disk path ≡ start.device.disk path)
        ⊎ ((true ≡ true) × (around.picked ≡ some path) × (is_some start.device.state.vault ≡ true)))
on_export_passwords_confined_example = on_export_passwords_confined around start path
