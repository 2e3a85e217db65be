-- ===== src/Ui/Transfer/RoundTrip.antt =====
-- What src/ui/bridge/import_export.rs imports from a file that it exported.
use passx.Base.{
  All, Bool, Bytes, List, Option, Text, [], ap, arith, bytes_eq_refl, false, length, length-map,
  map, none, not, ok, refl, retain, some, suc, true, unwrap_or, ℕ, ◌<◌, ◌>>=◌, ◌∙◌, ◌∷◌, ◌≡◌,
}
use passx.Memory.Guard.View.{secure_copy}
use passx.Crypto.Cipher.RoundTrip.{secure_copy_all}
use passx.Ui.State.{write_file}
use passx.Vault.Entry.{AccountEntry, Fresh, HasBuffers}
use passx.Ui.Entries.{is_empty_text}
use passx.Ui.Transfer.{
  exported_accounts, ExportIo, TotpExportStruct, AccountExport, Disk, import_accounts_csv,
  write_file, export_accounts_csv, export_csv, import_csv, account_from_entry, account_to_entry,
  folder_of, note_buffer, Codec, collect, parsed,
}

-- What the crates document of a format: the rows that were written are read back.
pub record CodecLaws {R : Type 0} (c : Codec R) : Type 0 where
  pub rows_of_print : (xs : List R) → c.csv_rows (c.csv_print xs) ≡ map some xs
  pub parse_of_print :
      (xs : List R) {json : Bytes} → c.json_print xs ≡ some json → c.json_parse json ≡ some xs

-- An account that a file can hold: its secrets are texts, and no folder has an empty name.
pub record IsExportable (lossy : Bytes → Text) (e : AccountEntry) : Type 0 where
  pub password_text : lossy e.password ≡ e.password
  pub notes_text : lossy e.notes ≡ e.notes
  pub buffers : HasBuffers e
  pub folder_named : folder_of (unwrap_or [] e.folder) ≡ e.folder

-- The account that a file gives back: it is new, and has no icon.
unfoldable pub reborn : Fresh → AccountEntry → AccountEntry
reborn f e = record e {
  id = f.id;
  deleted = false;
  icon_data = none;
  created_at = f.created;
  updated_at = f.updated;
}

unfoldable pub reborn_all : (ℕ → Fresh) → ℕ → List AccountEntry → List AccountEntry
unfolding reborn
reborn_all fresh k [] = []
reborn_all fresh k (e ∷ es) = reborn (fresh k) e ∷ reborn_all fresh (suc k) es

pub secure_copy_nonempty :
    (alloc : ℕ → Bool) (b : Bytes)
    → ((n : ℕ) → alloc n ≡ true)
    → 0 < length b
    → secure_copy alloc b ≡ some b
secure_copy_nonempty alloc [] free h = absurd (omega arith)
secure_copy_nonempty alloc (x ∷ xs) free h = secure_copy_all alloc (x ∷ xs) free

pub nonempty_text : (b : Bytes) → 0 < length b → is_empty_text b ≡ false
nonempty_text [] h = absurd (omega arith)
nonempty_text (x ∷ xs) h = refl

account_to_entry-account_from_entry :
    (lossy : Bytes → Text) (f : Fresh) (e : AccountEntry)
    → IsExportable lossy e
    → ((n : ℕ) → f.alloc n ≡ true)
    → account_to_entry f (account_from_entry lossy e) ≡ some (reborn f e)
unfolding account_to_entry account_from_entry reborn
account_to_entry-account_from_entry lossy f e x free =
    let pw : secure_copy f.alloc (lossy e.password) ≡ some e.password =
      ap (secure_copy f.alloc) x.password_text
      ∙ secure_copy_nonempty f.alloc e.password free x.buffers.password_nonempty in
    let nt : note_buffer f.alloc (lossy e.notes) ≡ some e.notes =
      ap (note_buffer f.alloc) x.notes_text
      ∙ rw (nonempty_text e.notes x.buffers.notes_nonempty)
          (secure_copy_nonempty f.alloc e.notes free x.buffers.notes_nonempty) in
    rw (account_to_entry, pw, nt, x.folder_named) refl

parsed-some : {R : Type 0} (k : ℕ) (xs : List R) → parsed k (map some xs) ≡ ok xs
parsed-some k [] = refl
parsed-some k (x ∷ xs) = ap (λ r. r >>= λ rest. ok (x ∷ rest)) (parsed-some (suc k) xs)

collect_reborn :
    (lossy : Bytes → Text) (fresh : ℕ → Fresh) (k : ℕ) (es : List AccountEntry)
    → All (IsExportable lossy) es
    → ((i n : ℕ) → (fresh i).alloc n ≡ true)
    → collect account_to_entry fresh k (map (account_from_entry lossy) es) ≡ reborn_all fresh k es
unfolding reborn_all
collect_reborn lossy fresh k [] xs free = refl
collect_reborn lossy fresh k (e ∷ es) xs free =
    rw (collect, account_to_entry-account_from_entry lossy (fresh k) e xs.0 (free k))
      (ap (◌∷◌ (reborn (fresh k) e)) (collect_reborn lossy fresh (suc k) es xs.1 free))

export_csv-eq-ok :
    {R : Type 0} (c : Codec R) (io : ExportIo) (xs : List R) (path : Text) (disk : Disk) {n : ℕ}
    → (export_csv c io xs path disk).0 ≡ ok n
    → (n ≡ length xs) × ((export_csv c io xs path disk).1 path ≡ some (c.csv_print xs))
unfolding export_csv write_file
export_csv-eq-ok c io xs path disk done = ground (arith, bytes_eq_refl path)

import_csv_lem :
    {R E : Type 0} (c : Codec R) (laws : CodecLaws c) (to_entry : Fresh → R → Option E)
    (fresh : ℕ → Fresh) (xs : List R) (path : Text) (disk : Disk)
    → disk path ≡ some (c.csv_print xs)
    → import_csv c to_entry true fresh path disk ≡ ok (collect to_entry fresh 0 xs)
unfolding import_csv
import_csv_lem c laws to_entry fresh xs path disk there =
    rw (there, laws.rows_of_print xs, parsed-some 0 xs) refl

-- An export of accounts to CSV that succeeds counts the live accounts, and an import of its file, in
-- which every buffer can be allocated, gives them back in their order, as new accounts without
-- icons; their secrets were texts, and no folder had an empty name.
pub import_accounts_csv-export_accounts_csv :
    (accounts : Codec AccountExport) (totps : Codec TotpExportStruct) (laws : CodecLaws accounts)
    (lossy : Bytes → Text) (io : ExportIo) (fresh : ℕ → Fresh) (es : List AccountEntry)
    (path : Text) (disk : Disk) {n : ℕ}
    → All (IsExportable lossy) (retain (λ e. not e.deleted) es)
    → ((i k : ℕ) → (fresh i).alloc k ≡ true)
    → (export_accounts_csv accounts totps lossy io es path disk).0 ≡ ok n
    → (n ≡ length (retain (λ e. not e.deleted) es))
      × (import_accounts_csv accounts totps true fresh path
            (export_accounts_csv accounts totps lossy io es path disk).1
          ≡ ok (reborn_all fresh 0 (retain (λ e. not e.deleted) es)))
unfolding export_accounts_csv import_accounts_csv
import_accounts_csv-export_accounts_csv accounts totps laws lossy io fresh es path disk sound free
      done =
    let live = retain (λ e. not e.deleted) es in
    let rows = exported_accounts lossy es in
    let (count, there) = export_csv-eq-ok accounts io rows path disk done in
    (
      count ∙ length-map (account_from_entry lossy) live,
      import_csv_lem accounts laws account_to_entry fresh rows path
            (export_csv accounts io rows path disk).1 there
          ∙ ap ok (collect_reborn lossy fresh 0 live sound free),
    )
