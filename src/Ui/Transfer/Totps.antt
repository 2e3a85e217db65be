-- ===== src/Ui/Transfer/Totps.antt =====
-- The round trip of the authenticators in src/ui/bridge/import_export.rs, in JSON.
use passx.Base.{
  All, Bool, Bytes, List, Option, Option-cases, Text, [], ap, arith, bytes_eq_refl, err, false,
  filter_map, inl, inr, length, length-map, map, none, not, ok, refl, retain, some, suc, true, ℕ,
  ◌∙◌, ◌∷◌, ◌≡◌,
}
use passx.Vault.Entry.{TotpEntry, Fresh, HasSecret}
use passx.Ui.State.{write_file}
use passx.Ui.Transfer.{
  sha1, AccountExport, TotpExportStruct, totp_from_entry, totp_to_entry, Codec, ExportIo, collect,
  Disk, TransferError, export_json, import_json, exported_totps, export_totps_json,
  import_totps_json,
}
use passx.Ui.Transfer.RoundTrip.{CodecLaws, secure_copy_nonempty, nonempty_text}

-- An authenticator that a file can hold: its secret is a text.
pub record IsTextual (lossy : Bytes → Text) (t : TotpEntry) : Type 0 where
  pub secret_text : lossy t.secret ≡ t.secret
  pub has_secret : HasSecret t

-- The authenticator that a file gives back: it is new, linked to no account, and has no icon.
unfoldable pub reborn_totp : Fresh → TotpEntry → TotpEntry
reborn_totp f t = record t {
  id = f.id;
  linked_account_id = none;
  deleted = false;
  icon_data = none;
  created_at = f.created;
  updated_at = f.updated;
}

unfoldable pub reborn_totps : (ℕ → Fresh) → ℕ → List TotpEntry → List TotpEntry
unfolding reborn_totp
reborn_totps fresh k [] = []
reborn_totps fresh k (t ∷ ts) = reborn_totp (fresh k) t ∷ reborn_totps fresh (suc k) ts

-- The row of an authenticator.
abbrev totp_export : TotpEntry → TotpExportStruct
totp_export t = record {
  name = t.account_name;
  secret = t.secret;
  issuer = t.issuer;
  algorithm = sha1;
  digits = 6;
  period = 30;
}

totp_from_entry_lem :
    (lossy : Bytes → Text) (t : TotpEntry)
    → IsTextual lossy t
    → totp_from_entry lossy t ≡ some (totp_export t)
unfolding totp_from_entry
totp_from_entry_lem lossy t x = rw (x.secret_text, nonempty_text t.secret x.has_secret) refl

totp_to_entry-totp_export :
    (f : Fresh) (t : TotpEntry)
    → HasSecret t
    → ((n : ℕ) → f.alloc n ≡ true)
    → totp_to_entry f (totp_export t) ≡ some (reborn_totp f t)
unfolding totp_to_entry reborn_totp
totp_to_entry-totp_export f t h free =
    rw (totp_to_entry, secure_copy_nonempty f.alloc t.secret free h) refl

filter_map_lem :
    (lossy : Bytes → Text) (ts : List TotpEntry)
    → All (IsTextual lossy) ts
    → filter_map (totp_from_entry lossy) ts ≡ map totp_export ts
filter_map_lem lossy [] xs = refl
filter_map_lem lossy (t ∷ ts) xs =
    rw (filter_map, totp_from_entry_lem lossy t xs.0)
      (ap (◌∷◌ (totp_export t)) (filter_map_lem lossy ts xs.1))

collect_totps :
    (lossy : Bytes → Text) (fresh : ℕ → Fresh) (k : ℕ) (ts : List TotpEntry)
    → All (IsTextual lossy) ts
    → ((i n : ℕ) → (fresh i).alloc n ≡ true)
    → collect totp_to_entry fresh k (map totp_export ts) ≡ reborn_totps fresh k ts
unfolding reborn_totps
collect_totps lossy fresh k [] xs free = refl
collect_totps lossy fresh k (t ∷ ts) xs free =
    rw (collect, totp_to_entry-totp_export (fresh k) t xs.0.has_secret (free k))
      (ap (◌∷◌ (reborn_totp (fresh k) t)) (collect_totps lossy fresh (suc k) ts xs.1 free))

export_json_printed :
    {R : Type 0} (c : Codec R) (io : ExportIo) (xs : List R) (path : Text) (disk : Disk) {n : ℕ}
    {json : Bytes}
    → c.json_print xs ≡ some json
    → (export_json c io xs path disk).0 ≡ ok n
    → (n ≡ length xs) × ((export_json c io xs path disk).1 path ≡ some json)
unfolding export_json write_file
export_json_printed c io xs path disk printed done = ground (arith, bytes_eq_refl path)

export_json_failed :
    {R : Type 0} (c : Codec R) (io : ExportIo) (xs : List R) (path : Text) (disk : Disk)
    → c.json_print xs ≡ none
    → (export_json c io xs path disk).0 ≡ err TransferError.json_error
unfolding export_json
export_json_failed c io xs path disk failed = rw (export_json, failed) refl

import_json_lem :
    {R E : Type 0} (c : Codec R) (to_entry : Fresh → R → Option E) (is_utf8 : Bytes → Bool)
    (fresh : ℕ → Fresh) (xs : List R) (path : Text) (disk : Disk) {json : Bytes}
    → disk path ≡ some json
    → is_utf8 json ≡ true
    → c.json_parse json ≡ some xs
    → import_json c to_entry true is_utf8 fresh path disk ≡ ok (collect to_entry fresh 0 xs)
unfolding import_json
import_json_lem c to_entry is_utf8 fresh xs path disk there utf8 parse =
    rw (there, utf8, parse) refl

-- An export of authenticators to JSON that succeeds counts the live ones, and an import of its file,
-- in which every buffer can be allocated, gives them back in their order, as new ones without links
-- and icons; their secrets were texts, and JSON is printed in UTF-8.
import_totps_json-export_totps_json :
    (accounts : Codec AccountExport) (totps : Codec TotpExportStruct) (laws : CodecLaws totps)
    (lossy : Bytes → Text) (is_utf8 : Bytes → Bool) (io : ExportIo) (fresh : ℕ → Fresh)
    (ts : List TotpEntry) (path : Text) (disk : Disk) {n : ℕ}
    → All (IsTextual lossy) (retain (λ t. not t.deleted) ts)
    → ((i k : ℕ) → (fresh i).alloc k ≡ true)
    → ((xs : List TotpExportStruct) (json : Bytes)
        → totps.json_print xs ≡ some json
        → is_utf8 json ≡ true)
    → (export_totps_json accounts totps lossy io ts path disk).0 ≡ ok n
    → (n ≡ length (retain (λ t. not t.deleted) ts))
      × (import_totps_json accounts totps true is_utf8 fresh path
            (export_totps_json accounts totps lossy io ts path disk).1
          ≡ ok (reborn_totps fresh 0 (retain (λ t. not t.deleted) ts)))
unfolding export_totps_json import_totps_json
import_totps_json-export_totps_json accounts totps laws lossy is_utf8 io fresh ts path disk sound
      free utf8 done =
    let live = retain (λ t. not t.deleted) ts in
    let rows = exported_totps lossy ts in
    let same : rows ≡ map totp_export live = filter_map_lem lossy live sound in
    elim (Option-cases (totps.json_print rows)) [
      | inl failed ↦
          absurd (let clash = export_json_failed totps io rows path disk failed in ground arith)
      | inr (json, printed) ↦
          let (count, there) = export_json_printed totps io rows path disk printed done in
          (
            count ∙ (ap (λ xs. length xs) same ∙ length-map totp_export live),
            import_json_lem totps totp_to_entry is_utf8 fresh rows path
                  (export_json totps io rows path disk).1 there (utf8 rows json printed)
                  (laws.parse_of_print rows printed)
                ∙ ap ok (
                    ap (collect totp_to_entry fresh 0) same
                    ∙ collect_totps lossy fresh 0 live sound free),
          )
    ]
