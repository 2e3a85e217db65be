-- ===== src/Tests/Window.antt =====
-- Runs of the callbacks on a small vault.
use passx.Base.{
  Text, [], bytes_eq, false, if◌then◌else◌, map, none, retain, some, take, ◌&&◌, ◌++◌, ◌∷◌, ◌≡◌,
}
use passx.Vault.Entry.{AccountEntry, TotpEntry}
use passx.Vault.Format.{Vault, portable, new_vault}
use passx.Ui.State.{accounts_filter, trash_filter}
use passx.Ui.Model.{
  Rendering, is_linked, linked_totp, generate_vault_entries, account_row, totp_row, matches,
  shows_accounts, shows_totps,
}
use passx.Ui.Model.Shown.{in_view, generate_vault_entries-retain}
use passx.Ui.Entries.{is_duplicate_account, import_accounts}

-- The identifiers "a", "b", "t" and "u".
abbrev id_a : Text
id_a = b'a' ∷ []

abbrev id_b : Text
id_b = b'b' ∷ []

abbrev id_t : Text
id_t = b't' ∷ []

abbrev id_u : Text
id_u = b'u' ∷ []

abbrev mail : AccountEntry
mail = record {
  id = id_a;
  title = b'm' ∷ [];
  username = b'x' ∷ [];
  password = b'p' ∷ [];
  url = [];
  notes = 0 ∷ [];
  deleted = false;
  folder = none;
  icon_data = none;
  created_at = 10;
  updated_at = 10;
}

abbrev bank : AccountEntry
bank = record mail { id = id_b; title = b'k' ∷ [] }

abbrev first_code : TotpEntry
first_code = record {
  id = id_t;
  issuer = b'm' ∷ [];
  account_name = b'x' ∷ [];
  secret = b's' ∷ [];
  linked_account_id = some id_a;
  deleted = false;
  icon_data = none;
  created_at = 10;
  updated_at = 10;
}

abbrev second_code : TotpEntry
second_code = record first_code { id = id_u }

abbrev small : Vault
small = record (new_vault portable 10) {
  accounts = mail ∷ bank ∷ [];
  totps = first_code ∷ second_code ∷ [];
}

program : Unit {0}
unfolding bytes_eq is_linked linked_totp is_duplicate_account import_accounts
program = tt

abbrev plain : Rendering
plain = record {
  to_lowercase = λ s. s;
  initial = λ s. take 1 s;
  from_utf8_lossy = λ b. b;
  decode = λ s. none;
}

generate_vault_entries-retain_example :
    generate_vault_entries plain small [] accounts_filter
    ≡ (if shows_accounts plain accounts_filter
        then map (account_row plain small.totps) (
            retain
              (λ a.
                in_view (bytes_eq accounts_filter trash_filter) a.deleted
                && matches plain [] a.title a.username)
              small.accounts)
        else [])
      ++ (if shows_totps plain accounts_filter
          then map (totp_row plain) (
              retain
                (λ t.
                  in_view (bytes_eq accounts_filter trash_filter) t.deleted
                  && matches plain [] t.issuer t.account_name)
                small.totps)
          else [])
generate_vault_entries-retain_example = generate_vault_entries-retain plain small [] accounts_filter
