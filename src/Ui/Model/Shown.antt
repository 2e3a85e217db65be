-- ===== src/Ui/Model/Shown.antt =====
-- Which rows `generate_vault_entries` of src/ui/bridge/model.rs makes.
use passx.Base.{
  Bool, List, Text, [], arith, bytes_eq, if◌then◌else◌, map, not, refl, retain, ◌&&◌, ◌++◌, ◌∷◌,
  ◌≡◌,
}
use passx.Vault.Entry.{AccountEntry, TotpEntry}
use passx.Vault.Format.{Vault}
use passx.Ui.State.{trash_filter}
use passx.Ui.Model.{
  Rendering, matches, account_row, totp_row, account_rows, totp_rows, generate_vault_entries,
  shows_accounts, shows_totps,
}

-- Entries of the trash under the trash filter, and live ones under any other.
abbrev pub in_view : Bool → Bool → Bool
in_view trash deleted = if trash then deleted else not deleted

module _ (r : Rendering) where
  account_rows-retain :
      (trash : Bool) (q : Text) (totps : List TotpEntry) (accs : List AccountEntry)
      → account_rows r trash q totps accs
        ≡ map
            (account_row r totps)
            (retain (λ a. in_view trash a.deleted && matches r q a.title a.username) accs)
  unfolding account_rows
  account_rows-retain trash q totps [] = refl
  account_rows-retain trash q totps (a ∷ accs) =
      ground (arith, account_rows-retain trash q totps accs)

  totp_rows-retain :
      (trash : Bool) (q : Text) (ts : List TotpEntry)
      → totp_rows r trash q ts
        ≡ map
            (totp_row r)
            (retain (λ t. in_view trash t.deleted && matches r q t.issuer t.account_name) ts)
  unfolding totp_rows
  totp_rows-retain trash q [] = refl
  totp_rows-retain trash q (t ∷ ts) = ground (arith, totp_rows-retain trash q ts)

  -- The rows are, in the vault's order, one for each account and then one for each authenticator that
  -- the filter admits, that is deleted exactly under the trash filter, and that the search matches.
  pub generate_vault_entries-retain :
      (vault : Vault) (search filter : Text)
      → generate_vault_entries r vault search filter
        ≡ (if shows_accounts r filter
            then map (account_row r vault.totps) (
                retain
                  (λ a.
                    in_view (bytes_eq filter trash_filter) a.deleted
                    && matches r (r.to_lowercase search) a.title a.username)
                  vault.accounts)
            else [])
          ++ (if shows_totps r filter
              then map (totp_row r) (
                  retain
                    (λ t.
                      in_view (bytes_eq filter trash_filter) t.deleted
                      && matches r (r.to_lowercase search) t.issuer t.account_name)
                    vault.totps)
              else [])
  unfolding generate_vault_entries
  generate_vault_entries-retain vault search filter = simp (account_rows-retain, totp_rows-retain)
