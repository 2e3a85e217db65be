-- ===== src/Vault/Operations.antt =====
-- src/vault/operations.rs: `VaultOps`.
pub mod Removed
use passx.Base.{
  Bool, List, Option, Text, [], any, bytes_eq, false, find_first, if◌then◌else◌, retain, true, ◌++◌,
  ◌||◌, ◌∷◌,
}
use passx.Ui.Model.{contains}
use passx.Vault.Entry.{AccountEntry, TotpEntry}
use passx.Vault.Format.{Vault}

unfoldable pub add_account : Vault → AccountEntry → Vault
add_account v e = record v { accounts = v.accounts ++ (e ∷ []) }

unfoldable pub add_totp : Vault → TotpEntry → Vault
add_totp v t = record v { totps = v.totps ++ (t ∷ []) }

-- `if let Some(pos) = iter().position(p) { remove(pos) }`
abbrev pub remove_first {ℓ} : {A : Type ℓ} → (A → Bool) → List A → List A
remove_first p [] = []
remove_first p (x ∷ xs) = if p x then xs else x ∷ remove_first p xs

abbrev pub is_account : Text → AccountEntry → Bool
is_account id e = bytes_eq e.id id

abbrev pub is_totp : Text → TotpEntry → Bool
is_totp id t = bytes_eq t.id id

unfoldable pub find_account : Vault → Text → Option AccountEntry
find_account v id = find_first (is_account id) v.accounts

unfoldable pub find_totp : Vault → Text → Option TotpEntry
find_totp v id = find_first (is_totp id) v.totps

-- `str::to_lowercase` is a parameter.
unfoldable pub search_accounts : (Text → Text) → Vault → Text → List AccountEntry
unfolding contains
search_accounts to_lowercase v query =
    let q = to_lowercase query in
    retain (λ e. contains (to_lowercase e.title) q || contains (to_lowercase e.username) q)
      v.accounts

-- The vault without the entry, and whether there was one.
unfoldable pub remove_entry : Vault → Text → Vault × Bool
remove_entry v id =
    if any (is_account id) v.accounts
    then (record v { accounts = remove_first (is_account id) v.accounts }, true)
    else if any (is_totp id) v.totps
    then (record v { totps = remove_first (is_totp id) v.totps }, true)
    else (v, false)
