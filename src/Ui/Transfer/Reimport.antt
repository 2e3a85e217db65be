-- ===== src/Ui/Transfer/Reimport.antt =====
-- What `do_import_accounts` of src/ui/bridge/entries.rs makes of accounts that were exported from the
-- same vault.
use passx.Base.{
  All, Bool-cases, List, [], any-append_right, ap, append_assoc, bytes_eq, bytes_eq_refl, false,
  if◌then◌else◌, inl, inr, not, refl, retain, subst, suc, sym, true, ℕ, ◌&&◌, ◌++◌, ◌+◌, ◌∙◌, ◌∷◌,
  ◌≡◌,
}
use passx.Vault.Entry.{AccountEntry, Fresh}
use passx.Vault.Format.{Vault}
use passx.Ui.Entries.{is_duplicate_account, import_accounts, do_import_accounts, next_sequence}
use passx.Ui.Transfer.RoundTrip.{reborn, reborn_all}

-- An account with whose title and user name a live one is there.
abbrev IsThere : List AccountEntry → AccountEntry → Type 0
IsThere accounts e = is_duplicate_account accounts e ≡ true

there :
    (e : AccountEntry) (pre rest : List AccountEntry)
    → e.deleted ≡ false
    → IsThere (pre ++ (e ∷ rest)) e
unfolding is_duplicate_account
there e pre rest live =
    any-append_right
      (λ existing.
        bytes_eq existing.title e.title
        && (bytes_eq existing.username e.username && not existing.deleted))
      pre (e ∷ rest) (rw (bytes_eq_refl e.title, bytes_eq_refl e.username, live) refl)

All-IsThere :
    (pre rest : List AccountEntry) → All (IsThere (pre ++ rest)) (retain (λ e. not e.deleted) rest)
All-IsThere pre [] = tt
All-IsThere pre (e ∷ rest) =
    let later =
      subst (λ es. All (IsThere es) (retain (λ e. not e.deleted) rest))
        (append_assoc pre (e ∷ []) rest) (All-IsThere (pre ++ (e ∷ [])) rest) in
    let tail = retain (λ x. not x.deleted) rest in
    elim (Bool-cases e.deleted) [
      | inl gone ↦
          subst (λ b. All (IsThere (pre ++ (e ∷ rest))) (if not b then e ∷ tail else tail))
            (sym gone) later
      | inr live ↦
          subst (λ b. All (IsThere (pre ++ (e ∷ rest))) (if not b then e ∷ tail else tail))
            (sym live) (there e pre rest live, later)
    ]

import_accounts_there :
    (accounts : List AccountEntry) (fresh : ℕ → Fresh) (k n : ℕ) (es : List AccountEntry)
    → All (IsThere accounts) es
    → import_accounts accounts (reborn_all fresh k es) n ≡ (accounts, n)
unfolding import_accounts reborn_all is_duplicate_account reborn
import_accounts_there accounts fresh k n [] found = refl
import_accounts_there accounts fresh k n (e ∷ es) found =
    ap
      (λ b.
        import_accounts (if b then accounts else accounts ++ (reborn (fresh k) e ∷ []))
          (reborn_all fresh (suc k) es) (if b then n else n + 1))
      found.0
    ∙ import_accounts_there accounts fresh (suc k) n es found.1

-- An import of what the vault's own live accounts are exported as adds none of them, and changes
-- only the sequence number.
reimport_adds_nothing :
    (fresh : ℕ → Fresh) (v : Vault)
    → do_import_accounts (reborn_all fresh 0 (retain (λ e. not e.deleted) v.accounts)) v
      ≡ (next_sequence v, 0)
unfolding do_import_accounts
reimport_adds_nothing fresh v =
    ap (λ r. (next_sequence (record v { accounts = r.0 }), r.1))
      (import_accounts_there v.accounts fresh 0 0 (retain (λ e. not e.deleted) v.accounts)
        (All-IsThere [] v.accounts))
