-- ===== src/Ui/Entries/Imports.antt =====
-- The loop of `do_import_accounts` of src/ui/bridge/entries.rs.
use passx.Base.{
  subst, sym, All, All-append, Bool, Bool-cases, List, [], any-append, any-append_right, ap, arith,
  bytes_eq, bytes_eq_refl, false, inl, inr, length, length-append, refl, sym, take, take_all, true,
  ℕ, ◌&&◌, ◌++◌, ◌+◌, ◌∷◌, ◌≡◌,
}
use passx.Vault.Entry.{AccountEntry}
use passx.Ui.Entries.{import_accounts, is_duplicate_account}

abbrev pub same_login : AccountEntry → AccountEntry → Bool
same_login a b = bytes_eq a.title b.title && bytes_eq a.username b.username

-- No entry has the title and the user name of a live one that stands before it.
abbrev pub Separate : List AccountEntry → Type 0
Separate [] = Unit
Separate (a ∷ as') = (a.deleted ≡ false → All (λ b. same_login a b ≡ false) as') × Separate as'

All-snoc :
    (a e : AccountEntry) (xs : List AccountEntry)
    → All (λ b. same_login a b ≡ false) xs
    → same_login a e ≡ false
    → All (λ b. same_login a b ≡ false) (xs ++ (e ∷ []))
All-snoc a e xs h k = All-append (λ b. same_login a b ≡ false) xs (e ∷ []) h (k, tt)

Separate-snoc :
    (xs : List AccountEntry) (e : AccountEntry)
    → Separate xs
    → is_duplicate_account xs e ≡ false
    → Separate (xs ++ (e ∷ []))
unfolding is_duplicate_account
Separate-snoc [] e h fresh = (λ _. tt, tt)
Separate-snoc (a ∷ xs) e h fresh =
    (λ live. All-snoc a e xs (h.0 live) (ground arith), Separate-snoc xs e h.1 (ground arith))

-- An import keeps the accounts free of duplicates of live ones.
import_accounts-Separate :
    (accounts es : List AccountEntry) (added : ℕ)
    → Separate accounts
    → Separate (import_accounts accounts es added).0
unfolding import_accounts
import_accounts-Separate accounts [] added h = h
import_accounts-Separate accounts (e ∷ es) added h =
    elim (Bool-cases (is_duplicate_account accounts e)) [
      | inl old ↦ rw (old, import_accounts) (import_accounts-Separate accounts es added h)
      | inr new ↦
          rw (new, import_accounts)
            (import_accounts-Separate (accounts ++ (e ∷ [])) es (added + 1)
              (Separate-snoc accounts e h new))
    ]

is_duplicate_account-append :
    (xs ys : List AccountEntry) (e : AccountEntry)
    → is_duplicate_account xs e ≡ true
    → is_duplicate_account (xs ++ ys) e ≡ true
unfolding is_duplicate_account
is_duplicate_account-append xs ys e h = any-append _ xs ys h

is_duplicate_account_self :
    (xs : List AccountEntry) (e : AccountEntry)
    → e.deleted ≡ false
    → is_duplicate_account (xs ++ (e ∷ [])) e ≡ true
unfolding is_duplicate_account
is_duplicate_account_self xs e live =
    any-append_right _ xs (e ∷ []) (ground (arith, bytes_eq_refl e.title, bytes_eq_refl e.username))

-- What is in front of a list that begins with `xs ++ ys` begins with `xs`.
take_prefix :
    (xs ys zs : List AccountEntry)
    → take (length (xs ++ ys)) zs ≡ xs ++ ys
    → take (length xs) zs ≡ xs
take_prefix [] ys zs h = refl
take_prefix (x ∷ xs) ys [] h = absurd (ground arith)
take_prefix (x ∷ xs) ys (z ∷ zs) h =
    let same : z ≡ x = cc in
    let rest : take (length (xs ++ ys)) zs ≡ xs ++ ys = cc in
    rw same (ap (◌∷◌ x) (take_prefix xs ys zs rest))

import_accounts-duplicate :
    (accounts es : List AccountEntry) (added : ℕ) (e : AccountEntry)
    → is_duplicate_account accounts e ≡ true
    → is_duplicate_account (import_accounts accounts es added).0 e ≡ true
unfolding import_accounts
import_accounts-duplicate accounts [] added e h = h
import_accounts-duplicate accounts (x ∷ es) added e h =
    elim (Bool-cases (is_duplicate_account accounts x)) [
      | inl old ↦ rw (old, import_accounts) (import_accounts-duplicate accounts es added e h)
      | inr new ↦
          rw (new, import_accounts)
            (import_accounts-duplicate (accounts ++ (x ∷ [])) es (added + 1) e
              (is_duplicate_account-append accounts (x ∷ []) e h))
    ]

-- Every live entry of an import is there afterwards: an account with its title and user name is live.
import_accounts_complete :
    (accounts es : List AccountEntry) (added : ℕ)
    → All (λ e. e.deleted ≡ false) es
    → All (λ e. is_duplicate_account (import_accounts accounts es added).0 e ≡ true) es
unfolding import_accounts
import_accounts_complete accounts [] added h = tt
import_accounts_complete accounts (e ∷ es) added h =
    elim (Bool-cases (is_duplicate_account accounts e)) [
      | inl old ↦
          let step : import_accounts accounts (e ∷ es) added ≡ import_accounts accounts es added =
            rw (old, import_accounts) refl in
          subst (λ r. All (λ x. is_duplicate_account r.0 x ≡ true) (e ∷ es)) (sym step)
            (
              import_accounts-duplicate accounts es added e old,
              import_accounts_complete accounts es added h.1,
            )
      | inr new ↦
          let step : import_accounts accounts (e ∷ es) added
              ≡ import_accounts (accounts ++ (e ∷ [])) es (added + 1) =
            rw (new, import_accounts) refl in
          subst (λ r. All (λ x. is_duplicate_account r.0 x ≡ true) (e ∷ es)) (sym step)
            (
              import_accounts-duplicate (accounts ++ (e ∷ [])) es (added + 1) e
                  (is_duplicate_account_self accounts e h.0),
              import_accounts_complete (accounts ++ (e ∷ [])) es (added + 1) h.1,
            )
    ]

-- The accounts that were there stay, in front and unchanged, and the count that is reported is the
-- number of accounts that came in.
import_accounts_kept :
    (accounts es : List AccountEntry) (added : ℕ)
    → (take (length accounts) (import_accounts accounts es added).0 ≡ accounts)
      × (length (import_accounts accounts es added).0 + added
          ≡ length accounts + (import_accounts accounts es added).1)
unfolding import_accounts
import_accounts_kept accounts [] added = (take_all (length accounts) accounts refl, omega arith)
import_accounts_kept accounts (e ∷ es) added = elim (Bool-cases (is_duplicate_account accounts e)) [
  | inl old ↦ rw (old, import_accounts) (import_accounts_kept accounts es added)
  | inr new ↦
      rw (new, import_accounts)
        (
          take_prefix accounts (e ∷ []) _
              (import_accounts_kept (accounts ++ (e ∷ [])) es (added + 1)).0,
          omega (
            arith,
            length-append {0} accounts (e ∷ []),
            (import_accounts_kept (accounts ++ (e ∷ [])) es (added + 1)).1,
          ),
        )
]
