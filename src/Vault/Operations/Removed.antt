-- ===== src/Vault/Operations/Removed.antt =====
-- What `remove_entry` removes.
use passx.Base.{
  Bool, Bool-cases, List, Text, [], any, arith, find_first, if◌then◌else◌, inl, inr, is_some,
  length, refl, true, ◌+◌, ◌||◌, ◌∷◌, ◌≡◌,
}
use passx.Vault.Format.{Vault}
use passx.Vault.Operations.{
  remove_first, is_account, is_totp, find_account, find_totp, remove_entry,
}

any-find_first {ℓ} :
    {A : Type ℓ} (p : A → Bool) (xs : List A) → is_some (find_first p xs) ≡ any p xs
any-find_first p [] = refl
any-find_first p (x ∷ xs) = ground (arith, any-find_first p xs)

length-remove_first {ℓ} :
    {A : Type ℓ} (p : A → Bool) (xs : List A)
    → any p xs ≡ true
    → length (remove_first p xs) + 1 ≡ length xs
length-remove_first p [] h = cc
length-remove_first p (x ∷ xs) h = ground (arith, length-remove_first p xs)

-- A removal says that it removed something exactly when an account or an authenticator of that
-- identifier was there; it then takes away one entry, and else it changes nothing.
remove_entry-length :
    (v : Vault) (id : Text)
    → let r = remove_entry v id in
      (r.1 ≡ (is_some (find_account v id) || is_some (find_totp v id)))
      × (length r.0.accounts + length r.0.totps + (if r.1 then 1 else 0)
          ≡ length v.accounts + length v.totps)
      × ((if r.1 then v else r.0) ≡ v)
unfolding remove_entry find_account find_totp
remove_entry-length v id =
    let fa = any-find_first (is_account id) v.accounts in
    let ft = any-find_first (is_totp id) v.totps in
    elim (Bool-cases (any (is_account id) v.accounts)) [
      | inl here ↦
          let shorter = length-remove_first (is_account id) v.accounts here in
          rw (fa, ft, here) (refl, omega (arith, shorter), refl)
      | inr away ↦ elim (Bool-cases (any (is_totp id) v.totps)) [
        | inl here ↦
            let shorter = length-remove_first (is_totp id) v.totps here in
            rw (fa, ft, away, here) (refl, omega (arith, shorter), refl)
        | inr gone ↦ rw (fa, ft, away, gone) (refl, omega arith, refl)
      ]
    ]
