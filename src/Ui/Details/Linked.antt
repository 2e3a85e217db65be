-- ===== src/Ui/Details/Linked.antt =====
-- Which authenticator the details of src/ui/bridge/entries.rs show for an account.
use passx.Base.{
  Bool, Bool-cases, List, Option, Text, [], ap, arith, bytes_eq→eq, false, find_first, inl, inr,
  is_some, none, refl, some, subst, true, ◌∙◌, ◌∷◌, ◌≡◌,
}
use passx.Vault.Entry.{AccountEntry, TotpEntry}
use passx.Vault.Format.{Vault}
use passx.Vault.Operations.{is_account}
use passx.Ui.State.{AppState}
use passx.Ui.Model.{Rendering, EntryType, account, is_linked, linked_totp}
use passx.Ui.Details.{
  VaultEntryData, account_of, totp_of, no_data, account_to_data, totp_to_data, details_in,
  entry_details_6c, entry_details_18, Codes, on_copy_totp_code,
}

find_first_holds :
    {A : Type 0} (p : A → Bool) (xs : List A) {x : A} → find_first p xs ≡ some x → p x ≡ true
find_first_holds p [] found = cc
find_first_holds p (y ∷ ys) {x} found = elim (Bool-cases (p y)) [
  | inl hit ↦ let same : y ≡ x = ground arith in subst (λ z. p z ≡ true) same hit
  | inr miss ↦ find_first_holds p ys (rw miss at found)
]

account_of-id :
    (v : Vault) (id : Text) {acc : AccountEntry} → account_of v id ≡ some acc → acc.id ≡ id
account_of-id v id {acc} found =
    bytes_eq→eq acc.id id (find_first_holds (is_account id) v.accounts found)

-- When no live authenticator is linked, the first linked one is deleted.
linked_deleted :
    (id : Text) (totps : List TotpEntry) {t : TotpEntry}
    → linked_totp id totps ≡ none
    → find_first (is_linked id) totps ≡ some t
    → t.deleted ≡ true
unfolding linked_totp
linked_deleted id [] none_live found = cc
linked_deleted id (x ∷ xs) {t} none_live found = elim (Bool-cases (is_linked id x)) [
  | inl hit ↦ elim (Bool-cases x.deleted) [
    | inl gone ↦ let same : x ≡ t = ground arith in subst (λ y. y.deleted ≡ true) same gone
    | inr live ↦ absurd (ground arith)
  ]
  | inr miss ↦ linked_deleted id xs {t = t} (ground arith) (ground arith)
]

shown_totp :
    (r : Rendering) (link : Text → List TotpEntry → Option TotpEntry) (missing : Option EntryType)
    (s : AppState) (v : Vault) (id : Text) (acc : AccountEntry)
    → s.vault ≡ some v
    → account_of v id ≡ some acc
    → (details_in r link missing id s.vault).has_totp ≡ is_some (link acc.id v.totps)
unfolding account_to_data
shown_totp r link missing s v id acc opened found =
    ap (λ o. (details_in r link missing id o).has_totp) opened
    ∙ ap
        (λ (o : Option AccountEntry).
          (elim o as (λ x. VaultEntryData) [
            | some a ↦ account_to_data r a (link a.id v.totps)
            | none ↦ elim (totp_of v id) as (λ x. VaultEntryData) [
              | some t ↦ totp_to_data r t
              | none ↦ no_data missing
            ]
          ]).has_totp)
        found

-- For an account whose linked authenticators are all in the trash, the details say that it has a
-- code, where the callback that was set first says it has none; the code that is then asked for is
-- not there.
details_show_deleted :
    (r : Rendering) (c : Codes) (s : AppState) (v : Vault) (id : Text) (acc : AccountEntry)
    (t : TotpEntry)
    → s.vault ≡ some v
    → account_of v id ≡ some acc
    → linked_totp id v.totps ≡ none
    → find_first (is_linked id) v.totps ≡ some t
    → (t.deleted ≡ true)
      × ((entry_details_6c r s id).has_totp ≡ false)
      × ((entry_details_18 r s id).has_totp ≡ true)
      × (on_copy_totp_code c true s id ≡ none)
unfolding entry_details_6c entry_details_18 on_copy_totp_code
details_show_deleted r c s v id acc t opened found none_live linked =
    let same : acc.id ≡ id = account_of-id v id found in
    let none_live' : linked_totp acc.id v.totps ≡ none =
      ap (λ i. linked_totp i v.totps) same ∙ none_live in
    let linked' : find_first (is_linked acc.id) v.totps ≡ some t =
      ap (λ i. find_first (is_linked i) v.totps) same ∙ linked in
    (
      linked_deleted id v.totps none_live linked,
      shown_totp r linked_totp (some account) s v id acc opened found
          ∙ ap (λ o. is_some o) none_live',
      shown_totp r (λ a totps. find_first (is_linked a) totps) none s v id acc opened found
          ∙ ap (λ o. is_some o) linked',
      rw (opened, found, none_live) refl,
    )
