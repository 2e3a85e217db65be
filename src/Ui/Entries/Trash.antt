-- ===== src/Ui/Entries/Trash.antt =====
-- `on_delete_entry` and `on_restore_entry` of src/ui/bridge/entries.rs.
use passx.Base.{
  Bool, List, Text, arith, bytes_eq, bytes_eq_refl, bytes_eq_sym, bytes_eq→eq, false, find_first,
  find_first-retain-none, find_first-retain_of_none, find_first-retain_same,
  find_first-update_first_other, find_first-update_first_self, if◌then◌else◌, length,
  length-update_first, none, not, option_map, refl, retain, some, true, update_first, ℕ, ◌∙◌, ◌∷◌,
  ◌≡◌,
}
use passx.Vault.Entry.{AccountEntry, TotpEntry}
use passx.Vault.Format.{Vault}
use passx.Ui.State.{trash_filter}
use passx.Ui.Model.{is_linked, linked_totp}
use passx.Ui.Entries.{
  account_has, totp_has, next_sequence, delete_account_mark, delete_totp_mark, cascades,
  soft_delete, purge, delete_entry,
}

distinct : (a i j : Text) → bytes_eq i j ≡ false → bytes_eq a i ≡ true → bytes_eq a j ≡ false
distinct a i j ne hit = rw (bytes_eq→eq a i hit) ne

not-false : (b : Bool) → b ≡ false → not b ≡ true
not-false b h = rw h

-- Under the trash filter a deletion is final: no account and no authenticator of that identifier is
-- left, and no authenticator that is linked to it; an account of another identifier is as it was.
delete_entry_purges :
    (now : ℕ) (id other : Text) (v : Vault)
    → bytes_eq id other ≡ false
    → let d = delete_entry trash_filter now id v in
      (find_first (account_has id) d.accounts ≡ none)
      × (find_first (totp_has id) d.totps ≡ none)
      × (find_first (is_linked id) d.totps ≡ none)
      × (find_first (account_has other) d.accounts ≡ find_first (account_has other) v.accounts)
unfolding delete_entry soft_delete purge next_sequence
delete_entry_purges now id other v ne =
    let away =
      λ (e : AccountEntry) (hit : account_has id e ≡ true). distinct e.id id other ne hit in
    rw (bytes_eq_refl trash_filter) (
      find_first-retain-none (account_has id) (λ x. not (account_has id x))
          (soft_delete now id v).accounts (λ e hit. rw hit),
      find_first-retain-none (totp_has id) (λ x. not (totp_has id x))
          (retain {A = TotpEntry} (λ t. not (is_linked id t)) (soft_delete now id v).totps)
          (λ t hit. rw hit),
      find_first-retain_of_none (is_linked id) (λ x. not (totp_has id x))
          (retain {A = TotpEntry} (λ x. not (is_linked id x)) (soft_delete now id v).totps)
          (find_first-retain-none (is_linked id) (λ x. not (is_linked id x))
            ((soft_delete now id v).totps) (λ t hit. rw hit)),
      find_first-retain_same (account_has other) _ _ (λ e hit.
            not-false (account_has id e)
              (distinct e.id other id (rw (bytes_eq_sym other id) ne) hit))
          ∙ find_first-update_first_other (account_has id) (account_has other)
              (delete_account_mark now) v.accounts away away,
    )

-- Under any other filter a deletion marks: the account of that identifier is kept and marked, as is
-- the authenticator of that identifier; an account of another identifier is as it was, and nothing
-- is removed.
delete_entry_marks :
    (filter : Text) (now : ℕ) (id other : Text) (v : Vault)
    → bytes_eq filter trash_filter ≡ false
    → bytes_eq id other ≡ false
    → let d = delete_entry filter now id v in
      (find_first (account_has id) d.accounts
        ≡ option_map (delete_account_mark now) (find_first (account_has id) v.accounts))
      × (find_first (account_has other) d.accounts ≡ find_first (account_has other) v.accounts)
      × (length d.accounts ≡ length v.accounts)
      × (length d.totps ≡ length v.totps)
unfolding delete_entry soft_delete next_sequence
delete_entry_marks filter now id other v elsewhere ne =
    let away =
      λ (e : AccountEntry) (hit : account_has id e ≡ true). distinct e.id id other ne hit in
    rw elsewhere (
      find_first-update_first_self (account_has id) (delete_account_mark now) v.accounts
          (λ e. refl),
      find_first-update_first_other (account_has id) (account_has other) (delete_account_mark now)
          v.accounts away away,
      length-update_first (account_has id) (delete_account_mark now) v.accounts,
      length-update_first _ _ _ ∙ length_linked,
    )
  where
    length_linked :
        length (
          if cascades (find_first (account_has id) v.accounts)
          then update_first (is_linked id) (delete_totp_mark now) v.totps
          else v.totps)
        ≡ length v.totps
    length_linked =
        ground (arith, length-update_first (is_linked id) (delete_totp_mark now) v.totps)

-- The deletion of a live account marks only the first authenticator that is linked to it: a second
-- live one, of another identifier, is still live and still linked to the deleted account.
delete_entry_leaves_second :
    (filter : Text) (now : ℕ) (id : Text) (v : Vault) (a : AccountEntry) (t u : TotpEntry)
    (rest : List TotpEntry)
    → bytes_eq filter trash_filter ≡ false
    → find_first (account_has id) v.accounts ≡ some a
    → a.deleted ≡ false
    → v.totps ≡ t ∷ u ∷ rest
    → is_linked id t ≡ true
    → is_linked id u ≡ true
    → u.deleted ≡ false
    → totp_has id t ≡ false
    → totp_has id u ≡ false
    → linked_totp id (delete_entry filter now id v).totps ≡ some u
unfolding delete_entry soft_delete next_sequence linked_totp
delete_entry_leaves_second filter now id v a t u rest elsewhere found live both lt lu alive ti ui =
    rw (elsewhere, found, live, both, lt, ti, ui, lu, alive)
