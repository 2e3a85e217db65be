-- ===== src/Ui/Entries/Links.antt =====
-- `on_link_totp` and `on_unlink_totp` of src/ui/bridge/entries.rs.
use passx.Base.{
  List, Text, bytes_eq, bytes_eq_refl, false, find_first, find_first-update_first_makes, is_some,
  none, not, refl, some, true, ℕ, ◌&&◌, ◌∷◌, ◌≡◌,
}
use passx.Vault.Entry.{TotpEntry}
use passx.Vault.Format.{Vault}
use passx.Ui.Model.{is_linked, linked_totp}
use passx.Ui.Entries.{totp_has, next_sequence, touched, link_totp, unlink_totp}

-- Linking a live authenticator gives the account a live linked authenticator, which the window then
-- shows; the accounts are not touched.
link_totp_shown :
    (now : ℕ) (totp_id account_id : Text) (v : Vault) (t : TotpEntry)
    → find_first (totp_has totp_id) v.totps ≡ some t
    → t.deleted ≡ false
    → (is_some (linked_totp account_id (link_totp now totp_id account_id v).totps) ≡ true)
      × ((link_totp now totp_id account_id v).accounts ≡ v.accounts)
unfolding link_totp touched next_sequence linked_totp is_linked
link_totp_shown now totp_id account_id v t found live = (
  find_first-update_first_makes (totp_has totp_id)
      (λ u.
        not u.deleted
        && (elim u.linked_account_id [ none ↦ false | some j ↦ bytes_eq j account_id ]))
      (λ u. record u { linked_account_id = some account_id; updated_at = now }) v.totps found
      (rw (live, bytes_eq_refl account_id)),
  refl,
)

-- Unlinking an account takes the first authenticator that is linked to it, also one in the trash: the
-- live one that the window shows for the account, behind a deleted one, stays linked and shown.
unlink_totp_leaves_shown :
    (now : ℕ) (account_id : Text) (v : Vault) (t u : TotpEntry) (rest : List TotpEntry)
    → v.totps ≡ t ∷ u ∷ rest
    → is_linked account_id t ≡ true
    → t.deleted ≡ true
    → is_linked account_id u ≡ true
    → u.deleted ≡ false
    → (linked_totp account_id v.totps ≡ some u)
      × (linked_totp account_id (unlink_totp now account_id v).totps ≡ some u)
unfolding unlink_totp touched next_sequence linked_totp
unlink_totp_leaves_shown now account_id v t u rest both lt dt lu du =
    (rw (both, dt, lu, du), rw (both, lt, dt, lu, du))
