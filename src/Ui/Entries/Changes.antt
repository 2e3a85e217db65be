-- ===== src/Ui/Entries/Changes.antt =====
-- The changes that the callbacks of src/ui/bridge/entries.rs and src/ui/bridge/icons.rs make to the
-- vault, as steps.
use passx.Base.{
  All, All-update_first, Bool, Bytes, List, Text, arith, refl, some, suc, ℕ, ◌%◌, ◌+◌, ◌<◌, ◌^◌,
  ◌∙◌, ◌≡◌,
}
use passx.Vault.Entry.{AccountEntry, TotpEntry, Fresh, HasBuffers, HasSecret}
use passx.Vault.Format.{Vault, GeneratorSettings}
use passx.Vault.Format.Wrap.{IsStored}
use passx.Ui.Model.{is_linked}
use passx.Ui.Background.{set_icon}
use passx.Vault.Operations.{is_account}
use passx.Ui.Entries.{
  totp_has, next_sequence, touched, save_entry, delete_entry, restore_entry, save_totp, link_totp,
  unlink_totp, save_generator_settings, do_import_accounts, do_import_totps,
}
use passx.Ui.Entries.Advances.{
  Advances, Kept-of, save_entry-Advances, delete_entry-Advances, restore_entry-Advances,
  save_totp-Advances, import_accounts-HasBuffers, import_totps-HasSecret,
}

-- One call of a callback: the vault before, and the vault after.
pub data Change : Vault → Vault → Type 0 where
  saves_entry :
      (fresh : Fresh) (alloc : ℕ → ℕ → Bool) (now : ℕ) (id title username : Text) (password : Bytes)
      (url : Text) (notes : Bytes) {v v' : Vault}
      → save_entry fresh alloc now id title username password url notes v ≡ some v'
      → Change v v'
  deletes :
      (filter : Text) (now : ℕ) (id : Text) {v : Vault} → Change v (delete_entry filter now id v)
  restores : (now : ℕ) (id : Text) {v : Vault} → Change v (restore_entry now id v)
  saves_totp :
      (to_uppercase : Text → Text) (fresh : Fresh) (alloc : ℕ → ℕ → Bool) (now : ℕ)
      (id name secret issuer linked : Text) {v : Vault}
      → Change v (save_totp to_uppercase fresh alloc now id name secret issuer linked v)
  links :
      (now : ℕ) (totp_id account_id : Text) {v : Vault}
      → Change v (link_totp now totp_id account_id v)
  unlinks : (now : ℕ) (account_id : Text) {v : Vault} → Change v (unlink_totp now account_id v)
  saves_settings :
      (now : ℕ) (settings : GeneratorSettings) {v : Vault}
      → Change v (save_generator_settings now settings v)
  fetches_icon : (now : ℕ) (id b64 : Text) {v : Vault} → Change v (set_icon now id b64 v)
  imports_accounts :
      (entries : List AccountEntry) {v : Vault}
      → All HasBuffers entries
      → Change v (do_import_accounts entries v).0
  imports_totps :
      (entries : List TotpEntry) {v : Vault}
      → All HasSecret entries
      → Change v (do_import_totps entries v).0

-- A sequence of changes, and how many they are.
pub data Changes : ℕ → Vault → Vault → Type 0 where
  unchanged : {v : Vault} → Changes 0 v v
  changed : {n : ℕ} {v v' v'' : Vault} → Changes n v v' → Change v' v'' → Changes (suc n) v v''

pub Change-Advances : {v v' : Vault} → Change v v' → Advances v v'
unfolding link_totp unlink_totp touched next_sequence save_generator_settings do_import_accounts
    do_import_totps set_icon
Change-Advances (saves_entry fresh alloc now id title username password url notes h) =
    save_entry-Advances fresh alloc now id title username password url notes _ h
Change-Advances (deletes filter now id {v}) = delete_entry-Advances filter now id v
Change-Advances (restores now id {v}) = restore_entry-Advances now id v
Change-Advances (saves_totp up fresh alloc now id name secret issuer linked {v}) =
    save_totp-Advances up fresh alloc now id name secret issuer linked v
Change-Advances (links now totp_id account_id {v}) = (
  refl,
  Kept-of v _ refl refl (λ h. h)
      (All-update_first HasSecret (totp_has totp_id) _ v.totps (λ t k. k)),
)
Change-Advances (unlinks now account_id {v}) = (
  refl,
  Kept-of v _ refl refl (λ h. h)
      (All-update_first HasSecret (is_linked account_id) _ v.totps (λ t k. k)),
)
Change-Advances (saves_settings now settings {v}) = (refl, Kept-of v _ refl refl (λ h. h) (λ h. h))
Change-Advances (fetches_icon now id b64 {v}) = (
  refl,
  Kept-of v _ refl refl
      (All-update_first HasBuffers (is_account id) _ v.accounts (λ a k. record {
        password_nonempty = k.password_nonempty;
        notes_nonempty = k.notes_nonempty;
      }))
      (λ h. h),
)
Change-Advances (imports_accounts entries {v} sound) = (
  refl,
  Kept-of v _ refl refl (λ h. import_accounts-HasBuffers v.accounts entries 0 h sound) (λ h. h),
)
Change-Advances (imports_totps entries {v} sound) =
    (refl, Kept-of v _ refl refl (λ h. h) (λ h. import_totps-HasSecret v.totps entries 0 h sound))

-- After n callbacks that change the vault, in whatever order, the sequence number has gone up by n,
-- modulo 2^64, the mode and the mirrors are what they were, and every secret can be stored, as it
-- could before.
pub Changes-advance :
    {n : ℕ} {v v' : Vault}
    → Changes n v v'
    → v.sequence_number < 2 ^ 64
    → IsStored v
    → (v'.sequence_number ≡ (v.sequence_number + n) % 2 ^ 64)
      × (v'.mode ≡ v.mode)
      × (v'.mirrors ≡ v.mirrors)
      × IsStored v'
Changes-advance (unchanged {v}) fits sound = (omega arith, refl, refl, sound)
Changes-advance (changed {n} {v} {v'} {v''} cs c) fits sound =
    let (seq, mode, mirrors, stored_again) = Changes-advance cs fits sound in
    let (step, kept) = Change-Advances c in
    (
      omega (arith, seq, step),
      kept.same_mode ∙ mode,
      kept.same_mirrors ∙ mirrors,
      kept.stored_again stored_again,
    )
