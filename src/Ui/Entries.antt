-- ===== src/Ui/Entries.antt =====
-- src/ui/bridge/entries.rs: what each callback changes in the vault, under the lock. `now` is the
-- reading of the clock; a panic is `none`.
pub mod Handlers
pub mod Trash
pub mod Links
pub mod Imports
pub mod Edits
pub mod Advances
pub mod Changes
use passx.Base.{
  Bool, Bytes, List, Option, Text, [], any, bytes_eq, false, find_first, if◌then◌else◌, is_some,
  none, not, retain, some, true, unwrap_or, update_first, ℕ, ◌%◌, ◌&&◌, ◌++◌, ◌+◌, ◌==◌, ◌^◌, ◌∷◌,
}
use passx.Memory.Guard.View.{secure_copy}
use passx.Vault.Entry.{
  AccountEntry, TotpEntry, Fresh, new_account, new_totp, update_password, empty_buffer,
}
use passx.Vault.Format.{Vault, GeneratorSettings}
use passx.Ui.State.{trash_filter}
use passx.Ui.Model.{is_linked}

abbrev pub account_has : Text → AccountEntry → Bool
account_has id e = bytes_eq e.id id

abbrev pub totp_has : Text → TotpEntry → Bool
totp_has id t = bytes_eq t.id id

-- `sequence_number += 1` on a `u64`, in a release build.
unfoldable pub next_sequence : Vault → Vault
next_sequence v = record v { sequence_number = (v.sequence_number + 1) % 2 ^ 64 }

unfoldable pub touched : ℕ → Vault → Vault
unfolding next_sequence
touched now v = record (next_sequence v) { last_updated = now }

-- `SecureBuffer::from_slice(notes).unwrap_or(SecureBuffer::new(0).unwrap())`: the fallback is
-- allocated first, and a failure of that panics.
unfoldable pub notes_buffer : (ℕ → ℕ → Bool) → Bytes → Option Bytes
notes_buffer alloc notes = elim (empty_buffer (alloc 1)) [
  | none ↦ none
  | some empty ↦ some (unwrap_or empty (secure_copy (alloc 0) notes))
]

abbrev optional : Text → Option Text
optional [] = none
optional (c ∷ cs) = some (c ∷ cs)

abbrev pub is_empty_text : Text → Bool
is_empty_text [] = true
is_empty_text (c ∷ cs) = false

abbrev with_notes : (ℕ → ℕ → Bool) → Bytes → AccountEntry → Option AccountEntry
with_notes alloc notes e = if is_empty_text notes then some e else elim (notes_buffer alloc notes) [
  | none ↦ none
  | some buf ↦ some (record e { notes = buf })
]

-- The branch of `on_save_entry` for a new account.
unfoldable pub create_account :
    Fresh → (ℕ → ℕ → Bool) → Text → Text → Bytes → Text → Bytes → Vault → Option Vault
create_account fresh alloc title username password url notes v =
    elim (new_account fresh title username password (optional url)) [
      | none ↦ some v
      | some entry ↦ elim (with_notes alloc notes entry) [
        | none ↦ none
        | some e ↦ some (record v { accounts = v.accounts ++ (e ∷ []) })
      ]
    ]

unfoldable pub edited_account :
    (ℕ → ℕ → Bool) → ℕ → Text → Text → Bytes → Text → Bytes → AccountEntry → AccountEntry
edited_account alloc now title username password url buf e =
    let changed : AccountEntry = record e {
      title = title;
      username = username;
      url = url;
      notes = buf;
      updated_at = now;
    } in
    if is_empty_text password then changed else (update_password (alloc 2) now password changed).0

-- The branch for an account that exists.
unfoldable pub update_account :
    (ℕ → ℕ → Bool) → ℕ → Text → Text → Text → Bytes → Text → Bytes → Vault → Option Vault
update_account alloc now id title username password url notes v =
    elim (find_first (account_has id) v.accounts) [
      | none ↦ some v
      | some _ ↦ elim (notes_buffer alloc notes) [
        | none ↦ none
        | some buf ↦ some (record v {
          accounts =
              update_first (account_has id)
                (edited_account alloc now title username password url buf) v.accounts;
        })
      ]
    ]

unfoldable pub save_entry :
    Fresh → (ℕ → ℕ → Bool) → ℕ → Text → Text → Text → Bytes → Text → Bytes → Vault → Option Vault
unfolding create_account update_account
save_entry fresh alloc now id title username password url notes v =
    elim (if is_empty_text id
      then create_account fresh alloc title username password url notes v
      else update_account alloc now id title username password url notes v) [
        | none ↦ none
        | some v' ↦ some (touched now v')
      ]

abbrev pub delete_account_mark : ℕ → AccountEntry → AccountEntry
delete_account_mark now e = record e { deleted = true; updated_at = now }

abbrev pub delete_totp_mark : ℕ → TotpEntry → TotpEntry
delete_totp_mark now t = record t { deleted = true; updated_at = now }

-- Whether the account that was found goes from live to deleted, which makes the deletion cascade.
abbrev pub cascades : Option AccountEntry → Bool
cascades none = false
cascades (some e) = not e.deleted

-- The soft deletion of `on_delete_entry`: the account, the authenticator that is linked to it, and
-- the authenticator of that identifier.
unfoldable pub soft_delete : ℕ → Text → Vault → Vault
soft_delete now id v =
    let linked =
      if cascades (find_first (account_has id) v.accounts)
      then update_first (is_linked id) (delete_totp_mark now) v.totps
      else v.totps in
    record v {
      accounts = update_first (account_has id) (delete_account_mark now) v.accounts;
      totps = update_first (totp_has id) (delete_totp_mark now) linked;
    }

-- The removal that follows when the trash is shown.
unfoldable pub purge : Text → Vault → Vault
purge id v = record v {
  accounts = retain (λ e. not (account_has id e)) v.accounts;
  totps = retain (λ t. not (totp_has id t)) (retain (λ t. not (is_linked id t)) v.totps);
}

unfoldable pub delete_entry : Text → ℕ → Text → Vault → Vault
delete_entry filter now id v =
    let marked = soft_delete now id v in
    next_sequence (if bytes_eq filter trash_filter then purge id marked else marked)

unfoldable pub restore_entry : ℕ → Text → Vault → Vault
restore_entry now id v = next_sequence (
    if is_some (find_first (account_has id) v.accounts)
    then record v {
      accounts =
          update_first (account_has id) (λ e. record e { deleted = false; updated_at = now })
            v.accounts;
    }
    else record v {
      totps =
          update_first (totp_has id) (λ t. record t { deleted = false; updated_at = now }) v.totps;
    })

-- `replace(" ", "").replace("-", "")`, before the `to_uppercase` of the standard library.
abbrev pub strip_separators : Text → Text
strip_separators s = retain (λ c. not (c == b'-')) (retain (λ c. not (c == b' ')) s)

-- The account that a new authenticator is linked to when the form names none.
abbrev pub smart_link : Text → Text → List AccountEntry → Option Text
smart_link issuer name accounts =
    elim (find_first (λ a. not a.deleted && (bytes_eq a.title issuer && bytes_eq a.username name))
      accounts) [ none ↦ none | some a ↦ some a.id ]

unfoldable pub create_totp : Fresh → Text → Text → Bytes → Text → Vault → Vault
create_totp fresh name issuer secret linked v =
    let link = if is_empty_text linked then smart_link issuer name v.accounts else some linked in
    elim (new_totp fresh issuer name secret link) [
      | none ↦ v
      | some entry ↦ record v { totps = v.totps ++ (entry ∷ []) }
    ]

unfoldable pub edited_totp : (ℕ → ℕ → Bool) → ℕ → Text → Text → Bytes → Text → TotpEntry → TotpEntry
edited_totp alloc now name issuer secret linked t = record t {
  issuer = issuer;
  account_name = name;
  secret = unwrap_or t.secret (secure_copy (alloc 0) secret);
  linked_account_id = if is_empty_text linked then t.linked_account_id else some linked;
  updated_at = now;
}

unfoldable pub save_totp :
    (Text → Text) → Fresh → (ℕ → ℕ → Bool) → ℕ → Text → Text → Text → Text → Text → Vault → Vault
unfolding create_totp edited_totp
save_totp to_uppercase fresh alloc now id name secret issuer linked v =
    let clean = to_uppercase (strip_separators secret) in
    touched now (
      if is_empty_text id then create_totp fresh name issuer clean linked v else record v {
        totps = update_first (totp_has id) (edited_totp alloc now name issuer clean linked) v.totps;
      })

unfoldable pub link_totp : ℕ → Text → Text → Vault → Vault
link_totp now totp_id account_id v = touched now (record v {
  totps =
      update_first (totp_has totp_id)
        (λ t. record t { linked_account_id = some account_id; updated_at = now }) v.totps;
})

unfoldable pub unlink_totp : ℕ → Text → Vault → Vault
unlink_totp now account_id v = touched now (record v {
  totps =
      update_first (is_linked account_id)
        (λ t. record t { linked_account_id = none; updated_at = now }) v.totps;
})

unfoldable pub save_generator_settings : ℕ → GeneratorSettings → Vault → Vault
save_generator_settings now settings v = touched now (record v { generator_settings = settings })

-- The loop of `do_import_accounts`: an entry is a duplicate of a live one with its title and user
-- name, those already imported included.
unfoldable pub is_duplicate_account : List AccountEntry → AccountEntry → Bool
is_duplicate_account accounts entry =
    any
      (λ existing.
        bytes_eq existing.title entry.title
        && (bytes_eq existing.username entry.username && not existing.deleted))
      accounts

unfoldable pub import_accounts : List AccountEntry → List AccountEntry → ℕ → List AccountEntry × ℕ
import_accounts accounts [] added = (accounts, added)
import_accounts accounts (e ∷ es) added =
    import_accounts (if is_duplicate_account accounts e then accounts else accounts ++ (e ∷ [])) es
      (if is_duplicate_account accounts e then added else added + 1)

unfoldable pub is_duplicate_totp : List TotpEntry → TotpEntry → Bool
is_duplicate_totp totps entry =
    any
      (λ existing.
        bytes_eq existing.issuer entry.issuer
        && (bytes_eq existing.account_name entry.account_name && not existing.deleted))
      totps

unfoldable pub import_totps : List TotpEntry → List TotpEntry → ℕ → List TotpEntry × ℕ
import_totps totps [] added = (totps, added)
import_totps totps (t ∷ ts) added =
    import_totps (if is_duplicate_totp totps t then totps else totps ++ (t ∷ [])) ts
      (if is_duplicate_totp totps t then added else added + 1)

unfoldable pub do_import_accounts : List AccountEntry → Vault → Vault × ℕ
unfolding import_accounts
do_import_accounts entries v =
    let r = import_accounts v.accounts entries 0 in
    (next_sequence (record v { accounts = r.0 }), r.1)

unfoldable pub do_import_totps : List TotpEntry → Vault → Vault × ℕ
unfolding import_totps
do_import_totps entries v =
    let r = import_totps v.totps entries 0 in (next_sequence (record v { totps = r.0 }), r.1)
