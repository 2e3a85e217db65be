-- ===== src/Ui/Entries/Edits.antt =====
-- Saving an account or an authenticator, src/vault/entry.rs and src/ui/bridge/entries.rs: the lengths
-- of the buffers.
use passx.Base.{
  All, All-append, All-update_first, Bool, Bytes, List, Option, Option-cases, Text, [], arith,
  find_first, inl, inr, length, refl, some, update_first, ℕ, ◌++◌, ◌<◌, ◌∷◌, ◌≡◌,
}
use passx.Crypto.Cipher.RoundTrip.{secure_copy-eq-some, stored_nonempty}
use passx.Memory.Guard.View.{secure_copy}
use passx.Vault.Entry.{
  AccountEntry, TotpEntry, Fresh, HasBuffers, HasSecret, new_account, new_totp, update_password,
  empty_buffer,
}
use passx.Vault.Format.{Vault}
use passx.Vault.Format.Wrap.{IsStored}
use passx.Ui.Entries.{
  account_has, notes_buffer, create_account, edited_account, update_account, with_notes, optional,
}

pub copy_nonempty :
    (alloc : ℕ → Bool) (xs : Bytes) {ys : Bytes} → secure_copy alloc xs ≡ some ys → 0 < length ys
copy_nonempty alloc xs h = rw (secure_copy-eq-some alloc xs h) (stored_nonempty xs)

notes_nonempty :
    (alloc : ℕ → ℕ → Bool) (notes : Bytes) {buf : Bytes}
    → notes_buffer alloc notes ≡ some buf
    → 0 < length buf
unfolding notes_buffer empty_buffer
notes_nonempty alloc notes {buf} h = elim (Option-cases (secure_copy (alloc 1) [])) [
  | inl failed ↦ absurd (ground arith)
  | inr (empty, e_empty) ↦ elim (Option-cases (secure_copy (alloc 0) notes)) [
    | inl failed ↦
        let same : buf ≡ empty = ground arith in rw same (copy_nonempty (alloc 1) [] e_empty)
    | inr (copy, e_copy) ↦
        let same : buf ≡ copy = ground arith in rw same (copy_nonempty (alloc 0) notes e_copy)
  ]
]

new_account-HasBuffers :
    (f : Fresh) (title username : Text) (password : Bytes) (url : Option Text) {e : AccountEntry}
    → new_account f title username password url ≡ some e
    → HasBuffers e
unfolding new_account empty_buffer
new_account-HasBuffers f title username password url {e} h =
    elim (Option-cases (secure_copy f.alloc password)) [
      | inl failed ↦ absurd (ground arith)
      | inr (pass, e_pass) ↦ elim (Option-cases (secure_copy f.alloc [])) [
        | inl failed ↦ absurd (ground arith)
        | inr (notes, e_notes) ↦
            let same_pass : e.password ≡ pass = ground arith in
            let same_notes : e.notes ≡ notes = ground arith in
            record {
              password_nonempty = rw same_pass (copy_nonempty f.alloc password e_pass);
              notes_nonempty = rw same_notes (copy_nonempty f.alloc [] e_notes);
            }
      ]
    ]

update_password-HasBuffers :
    (alloc : ℕ → Bool) (now : ℕ) (password : Bytes) (e : AccountEntry)
    → HasBuffers e
    → HasBuffers (update_password alloc now password e).0
unfolding update_password
update_password-HasBuffers alloc now password e h =
    elim (Option-cases (secure_copy alloc password)) [
      | inl failed ↦ rw (failed, update_password) h
      | inr (pass, e_pass) ↦
          rw (e_pass, update_password)
            (record {
              password_nonempty = copy_nonempty alloc password e_pass;
              notes_nonempty = h.notes_nonempty;
            })
    ]

pub new_totp-HasSecret :
    (f : Fresh) (issuer name : Text) (secret : Bytes) (link : Option Text) {t : TotpEntry}
    → new_totp f issuer name secret link ≡ some t
    → HasSecret t
unfolding new_totp
new_totp-HasSecret f issuer name secret link {t} h =
    elim (Option-cases (secure_copy f.alloc secret)) [
      | inl failed ↦ absurd (ground arith)
      | inr (copy, e_copy) ↦
          let same : t.secret ≡ copy = ground arith in rw same (copy_nonempty f.alloc secret e_copy)
    ]

-- What a vault keeps when its entries change.
pub record Kept (v v' : Vault) : Type 0 where
  pub stored_again : IsStored v → IsStored v'
  pub same_mode : v'.mode ≡ v.mode
  pub same_mirrors : v'.mirrors ≡ v.mirrors

pub accounts-Kept :
    (v : Vault) (accounts : List AccountEntry)
    → (All HasBuffers v.accounts → All HasBuffers accounts)
    → Kept v (record v { accounts = accounts })
accounts-Kept v accounts keep = record {
  stored_again =
      λ h. record { accounts_stored = keep h.accounts_stored; totps_stored = h.totps_stored };
  same_mode = refl;
  same_mirrors = refl;
}

pub totps-Kept :
    (v : Vault) (totps : List TotpEntry)
    → (All HasSecret v.totps → All HasSecret totps)
    → Kept v (record v { totps = totps })
totps-Kept v totps keep = record {
  stored_again =
      λ h. record { accounts_stored = h.accounts_stored; totps_stored = keep h.totps_stored };
  same_mode = refl;
  same_mirrors = refl;
}

pub same-Kept : (v : Vault) → Kept v v
same-Kept v = record { stored_again = λ h. h; same_mode = refl; same_mirrors = refl }

with_notes-HasBuffers :
    (alloc : ℕ → ℕ → Bool) (notes : Bytes) (e : AccountEntry) {e' : AccountEntry}
    → HasBuffers e
    → with_notes alloc notes e ≡ some e'
    → HasBuffers e'
with_notes-HasBuffers alloc [] e {e'} h k = let same : e' ≡ e = cc in rw same h
with_notes-HasBuffers alloc (x ∷ xs) e {e'} h k =
    elim (Option-cases (notes_buffer alloc (x ∷ xs))) [
      | inl failed ↦ absurd (ground arith)
      | inr (buf, e_buf) ↦
          let same : e' ≡ record e { notes = buf } = ground arith in
          rw same (record {
            password_nonempty = h.password_nonempty;
            notes_nonempty = notes_nonempty alloc (x ∷ xs) e_buf;
          })
    ]

pub create_account-Kept :
    (fresh : Fresh) (alloc : ℕ → ℕ → Bool) (title username : Text) (password : Bytes) (url : Text)
    (notes : Bytes) (v : Vault) {v' : Vault}
    → create_account fresh alloc title username password url notes v ≡ some v'
    → Kept v v'
unfolding create_account
create_account-Kept fresh alloc title username password url notes v {v'} h =
    elim (Option-cases (new_account fresh title username password (optional url))) [
      | inl failed ↦ let same : v' ≡ v = ground arith in rw same (same-Kept v)
      | inr (e, e_new) ↦ elim (Option-cases (with_notes alloc notes e)) [
        | inl failed ↦ absurd (ground arith)
        | inr (e', e_notes) ↦
            let same : v' ≡ record v { accounts = v.accounts ++ (e' ∷ []) } = ground arith in
            let held =
              with_notes-HasBuffers alloc notes e
                (new_account-HasBuffers fresh title username password (optional url) e_new)
                e_notes in
            rw same (
              accounts-Kept v (v.accounts ++ (e' ∷ []))
                (λ k. All-append HasBuffers v.accounts (e' ∷ []) k (held, tt)))
      ]
    ]

edited_account-HasBuffers :
    (alloc : ℕ → ℕ → Bool) (now : ℕ) (title username : Text) (password : Bytes) (url : Text)
    (buf : Bytes) (e : AccountEntry)
    → 0 < length buf
    → HasBuffers e
    → HasBuffers (edited_account alloc now title username password url buf e)
unfolding edited_account
edited_account-HasBuffers alloc now title username [] url buf e pos h = record {
  password_nonempty = h.password_nonempty;
  notes_nonempty = pos;
}
edited_account-HasBuffers alloc now title username (c ∷ cs) url buf e pos h =
    update_password-HasBuffers (alloc 2) now (c ∷ cs)
      (record e { title = title; username = username; url = url; notes = buf; updated_at = now })
      (record { password_nonempty = h.password_nonempty; notes_nonempty = pos })

pub update_account-Kept :
    (alloc : ℕ → ℕ → Bool) (now : ℕ) (id title username : Text) (password : Bytes) (url : Text)
    (notes : Bytes) (v : Vault) {v' : Vault}
    → update_account alloc now id title username password url notes v ≡ some v'
    → Kept v v'
unfolding update_account
update_account-Kept alloc now id title username password url notes v {v'} h =
    elim (Option-cases (find_first (account_has id) v.accounts)) [
      | inl missing ↦ let same : v' ≡ v = ground arith in rw same (same-Kept v)
      | inr (e, found) ↦ elim (Option-cases (notes_buffer alloc notes)) [
        | inl failed ↦ absurd (ground arith)
        | inr (buf, e_buf) ↦
            let edit = edited_account alloc now title username password url buf in
            let same : v' ≡ record v { accounts = update_first (account_has id) edit v.accounts } =
              ground arith in
            rw same (
              accounts-Kept v (update_first (account_has id) edit v.accounts) (
                All-update_first HasBuffers (account_has id) edit v.accounts (λ x.
                  edited_account-HasBuffers alloc now title username password url buf x
                    (notes_nonempty alloc notes e_buf))))
      ]
    ]
