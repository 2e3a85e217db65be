-- ===== src/Ui/Entries/Advances.antt =====
-- One change of src/ui/bridge/entries.rs at a time: its effect on the sequence number, the mode and
-- the buffers.
use passx.Base.{
  All, All-append, All-retain, All-update_first, Bool, Bool-cases, Bytes, List, Option-cases, Text,
  [], arith, bytes_eq, find_first, if◌then◌else◌, inl, inr, is_some, refl, some, ℕ, ◌%◌, ◌++◌, ◌+◌,
  ◌^◌, ◌∷◌, ◌≡◌,
}
use passx.Vault.Entry.{AccountEntry, TotpEntry, Fresh, HasBuffers, HasSecret, new_totp}
use passx.Vault.Format.{Vault}
use passx.Ui.State.{trash_filter}
use passx.Ui.Model.{is_linked}
use passx.Ui.Entries.{
  account_has, totp_has, next_sequence, touched, create_account, update_account, save_entry,
  soft_delete, purge, delete_entry, restore_entry, create_totp, edited_totp, save_totp,
  import_accounts, import_totps, delete_totp_mark, delete_account_mark, smart_link,
  strip_separators, cascades, is_duplicate_account, is_duplicate_totp, is_empty_text,
}
use passx.Ui.Entries.Edits.{
  Kept, create_account-Kept, update_account-Kept, new_totp-HasSecret, totps-Kept, same-Kept,
  copy_nonempty,
}
use passx.Memory.Guard.View.{secure_copy}

-- One step: the sequence number goes up, and the rest is kept.
abbrev pub Advances : Vault → Vault → Type 0
Advances v v' = (v'.sequence_number ≡ (v.sequence_number + 1) % 2 ^ 64) × Kept v v'

pub Kept-of :
    (v v' : Vault)
    → v'.mode ≡ v.mode
    → v'.mirrors ≡ v.mirrors
    → (All HasBuffers v.accounts → All HasBuffers v'.accounts)
    → (All HasSecret v.totps → All HasSecret v'.totps)
    → Kept v v'
Kept-of v v' mode mirrors accounts totps = record {
  stored_again = λ h. record {
    accounts_stored = accounts h.accounts_stored;
    totps_stored = totps h.totps_stored;
  };
  same_mode = mode;
  same_mirrors = mirrors;
}

touched-Kept : (now : ℕ) (v v' : Vault) → Kept v v' → Kept v (touched now v')
unfolding touched next_sequence
touched-Kept now v v' k = record {
  stored_again = λ h. record {
    accounts_stored = (k.stored_again h).accounts_stored;
    totps_stored = (k.stored_again h).totps_stored;
  };
  same_mode = k.same_mode;
  same_mirrors = k.same_mirrors;
}

touched_sequence :
    (now : ℕ) (v w : Vault)
    → w.sequence_number ≡ v.sequence_number
    → (touched now w).sequence_number ≡ (v.sequence_number + 1) % 2 ^ 64
unfolding touched next_sequence
touched_sequence now v w h = rw h refl

create_account_sequence :
    (fresh : Fresh) (alloc : ℕ → ℕ → Bool) (title username : Text) (password : Bytes) (url : Text)
    (notes : Bytes) (v : Vault) {w : Vault}
    → create_account fresh alloc title username password url notes v ≡ some w
    → w.sequence_number ≡ v.sequence_number
unfolding create_account
create_account_sequence fresh alloc title username password url notes v h = ground arith

update_account_sequence :
    (alloc : ℕ → ℕ → Bool) (now : ℕ) (id title username : Text) (password : Bytes) (url : Text)
    (notes : Bytes) (v : Vault) {w : Vault}
    → update_account alloc now id title username password url notes v ≡ some w
    → w.sequence_number ≡ v.sequence_number
unfolding update_account
update_account_sequence alloc now id title username password url notes v h = ground arith

pub save_entry-Advances :
    (fresh : Fresh) (alloc : ℕ → ℕ → Bool) (now : ℕ) (id title username : Text) (password : Bytes)
    (url : Text) (notes : Bytes) (v : Vault) {v' : Vault}
    → save_entry fresh alloc now id title username password url notes v ≡ some v'
    → Advances v v'
unfolding save_entry
save_entry-Advances fresh alloc now [] title username password url notes v {v'} h =
    elim (Option-cases (create_account fresh alloc title username password url notes v)) [
      | inl failed ↦ absurd (ground arith)
      | inr (w, made) ↦
          let same : v' ≡ touched now w = ground arith in
          let kept = create_account-Kept fresh alloc title username password url notes v made in
          rw same (
            touched_sequence now v w (create_account_sequence _ _ _ _ _ _ _ _ made),
            touched-Kept now v w kept,
          )
    ]
save_entry-Advances fresh alloc now (c ∷ cs) title username password url notes v {v'} h =
    elim (Option-cases (update_account alloc now (c ∷ cs) title username password url notes v)) [
      | inl failed ↦ absurd (ground arith)
      | inr (w, made) ↦
          let same : v' ≡ touched now w = ground arith in
          let kept =
            update_account-Kept alloc now (c ∷ cs) title username password url notes v made in
          rw same (
            touched_sequence now v w (update_account_sequence _ _ _ _ _ _ _ _ _ made),
            touched-Kept now v w kept,
          )
    ]

pub delete_entry-Advances :
    (filter : Text) (now : ℕ) (id : Text) (v : Vault) → Advances v (delete_entry filter now id v)
unfolding delete_entry soft_delete purge next_sequence
delete_entry-Advances filter now id v = elim (Bool-cases (bytes_eq filter trash_filter)) [
  | inl final ↦ (
    ground arith,
    Kept-of v (delete_entry filter now id v) (ground arith) (ground arith)
        (λ h. rw final (All-retain HasBuffers _ _ (marked h)))
        (λ h. rw final (All-retain HasSecret _ _ (All-retain HasSecret _ _ (marked_totps h)))),
  )
  | inr kept ↦ (
    ground arith,
    Kept-of v (delete_entry filter now id v) (ground arith) (ground arith) (λ h. rw kept (marked h))
        (λ h. rw kept (marked_totps h)),
  )
]
  where
    marked : All HasBuffers v.accounts → All HasBuffers (soft_delete now id v).accounts
    marked h =
        All-update_first HasBuffers (account_has id) (delete_account_mark now) v.accounts
          (λ e k. record {
            password_nonempty = k.password_nonempty;
            notes_nonempty = k.notes_nonempty;
          })
          h

    marked_totps : All HasSecret v.totps → All HasSecret (soft_delete now id v).totps
    marked_totps h = elim (Bool-cases (cascades (find_first (account_has id) v.accounts))) [
      | inl c ↦ rw c (
          All-update_first HasSecret (totp_has id) (delete_totp_mark now) _ (λ t k. k)
            (All-update_first HasSecret (is_linked id) (delete_totp_mark now) v.totps (λ t k. k) h))
      | inr c ↦
          rw c
            (All-update_first HasSecret (totp_has id) (delete_totp_mark now) v.totps (λ t k. k) h)
    ]

pub restore_entry-Advances : (now : ℕ) (id : Text) (v : Vault) → Advances v (restore_entry now id v)
unfolding restore_entry next_sequence
restore_entry-Advances now id v =
    elim (Bool-cases (is_some (find_first (account_has id) v.accounts))) [
      | inl here ↦ (
        ground arith,
        Kept-of v (restore_entry now id v) (ground arith) (ground arith)
            (λ h.
              rw (here, restore_entry)
                (All-update_first HasBuffers (account_has id) _ v.accounts
                  (λ e k. record {
                    password_nonempty = k.password_nonempty;
                    notes_nonempty = k.notes_nonempty;
                  })
                  h))
            (λ h. rw (here, restore_entry) h),
      )
      | inr there ↦ (
        ground arith,
        Kept-of v (restore_entry now id v) (ground arith) (ground arith)
            (λ h. rw (there, restore_entry) h)
            (λ h.
              rw (there, restore_entry)
                (All-update_first HasSecret (totp_has id) _ v.totps (λ t k. k) h)),
      )
    ]

edited_totp-HasSecret :
    (alloc : ℕ → ℕ → Bool) (now : ℕ) (name issuer : Text) (secret : Bytes) (linked : Text)
    (t : TotpEntry)
    → HasSecret t
    → HasSecret (edited_totp alloc now name issuer secret linked t)
unfolding edited_totp
edited_totp-HasSecret alloc now name issuer secret linked t h =
    elim (Option-cases (secure_copy (alloc 0) secret)) [
      | inl failed ↦ rw failed h
      | inr (copy, e_copy) ↦ rw e_copy (copy_nonempty (alloc 0) secret e_copy)
    ]

create_totp-Kept :
    (fresh : Fresh) (name issuer : Text) (secret : Bytes) (linked : Text) (v : Vault)
    → Kept v (create_totp fresh name issuer secret linked v)
unfolding create_totp
create_totp-Kept fresh name issuer secret linked v =
    let link = if is_empty_text linked then smart_link issuer name v.accounts else some linked in
    elim (Option-cases (new_totp fresh issuer name secret link)) [
      | inl failed ↦ rw (create_totp, failed) (same-Kept v)
      | inr (t, made) ↦
          rw (create_totp, made)
            (totps-Kept v (v.totps ++ (t ∷ [])) (λ k.
              All-append HasSecret v.totps (t ∷ []) k
                (new_totp-HasSecret fresh issuer name secret link made, tt)))
    ]

create_totp_sequence :
    (fresh : Fresh) (name issuer : Text) (secret : Bytes) (linked : Text) (v : Vault)
    → (create_totp fresh name issuer secret linked v).sequence_number ≡ v.sequence_number
unfolding create_totp
create_totp_sequence fresh name issuer secret linked v = ground arith

pub save_totp-Advances :
    (to_uppercase : Text → Text) (fresh : Fresh) (alloc : ℕ → ℕ → Bool) (now : ℕ)
    (id name secret issuer linked : Text) (v : Vault)
    → Advances v (save_totp to_uppercase fresh alloc now id name secret issuer linked v)
unfolding save_totp
save_totp-Advances to_uppercase fresh alloc now [] name secret issuer linked v =
    let clean = to_uppercase (strip_separators secret) in
    (
      touched_sequence now v _ (create_totp_sequence fresh name issuer clean linked v),
      touched-Kept now v _ (create_totp-Kept fresh name issuer clean linked v),
    )
save_totp-Advances to_uppercase fresh alloc now (c ∷ cs) name secret issuer linked v =
    let clean = to_uppercase (strip_separators secret) in
    (
      touched_sequence now v _ refl,
      touched-Kept now v _ (
          totps-Kept v _ (
            All-update_first HasSecret (totp_has (c ∷ cs)) _ v.totps
              (λ t. edited_totp-HasSecret alloc now name issuer clean linked t))),
    )

pub import_accounts-HasBuffers :
    (accounts entries : List AccountEntry) (added : ℕ)
    → All HasBuffers accounts
    → All HasBuffers entries
    → All HasBuffers (import_accounts accounts entries added).0
unfolding import_accounts
import_accounts-HasBuffers accounts [] added h k = h
import_accounts-HasBuffers accounts (e ∷ es) added h k =
    elim (Bool-cases (is_duplicate_account accounts e)) [
      | inl old ↦ rw (old, import_accounts) (import_accounts-HasBuffers accounts es added h k.1)
      | inr new ↦
          rw (new, import_accounts)
            (import_accounts-HasBuffers (accounts ++ (e ∷ [])) es (added + 1)
              (All-append HasBuffers accounts (e ∷ []) h (k.0, tt)) k.1)
    ]

pub import_totps-HasSecret :
    (totps entries : List TotpEntry) (added : ℕ)
    → All HasSecret totps
    → All HasSecret entries
    → All HasSecret (import_totps totps entries added).0
unfolding import_totps
import_totps-HasSecret totps [] added h k = h
import_totps-HasSecret totps (e ∷ es) added h k = elim (Bool-cases (is_duplicate_totp totps e)) [
  | inl old ↦ rw (old, import_totps) (import_totps-HasSecret totps es added h k.1)
  | inr new ↦
      rw (new, import_totps)
        (import_totps-HasSecret (totps ++ (e ∷ [])) es (added + 1)
          (All-append HasSecret totps (e ∷ []) h (k.0, tt)) k.1)
]
