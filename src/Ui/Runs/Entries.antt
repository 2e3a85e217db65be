-- ===== src/Ui/Runs/Entries.antt =====
-- What the callbacks of src/ui/bridge/entries.rs, one by one, leave of the secrets in the state.
use passx.Base.{Bool-cases, Bytes, List, Option-cases, Text, inl, inr, is_some, refl, true, ◌≡◌}
use passx.Vault.Entry.{AccountEntry, TotpEntry}
use passx.Ui.Entries.{
  save_entry, delete_entry, restore_entry, save_totp, link_totp, unlink_totp, do_import_accounts,
  do_import_totps,
}
use passx.Ui.Entries.Handlers.{
  Env, Program, on_save_entry, on_delete_entry, on_restore_entry, on_save_totp, on_link_totp,
  on_unlink_totp, import_passwords, import_authenticators, persist, with_vault, vault_of,
  passwords_label, authenticators_label,
}
use passx.Ui.Entries.Handlers.Files.{on_save_entry_lem}
use passx.Ui.Runs.Held.{
  is_whole, ends_whole, whole-key, vault_of-some, persist-is_whole, after_save_entry-device,
  after_delete-device, after_restore-device, finish_import-device, replaced-is_whole,
}

module _ (e : Env) where
  pub on_save_entry-is_whole :
      (id title username : Text) (password : Bytes) (url : Text) (notes : Bytes) (g : Program)
      → is_whole g.device.state ≡ true
      → ends_whole (on_save_entry e id title username password url notes g) ≡ true
  unfolding on_save_entry
  on_save_entry-is_whole id title username password url notes g whole =
      elim (Option-cases (vault_of g.device.state)) [
        | inl shut ↦ rw (shut, on_save_entry) whole
        | inr (v, opened) ↦
            elim (Option-cases
              (save_entry e.fresh e.alloc_edit e.now id title username password url notes v)) [
                | inl failed ↦ rw (opened, failed, on_save_entry) refl
                | inr (v', changed) ↦
                    let x = persist e v'.mode (with_vault v' g.device) in
                    rw
                      (
                        on_save_entry_lem e id title username password url notes g v opened changed,
                        after_save_entry-device e id url x g.window,
                      )
                      (persist-is_whole e v'.mode g.device v'
                        (vault_of-some e g.device.state v opened).1)
              ]
      ]

  pub on_delete_entry-is_whole :
      (id : Text) (g : Program)
      → is_whole g.device.state ≡ true
      → is_whole ((on_delete_entry e id g).device.state) ≡ true
  unfolding on_delete_entry
  on_delete_entry-is_whole id g =
      replaced-is_whole e (delete_entry g.device.state.current_filter e.now id) g
        (on_delete_entry e id g) (λ shut. rw (shut, on_delete_entry) refl)
        (λ v opened.
          rw (opened, on_delete_entry)
            (after_delete-device e
              (persist e (delete_entry g.device.state.current_filter e.now id v).mode
                (with_vault (delete_entry g.device.state.current_filter e.now id v) g.device))
              g.window))

  pub on_restore_entry-is_whole :
      (id : Text) (g : Program)
      → is_whole g.device.state ≡ true
      → is_whole ((on_restore_entry e id g).device.state) ≡ true
  unfolding on_restore_entry
  on_restore_entry-is_whole id g =
      replaced-is_whole e (restore_entry e.now id) g (on_restore_entry e id g)
        (λ shut. rw (shut, on_restore_entry) refl)
        (λ v opened.
          rw (opened, on_restore_entry)
            (after_restore-device e
              (persist e (restore_entry e.now id v).mode
                (with_vault (restore_entry e.now id v) g.device))
              g.window))

  pub on_save_totp-is_whole :
      (id account secret issuer linked : Text) (g : Program)
      → is_whole g.device.state ≡ true
      → is_whole ((on_save_totp e id account secret issuer linked g).device.state) ≡ true
  unfolding on_save_totp
  on_save_totp-is_whole id account secret issuer linked g =
      replaced-is_whole e
        (save_totp e.to_uppercase e.fresh e.alloc_edit e.now id account secret issuer linked) g
        (on_save_totp e id account secret issuer linked g) (λ shut. rw (shut, on_save_totp) refl)
        (λ v opened. rw (opened, on_save_totp) refl)

  pub on_link_totp-is_whole :
      (totp_id account_id : Text) (g : Program)
      → is_whole g.device.state ≡ true
      → is_whole ((on_link_totp e totp_id account_id g).device.state) ≡ true
  unfolding on_link_totp
  on_link_totp-is_whole totp_id account_id g =
      replaced-is_whole e (link_totp e.now totp_id account_id) g
        (on_link_totp e totp_id account_id g) (λ shut. rw (shut, on_link_totp) refl)
        (λ v opened. rw (opened, on_link_totp) refl)

  pub on_unlink_totp-is_whole :
      (account_id : Text) (g : Program)
      → is_whole g.device.state ≡ true
      → is_whole ((on_unlink_totp e account_id g).device.state) ≡ true
  unfolding on_unlink_totp
  on_unlink_totp-is_whole account_id g =
      replaced-is_whole e (unlink_totp e.now account_id) g (on_unlink_totp e account_id g)
        (λ shut. rw (shut, on_unlink_totp) refl) (λ v opened. rw (opened, on_unlink_totp) refl)

  pub import_passwords-is_whole :
      (entries : List AccountEntry) (g : Program)
      → is_whole g.device.state ≡ true
      → ends_whole (import_passwords e entries g) ≡ true
  unfolding import_passwords
  import_passwords-is_whole entries g whole =
      elim (Bool-cases (is_some g.device.state.vault_path)) [
        | inr missing ↦ rw (missing, import_passwords) refl
        | inl has_path ↦ elim (Option-cases g.device.state.vault) [
          | inl shut ↦ rw (has_path, shut, import_passwords) whole
          | inr (v, opened) ↦
              let r = do_import_accounts entries v in
              let x = persist e v.mode (with_vault r.0 g.device) in
              rw
                (
                  has_path,
                  opened,
                  import_passwords,
                  finish_import-device e r.1 (passwords_label e) x g.window,
                )
                (persist-is_whole e v.mode g.device r.0 (whole-key g.device.state v opened whole))
        ]
      ]

  pub import_authenticators-is_whole :
      (entries : List TotpEntry) (g : Program)
      → is_whole g.device.state ≡ true
      → ends_whole (import_authenticators e entries g) ≡ true
  unfolding import_authenticators
  import_authenticators-is_whole entries g whole =
      elim (Bool-cases (is_some g.device.state.vault_path)) [
        | inr missing ↦ rw (missing, import_authenticators) refl
        | inl has_path ↦ elim (Option-cases g.device.state.vault) [
          | inl shut ↦ rw (has_path, shut, import_authenticators) whole
          | inr (v, opened) ↦
              let r = do_import_totps entries v in
              let x = persist e v.mode (with_vault r.0 g.device) in
              rw
                (
                  has_path,
                  opened,
                  import_authenticators,
                  finish_import-device e r.1 (authenticators_label e) x g.window,
                )
                (persist-is_whole e v.mode g.device r.0 (whole-key g.device.state v opened whole))
        ]
      ]
