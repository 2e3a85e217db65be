-- ===== src/Ui/Runs/Edits.antt =====
-- The callbacks of src/ui/bridge/entries.rs that edit the vault, when all that they call succeeds.
use passx.Base.{Bytes, Text, ap, none, ok, refl, some, suc, sym, true, ℕ, ◌∙◌, ◌≡◌}
use passx.Vault.Format.{Platform, Vault}
use passx.Vault.Format.Save.{IsDraws}
use passx.Ui.Entries.{save_entry, delete_entry, restore_entry, save_totp, link_totp, unlink_totp}
use passx.Ui.Entries.Changes.{Change, saves_entry, deletes, restores, saves_totp, links, unlinks}
use passx.Ui.Entries.Handlers.{
  Env, Program, persist, with_vault, vault_of, on_save_entry, on_delete_entry, on_restore_entry,
  on_save_totp, on_link_totp, on_unlink_totp, after_save_entry,
}
use passx.Ui.Entries.Handlers.Files.{on_save_entry_lem}
use passx.Ui.Runs.Held.{after_save_entry-device, after_delete-device, after_restore-device}

pub some_injective {ℓ} : {A : Type ℓ} {x y : A} → some x ≡ some y → x ≡ y
some_injective h = cc

module _ (p : Platform) where
  -- The surroundings of a callback, on the one platform.
  abbrev pub on_platform : Env → Env
  on_platform e = record e { platform = p }

  -- The copies of key and password, the writes, and the save that a callback makes succeed.
  pub record Succeeds (e : Env) (g : Program) (v : Vault) : Type 0 where
    pub copies : (i n : ℕ) → e.alloc_copy i n ≡ true
    pub draws : IsDraws e.io.draws
    pub writes : (k : ℕ) → e.io.accept k ≡ none
    pub saves : (persist (on_platform e) v.mode (with_vault v g.device)).0 ≡ some (ok tt)

  -- One callback that succeeds in an open vault: the program after it, and the changed vault.
  pub data Edit (g : Program) (v : Vault) : Program → Vault → Type 0 where
    edit_saves :
        (e : Env) (id title username : Text) (password : Bytes) (url : Text) (notes : Bytes)
        {v' : Vault} {g' : Program}
        → save_entry e.fresh e.alloc_edit e.now id title username password url notes v ≡ some v'
        → Succeeds e g v'
        → on_save_entry (on_platform e) id title username password url notes g ≡ some g'
        → Edit g v g' v'
    edit_deletes :
        (e : Env) (id : Text)
        → Succeeds e g (delete_entry g.device.state.current_filter e.now id v)
        → Edit g v
            (on_delete_entry (on_platform e) id g)
            (delete_entry g.device.state.current_filter e.now id v)
    edit_restores :
        (e : Env) (id : Text)
        → Succeeds e g (restore_entry e.now id v)
        → Edit g v (on_restore_entry (on_platform e) id g) (restore_entry e.now id v)
    edit_totp :
        (e : Env) (id account secret issuer linked : Text)
        → Succeeds e g
            (save_totp e.to_uppercase e.fresh e.alloc_edit e.now id account secret issuer linked v)
        → Edit g v
            (on_save_totp (on_platform e) id account secret issuer linked g)
            (save_totp e.to_uppercase e.fresh e.alloc_edit e.now id account secret issuer linked v)
    edit_links :
        (e : Env) (totp_id account_id : Text)
        → Succeeds e g (link_totp e.now totp_id account_id v)
        → Edit g v
            (on_link_totp (on_platform e) totp_id account_id g)
            (link_totp e.now totp_id account_id v)
    edit_unlinks :
        (e : Env) (account_id : Text)
        → Succeeds e g (unlink_totp e.now account_id v)
        → Edit g v (on_unlink_totp (on_platform e) account_id g) (unlink_totp e.now account_id v)

  pub data Edits (g : Program) (v : Vault) : ℕ → Program → Vault → Type 0 where
    no_edit : Edits g v 0 g v
    then_edit :
        {n : ℕ} {h k : Program} {u w : Vault}
        → Edits g v n h u
        → Edit h u k w
        → Edits g v (suc n) k w

  -- Of a callback that replaces the vault and saves, what is needed of the change and the device.
  abbrev pub Replaced : Program → Vault → Program → Vault → Type 0
  Replaced g v g' v' =
      (e : Env) × Change v v'
      × Succeeds e g v'
      × (g'.device ≡ (persist (on_platform e) v'.mode (with_vault v' g.device)).1)

  pub Edit-Replaced :
      {g g' : Program} {v v' : Vault}
      → Edit g v g' v'
      → vault_of g.device.state ≡ some v
      → Replaced g v g' v'
  unfolding on_delete_entry on_restore_entry on_save_totp on_link_totp on_unlink_totp
  Edit-Replaced {g} {g'} {v} {v'}
        (edit_saves e id title username password url notes changes good ran) opened =
      let x = persist (on_platform e) v'.mode (with_vault v' g.device) in
      let ended : after_save_entry (on_platform e) id url x g.window ≡ g' = some_injective (
        sym (
          on_save_entry_lem (on_platform e) id title username password url notes g v opened changes)
        ∙ ran) in
      (
        e,
        saves_entry e.fresh e.alloc_edit e.now id title username password url notes changes,
        good,
        ap (λ h. h.device) (sym ended) ∙ after_save_entry-device (on_platform e) id url x g.window,
      )
  Edit-Replaced {g} {g'} {v} {v'} (edit_deletes e id good) opened =
      let x = persist (on_platform e) v'.mode (with_vault v' g.device) in
      (
        e,
        deletes g.device.state.current_filter e.now id,
        good,
        rw (opened, on_delete_entry) (after_delete-device (on_platform e) x g.window),
      )
  Edit-Replaced {g} {g'} {v} {v'} (edit_restores e id good) opened =
      let x = persist (on_platform e) v'.mode (with_vault v' g.device) in
      (
        e,
        restores e.now id,
        good,
        rw (opened, on_restore_entry) (after_restore-device (on_platform e) x g.window),
      )
  Edit-Replaced {g} {g'} {v} {v'} (edit_totp e id account secret issuer linked good) opened = (
    e,
    saves_totp e.to_uppercase e.fresh e.alloc_edit e.now id account secret issuer linked,
    good,
    rw (opened, on_save_totp) refl,
  )
  Edit-Replaced {g} {g'} {v} {v'} (edit_links e totp_id account_id good) opened =
      (e, links e.now totp_id account_id, good, rw (opened, on_link_totp) refl)
  Edit-Replaced {g} {g'} {v} {v'} (edit_unlinks e account_id good) opened =
      (e, unlinks e.now account_id, good, rw (opened, on_unlink_totp) refl)
