-- ===== src/Ui/Entries/Handlers/Files.antt =====
-- What the callbacks leave in memory, in the file and in the window.
use passx.Base.{
  Result, Bool, Bytes, Option-cases, Text, ap, arith, err, inl, inr, is_some, length, none, ok,
  refl, some, sym, true, ℕ, ◌<◌, ◌∙◌, ◌≡◌,
}
use passx.Crypto.Cipher.RoundTrip.{secure_copy_all, stored_id}
use passx.Memory.Guard.View.{secure_copy}
use passx.Vault.Format.{Vault, VaultMode}
use passx.Vault.Format.Load.{load_vault_from_reader}
use passx.Vault.Format.Wrap.{IsStored, PlatformLaws}
use passx.Vault.Format.Save.{IsDraws}
use passx.Ui.State.{AppState, Device, SaveError, save_vault_state}
use passx.Ui.State.Saved.{vault_file_of, save_vault_state-loads, save_vault_state-memory}
use passx.Ui.Model.{generate_vault_entries}
use passx.Ui.Entries.{save_entry, delete_entry}
use passx.Ui.Entries.Advances.{save_entry-Advances}
use passx.Ui.Entries.Handlers.{
  Env, Program, Window, copy_of, pass_copy, with_vault, vault_of, persist, on_save_entry,
  on_delete_entry, after_save_entry, after_delete, save_with, pass_copy,
}

some_injective : (a b : Program) → some a ≡ some b → a ≡ b
some_injective a b h = cc

-- The vault is open under a key and a password, none of them empty.
pub record Opened (s : AppState) (v : Vault) (key pass : Bytes) : Type 0 where
  pub has_vault : s.vault ≡ some v
  pub has_key : s.key ≡ some key
  pub has_password : s.password ≡ some pass
  pub has_path : is_some s.vault_path ≡ true
  pub key_nonempty : 0 < length key
  pub password_nonempty : 0 < length pass

pub vault_of_lem :
    (v : Vault) (key pass : Bytes) (s : AppState) → Opened s v key pass → vault_of s ≡ some v
vault_of_lem v key pass s h = rw (h.has_vault, h.has_key, h.has_path) refl

module _ (e : Env) where
  after_save_entry_quiet :
      (id url : Text) (r : Result SaveError (Unit {0})) (d : Device) (w : Window)
      → (after_save_entry e id url (some r, d) w).window.error_message ≡ none
      → (r ≡ ok tt) × ((after_save_entry e id url (some r, d) w).device ≡ d)
  after_save_entry_quiet id url (ok tt) d w h = (refl, refl)
  after_save_entry_quiet id url (err x) d w h = cc

  pub on_save_entry_lem :
      (id title username : Text) (password : Bytes) (url : Text) (notes : Bytes) (g : Program)
      (v : Vault) {v' : Vault}
      → vault_of g.device.state ≡ some v
      → save_entry e.fresh e.alloc_edit e.now id title username password url notes v ≡ some v'
      → on_save_entry e id title username password url notes g
        ≡ some (after_save_entry e id url (persist e v'.mode (with_vault v' g.device)) g.window)
  unfolding on_save_entry
  on_save_entry_lem id title username password url notes g v {v'} hv hs =
      ap
        (λ o. elim o [
          | none ↦ some g
          | some x ↦
              elim (save_entry e.fresh e.alloc_edit e.now id title username password url notes x) [
                | none ↦ none
                | some x' ↦ some (
                    after_save_entry e id url (persist e x'.mode (with_vault x' g.device)) g.window)
              ]
        ])
        hv
      ∙ ap
          (λ o. elim o [
            | none ↦ none
            | some x' ↦
                some
                  (after_save_entry e id url (persist e x'.mode (with_vault x' g.device)) g.window)
          ])
          hs

  pub persist_lem :
      (v v' : Vault) (key pass : Bytes) (mode : VaultMode) (d : Device)
      → Opened d.state v key pass
      → ((i n : ℕ) → e.alloc_copy i n ≡ true)
      → persist e mode (with_vault v' d) ≡ (
        some (save_vault_state e.platform e.io (with_vault v' d) key mode (some pass)).0,
        (save_vault_state e.platform e.io (with_vault v' d) key mode (some pass)).1,
      )
  unfolding persist
  persist_lem v v' key pass mode d h free =
      let whole_key : secure_copy (e.alloc_copy 0) key ≡ some key =
        secure_copy_all (e.alloc_copy 0) key (free 0) ∙ ap some (stored_id key h.key_nonempty) in
      let whole_pass : secure_copy (e.alloc_copy 1) pass ≡ some pass =
        secure_copy_all (e.alloc_copy 1) pass (free 1)
        ∙ ap some (stored_id pass h.password_nonempty) in
      let d' = with_vault v' d in
      ap (λ k. save_with e mode d' k (pass_copy e d'.state))
        (ap (λ k. copy_of (e.alloc_copy 0) k) h.has_key ∙ whole_key)
      ∙ ap (λ k. save_with e mode d' (some key) k)
          (ap (λ k. copy_of (e.alloc_copy 1) k) h.has_password ∙ whole_pass)

  -- Once the callback that saves an entry ends without an error message, the file loads under the
  -- password to the vault in memory, which is the changed one; the vault was open, its key and
  -- password could be copied, and every write that was made succeeded.
  pub on_save_entry-loads :
      (laws : PlatformLaws e.platform) (alloc' : ℕ → ℕ → Bool) (id title username : Text)
      (password : Bytes) (url : Text) (notes : Bytes) (g g' : Program) (v : Vault)
      (key pass : Bytes)
      → Opened g.device.state v key pass
      → ((i n : ℕ) → alloc' i n ≡ true)
      → ((i n : ℕ) → e.alloc_copy i n ≡ true)
      → IsDraws e.io.draws
      → ((k : ℕ) → e.io.accept k ≡ none)
      → IsStored v
      → on_save_entry e id title username password url notes g ≡ some g'
      → g'.window.error_message ≡ none
      → (v' : Vault) × (save_entry e.fresh e.alloc_edit e.now id title username password url notes v
          ≡ some v')
        × (g'.device.state.vault ≡ some v')
        × (load_vault_from_reader e.platform alloc' (vault_file_of g'.device) (some pass)
            ≡ ok (v', key, v'.mode))
  unfolding on_save_entry
  on_save_entry-loads laws alloc' id title username password url notes g g' v key pass h free copies
        draws all sound ran quiet =
      elim (Option-cases
        (save_entry e.fresh e.alloc_edit e.now id title username password url notes v)) [
          | inl failed ↦ absurd (ground (arith, vault_of_lem v key pass g.device.state h))
          | inr (v', changed) ↦
              let r =
                save_vault_state e.platform e.io (with_vault v' g.device) key v'.mode (some pass) in
              let ended : g' ≡ after_save_entry e id url (some r.0, r.1) g.window =
                some_injective _ _ (
                  sym ran
                  ∙ on_save_entry_lem id title username password url notes g v
                      (vault_of_lem v key pass g.device.state h) changed
                  ∙ ap (λ x. some (after_save_entry e id url x g.window))
                      (persist_lem v v' key pass v'.mode g.device h copies)) in
              let (fine, same) =
                after_save_entry_quiet id url r.0 r.1 g.window
                  (sym (ap (λ x. x.window.error_message) ended) ∙ quiet) in
              let final : g'.device ≡ r.1 = ap (λ x. x.device) ended ∙ same in
              let (seq, kept) =
                save_entry-Advances e.fresh e.alloc_edit e.now id title username password url notes
                  v changed in
              let memory =
                save_vault_state-memory e.platform e.io (with_vault v' g.device) key v'.mode
                  (some pass) in
              (
                v',
                changed,
                ap (λ d. d.state.vault) final ∙ memory.0,
                ap (λ d. load_vault_from_reader e.platform alloc' (vault_file_of d) (some pass))
                      final
                    ∙ save_vault_state-loads e.platform e.io laws alloc' free
                        (with_vault v' g.device) v' key (some pass) refl draws
                        (kept.stored_again sound) (omega (arith, seq)) all fine,
              )
        ]

  on_delete_entry_lem :
      (id : Text) (g : Program) (v : Vault)
      → vault_of g.device.state ≡ some v
      → let v' = delete_entry g.device.state.current_filter e.now id v in
        on_delete_entry e id g
        ≡ after_delete e (persist e v'.mode (with_vault v' g.device)) g.window
  unfolding on_delete_entry
  on_delete_entry_lem id g v hv =
      ap
        (λ o. elim o [
          | none ↦ g
          | some x ↦
              after_delete e
                (persist e (delete_entry g.device.state.current_filter e.now id x).mode
                  (with_vault (delete_entry g.device.state.current_filter e.now id x) g.device))
                g.window
        ])
        hv

  after_delete_rows :
      (v : Vault) (r : Result SaveError (Unit {0})) (d : Device) (w : Window) {filter search : Text}
      → d.state.vault ≡ some v
      → d.state.current_filter ≡ filter
      → d.state.current_search ≡ search
      → let after = (after_delete e (some r, d) w).window in
        (after.entries ≡ generate_vault_entries e.rendering v search filter)
        × (after.error_message ≡ w.error_message)
        × (after.io_status ≡ w.io_status)
  after_delete_rows v r d w hv hf hs = rw (hv, hf, hs) (refl, refl, refl)

  -- A deletion that is asked for in an open vault is shown as done, and no message says otherwise,
  -- whatever becomes of the save.
  pub on_delete_entry_silent :
      (id : Text) (g : Program) (v : Vault) (key pass : Bytes)
      → Opened g.device.state v key pass
      → ((i n : ℕ) → e.alloc_copy i n ≡ true)
      → ((on_delete_entry e id g).window.entries
          ≡ generate_vault_entries e.rendering
              (delete_entry g.device.state.current_filter e.now id v)
              g.device.state.current_search
              g.device.state.current_filter)
        × ((on_delete_entry e id g).window.error_message ≡ g.window.error_message)
        × ((on_delete_entry e id g).window.io_status ≡ g.window.io_status)
  on_delete_entry_silent id g v key pass h copies =
      let v' = delete_entry g.device.state.current_filter e.now id v in
      let r = save_vault_state e.platform e.io (with_vault v' g.device) key v'.mode (some pass) in
      let memory =
        save_vault_state-memory e.platform e.io (with_vault v' g.device) key v'.mode (some pass) in
      let ended : on_delete_entry e id g ≡ after_delete e (some r.0, r.1) g.window =
        on_delete_entry_lem id g v (vault_of_lem v key pass g.device.state h)
        ∙ ap (λ x. after_delete e x g.window)
            (persist_lem v v' key pass v'.mode g.device h copies) in
      rw ended (after_delete_rows v' r.0 r.1 g.window memory.0 memory.4 memory.5)
