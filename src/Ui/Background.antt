-- ===== src/Ui/Background.antt =====
-- `on_perform_search` of src/ui/bridge/search.rs and `fetch_website_icon` of
-- src/ui/bridge/icons.rs: what they change in the state and show in the window. The response of the
-- web service, in base64, is an argument, `none` when there is none.
use passx.Base.{Bytes, Option, Text, arith, false, none, some, update_first, ℕ, ◌≡◌}
use passx.Vault.Format.{Vault}
use passx.Vault.Operations.{is_account}
use passx.Ui.State.{AppState, save_vault}
use passx.Ui.Model.{generate_vault_entries}
use passx.Ui.Entries.{next_sequence}
use passx.Ui.Entries.Handlers.{Env, Program, rows, shown, vault_of, key_copy, pass_copy}

unfoldable pub on_perform_search : Env → Text → Text → Program → Program
on_perform_search e query filter g =
    let s = record (g.device.state) { current_search = query; current_filter = filter } in
    record g {
      device = record (g.device) { state = s };
      window = shown (rows e.rendering s) g.window;
    }

-- The icon of one account.
unfoldable pub set_icon : ℕ → Text → Text → Vault → Vault
set_icon now id b64 v = next_sequence (record v {
  accounts =
      update_first (is_account id) (λ a. record a { icon_data = some b64; updated_at = now })
        v.accounts;
})

module _ (e : Env) where
  -- The save goes by the path, whatever handle is held, and its outcome is ignored; without a copy
  -- of the key there is none.
  abbrev pub icon_disk : Vault → AppState → (Text → Option Bytes) → Text → Option Bytes
  icon_disk v s disk = elim (key_copy e s) [
    | none ↦ disk
    | some key ↦ elim s.vault_path [
      | none ↦ disk
      | some path ↦ (save_vault e.platform e.io disk path v key v.mode (pass_copy e s)).1
    ]
  ]

  abbrev pub icon_fetched : Text → Text → Vault → Program → Program
  icon_fetched id b64 v g =
      let v' = set_icon e.now id b64 v in
      record g {
        device = record {
          state = record (g.device.state) { vault = some v' };
          disk = icon_disk v' g.device.state g.device.disk;
        };
        window = record (g.window) {
          entries =
              generate_vault_entries e.rendering v' g.device.state.current_search
                g.device.state.current_filter;
        };
      }

  unfoldable pub fetch_website_icon : Option Text → Text → Program → Program
  unfolding set_icon save_vault
  fetch_website_icon response id g = elim response [
    | none ↦ g
    | some b64 ↦ elim (vault_of g.device.state) [ none ↦ g | some v ↦ icon_fetched id b64 v g ]
  ]

-- An icon that arrives while the vault's file is held exclusively, so that it cannot be created by
-- its path: the vault in memory has it and the next sequence number, and no file has changed.
icon_not_saved :
    (e : Env) (b64 id : Text) (g : Program) (v : Vault) (file : Bytes)
    → vault_of g.device.state ≡ some v
    → g.device.state.vault_file ≡ some file
    → e.io.create_ok ≡ false
    → let d = (fetch_website_icon e (some b64) id g).device in
      (d.state.vault ≡ some (set_icon e.now id b64 v))
      × (d.state.vault_file ≡ some file)
      × (d.disk ≡ g.device.disk)
unfolding fetch_website_icon
icon_not_saved e b64 id g v file opened held refused = ground arith
