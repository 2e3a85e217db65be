-- ===== src/Ui/Transfer/Confined.antt =====
-- Where the exports of src/ui/bridge/entries.rs write.
use passx.Base.{
  Bool-cases, List, Option-cases, Text, ap, arith, bytes_eq, bytes_eq→eq, false, inl, inr, is_some,
  none, some, sym, true, ◌∙◌, ◌≡◌, ◌⊎◌,
}
use passx.Ui.State.{write_file}
use passx.Ui.Entries.Handlers.{Program}
use passx.Ui.Transfer.{
  exported_accounts, Codec, ExportIo, Disk, export_csv, export_json, export_accounts_csv,
  export_accounts_json,
}
use passx.Ui.Transfer.Dialogs.{Surroundings, on_export_passwords}

export_csv_other :
    {R : Type 0} (c : Codec R) (io : ExportIo) (xs : List R) (path q : Text) (disk : Disk)
    → bytes_eq q path ≡ false
    → (export_csv c io xs path disk).1 q ≡ disk q
unfolding export_csv write_file
export_csv_other c io xs path q disk other = ground arith

export_json_other :
    {R : Type 0} (c : Codec R) (io : ExportIo) (xs : List R) (path q : Text) (disk : Disk)
    → bytes_eq q path ≡ false
    → (export_json c io xs path disk).1 q ≡ disk q
unfolding export_json write_file
export_json_other c io xs path q disk other = ground arith

module _ (x : Surroundings) where
  on_export_passwords-state :
      (g : Program) → (on_export_passwords x g).0.device.state ≡ g.device.state
  unfolding on_export_passwords
  on_export_passwords-state g = ground arith

  written_elsewhere :
      (g : Program) (q path : Text)
      → x.picked ≡ some path
      → bytes_eq q path ≡ false
      → (on_export_passwords x g).0.device.disk q ≡ g.device.disk q
  unfolding on_export_passwords export_accounts_csv export_accounts_json
  written_elsewhere g q path chosen other = elim (Option-cases g.device.state.vault) [
    | inl closed ↦ ground arith
    | inr (v, opened) ↦ ground (
      arith,
      export_csv_other x.accounts x.export_io (exported_accounts x.from_utf8_lossy v.accounts) path
          q g.device.disk other,
      export_json_other x.accounts x.export_io (exported_accounts x.from_utf8_lossy v.accounts) path
          q g.device.disk other,
    )
  ]

  not_written :
      (g : Program) (q : Text)
      → (x.authenticate_user ≡ false) ⊎ ((x.picked ≡ none) ⊎ (is_some g.device.state.vault ≡ false))
      → (on_export_passwords x g).0.device.disk q ≡ g.device.disk q
  unfolding on_export_passwords
  not_written g q cause = elim cause [
    | inl denied ↦ ground arith
    | inr (inl cancelled) ↦ ground arith
    | inr (inr closed) ↦ ground arith
  ]

  -- An export of passwords changes no file but the picked one, and that one only once the user is
  -- authenticated and while a vault is open; the state stays as it is, whatever fails.
  pub on_export_passwords_confined :
      (g : Program) (q : Text)
      → ((on_export_passwords x g).0.device.state ≡ g.device.state)
        × (((on_export_passwords x g).0.device.disk q ≡ g.device.disk q)
            ⊎ ((x.authenticate_user ≡ true)
                × (x.picked ≡ some q)
                × (is_some g.device.state.vault ≡ true)))
  on_export_passwords_confined g q = (
    on_export_passwords-state g,
    elim (Bool-cases x.authenticate_user) [
      | inr denied ↦ inl (not_written g q (inl denied))
      | inl allowed ↦ elim (Bool-cases (is_some g.device.state.vault)) [
        | inr closed ↦ inl (not_written g q (inr (inr closed)))
        | inl opened ↦ elim (Option-cases x.picked) [
          | inl cancelled ↦ inl (not_written g q (inr (inl cancelled)))
          | inr (path, chosen) ↦ elim (Bool-cases (bytes_eq q path)) [
            | inl same ↦ inr (allowed, chosen ∙ ap some (sym (bytes_eq→eq q path same)), opened)
            | inr other ↦ inl (written_elsewhere g q path chosen other)
          ]
        ]
      ]
    ],
  )
