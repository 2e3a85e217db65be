-- ===== src/Ui/Runs/Synced.antt =====
-- Sequences of successful edits: memory and file against the changes of the vault alone.
use passx.Base.{Bool, Bytes, ap, arith, is_some, ok, refl, some, sym, true, ℕ, ◌<◌, ◌^◌, ◌∙◌, ◌≡◌}
use passx.Vault.Format.{Platform, Vault}
use passx.Vault.Format.Load.{load_vault_from_reader}
use passx.Vault.Format.Wrap.{IsStored, PlatformLaws}
use passx.Ui.State.{save_vault_state}
use passx.Ui.State.Saved.{vault_file_of, save_vault_state-loads, save_vault_state-memory}
use passx.Ui.Entries.Changes.{Change-Advances, Changes, unchanged, changed}
use passx.Ui.Entries.Handlers.{Program, with_vault}
use passx.Ui.Entries.Handlers.Files.{Opened, persist_lem, vault_of_lem}
use passx.Ui.Runs.Edits.{
  on_platform, Edit, Edits, no_edit, then_edit, Edit-Replaced, some_injective,
}

module _ (p : Platform) where
  module _ (laws : PlatformLaws p) (alloc : ℕ → ℕ → Bool) (free : (i n : ℕ) → alloc i n ≡ true)
      (key pass : Bytes) where
    -- The vault is open in memory, and the file loads to it under its key.
    pub record Synced (g : Program) (v : Vault) : Type 0 where
      pub opened : Opened g.device.state v key pass
      pub fits : v.sequence_number < 2 ^ 64
      pub stored : IsStored v
      pub loads :
          load_vault_from_reader p alloc (vault_file_of g.device) (some pass) ≡ ok (v, key, v.mode)

    pub Edit-Synced :
        {g g' : Program} {v v' : Vault}
        → Edit p g v g' v'
        → Opened g.device.state v key pass
        → v.sequence_number < 2 ^ 64
        → IsStored v
        → Synced g' v'
    Edit-Synced {g} {g'} {v} {v'} edit opened fits stored =
        let (e, change, good, ended) =
          Edit-Replaced p edit (vault_of_lem v key pass g.device.state opened) in
        let e' = on_platform p e in
        let r = save_vault_state p e.io (with_vault v' g.device) key v'.mode (some pass) in
        let made = persist_lem e' v v' key pass v'.mode g.device opened good.copies in
        let fine : r.0 ≡ ok tt = some_injective (ap (λ x. x.0) (sym made) ∙ good.saves) in
        let final : g'.device ≡ r.1 = ended ∙ ap (λ x. x.1) made in
        let (seq, kept) = Change-Advances change in
        let (in_memory, same_key, same_pass, same_path, _, _, _) =
          save_vault_state-memory p e.io (with_vault v' g.device) key v'.mode (some pass) in
        record {
          opened = record {
            has_vault = ap (λ d. d.state.vault) final ∙ in_memory;
            has_key = ap (λ d. d.state.key) final ∙ (same_key ∙ opened.has_key);
            has_password = ap (λ d. d.state.password) final ∙ (same_pass ∙ opened.has_password);
            has_path =
                ap (λ d. is_some d.state.vault_path) final
                ∙ (ap is_some same_path ∙ opened.has_path);
            key_nonempty = opened.key_nonempty;
            password_nonempty = opened.password_nonempty;
          };
          fits = omega (arith, seq);
          stored = kept.stored_again stored;
          loads =
              ap (λ d. load_vault_from_reader p alloc (vault_file_of d) (some pass)) final
              ∙ save_vault_state-loads p e.io laws alloc free (with_vault v' g.device) v' key
                  (some pass) refl good.draws (kept.stored_again stored) (omega (arith, seq))
                  good.writes fine;
        }

    -- The callbacks refine the changes of the vault alone: after any sequence of successful edits of
    -- an open vault that its file loads to, the vault has gone through as many changes, memory holds
    -- the vault that comes out of them, and the file loads to that vault under the same password.
    pub Edits-Changes :
        {g : Program} {v : Vault} {n : ℕ} {g' : Program} {v' : Vault}
        → Edits p g v n g' v'
        → Synced g v
        → Changes n v v' × Synced g' v'
    Edits-Changes no_edit synced = (unchanged, synced)
    Edits-Changes (then_edit edits edit) synced =
        let (changes, between) = Edits-Changes edits synced in
        let (_, change, _, _) = Edit-Replaced p edit (vault_of_lem _ key pass _ between.opened) in
        (changed changes change, Edit-Synced edit between.opened between.fits between.stored)
