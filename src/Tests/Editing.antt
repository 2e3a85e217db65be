-- ===== src/Tests/Editing.antt =====
-- A sequence of edits of an open vault.
use passx.Base.{[], arith, refl, some, unwrap_or, ◌∷◌, ◌≡◌}
use passx.Vault.Format.{Vault}
use passx.Ui.Entries.{save_entry, restore_entry}
use passx.Ui.Entries.Changes.{Changes}
use passx.Ui.Entries.Handlers.{on_restore_entry}
use passx.Ui.Runs.Edits.{Edit, edit_saves, edit_restores, no_edit, then_edit}
use passx.Ui.Runs.Synced.{Synced, Edit-Synced, Edits-Changes}
use passx.Tests.Toy.{toy_platform, toy_PlatformLaws}
use passx.Tests.Callbacks.{
  program, key, password, some_vault, free, all_free, some_draws-IsDraws, all_accepted,
  some_vault-IsStored, env, start, start-Opened, final, result-final, program,
}

abbrev edited : Vault
edited =
    unwrap_or some_vault
      (save_entry env.fresh free 20 (b'z' ∷ []) (b't' ∷ []) (b'u' ∷ []) [] [] [] some_vault)

was_edited :
    save_entry env.fresh free 20 (b'z' ∷ []) (b't' ∷ []) (b'u' ∷ []) [] [] [] some_vault
    ≡ some edited
unfolding program
was_edited = refl

start-Edit : Edit toy_platform start some_vault final edited
unfolding program
start-Edit =
    edit_saves env (b'z' ∷ []) (b't' ∷ []) (b'u' ∷ []) [] [] [] was_edited
      (record {
        copies = all_free;
        draws = some_draws-IsDraws;
        writes = all_accepted;
        saves = refl;
      })
      result-final

final-Synced : Synced toy_platform toy_PlatformLaws free all_free key password final edited
unfolding program
final-Synced =
    Edit-Synced toy_platform toy_PlatformLaws free all_free key password start-Edit start-Opened
      (omega arith) some_vault-IsStored

final-Edit :
    Edit toy_platform final edited
      (on_restore_entry env (b'q' ∷ []) final)
      (restore_entry 20 (b'q' ∷ []) edited)
unfolding program restore_entry
final-Edit =
    edit_restores env (b'q' ∷ []) (record {
      copies = all_free;
      draws = some_draws-IsDraws;
      writes = all_accepted;
      saves = refl;
    })

Edits-Changes_example :
    Changes 1 edited (restore_entry 20 (b'q' ∷ []) edited)
    × Synced toy_platform toy_PlatformLaws free all_free key password
        (on_restore_entry env (b'q' ∷ []) final)
        (restore_entry 20 (b'q' ∷ []) edited)
Edits-Changes_example =
    Edits-Changes toy_platform toy_PlatformLaws free all_free key password
      (then_edit no_edit final-Edit) final-Synced
