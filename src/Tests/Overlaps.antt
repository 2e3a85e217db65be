-- ===== src/Tests/Overlaps.antt =====
-- A sync of the mirrors around which another vault is unlocked.
use passx.Base.{[], arith, bytes_eq, false, none, refl, some, ◌∷◌, ◌≡◌}
use passx.Vault.Format.{portable}
use passx.Ui.State.{AppState, save_vault_state, saved}
use passx.Ui.Unlock.Opens.{on_attempt_unlock-saved}
use passx.Ui.Vault.{lock_vault, return_if_open}
use passx.Ui.Vault.Sync.{SyncTaken, take_mirrors}
use passx.Ui.Vault.Late.{unlocked_at, sync_returns_to_other_vault}
use passx.Tests.Toy.{toy_platform, toy_PlatformLaws}
use passx.Tests.Access.{
  key, file, some_vault, some_draws-IsDraws, some_vault-IsStored, free, all_free, all_accepted, io,
  held, plain, locked, saved_disk, saved_whole,
}

abbrev taken_mirrors : SyncTaken × AppState
taken_mirrors = (
  record { file = some file; mirrors = []; path = some (b'v' ∷ []) },
  record held { vault_file = none },
)

mirrors_taken : take_mirrors held ≡ some taken_mirrors
unfolding take_mirrors
mirrors_taken = refl

other_opened :
    (unlocked_at toy_platform plain free
      (free 0)
      (b'o' ∷ [])
      (b'n' ∷ [])
      saved_disk
      locked
      taken_mirrors.1).vault
    ≡ some some_vault
unfolding lock_vault
other_opened =
    (on_attempt_unlock-saved toy_platform plain free (free 0) toy_PlatformLaws io b'n' [] some_vault
      key (b'o' ∷ []) saved_disk
      (record locked {
        state = record (lock_vault taken_mirrors.1) { vault_path = some (b'o' ∷ []) };
      })
      all_free (all_free 0) refl some_draws-IsDraws some_vault-IsStored (omega arith) all_accepted
      saved_whole refl).0

other_file : bytes_eq (b'o' ∷ []) file ≡ false
unfolding bytes_eq
other_file = refl

sync_returns_to_other_vault_example :
    let b =
      unlocked_at toy_platform plain free
        (free 0)
        (b'o' ∷ [])
        (b'n' ∷ [])
        saved_disk
        locked
        taken_mirrors.1 in
    let late = return_if_open (some file) b in
    let d' =
      (save_vault_state toy_platform io
        (record { state = record late { vault = some some_vault }; disk = saved_disk })
        key
        portable
        (some (b'n' ∷ []))).1 in
    (b.vault_file ≡ some (b'o' ∷ []))
    × (late.vault ≡ some some_vault)
    × (late.vault_path ≡ some (b'o' ∷ []))
    × (d'.disk file
        ≡ some (saved toy_platform io some_vault key portable (some (b'n' ∷ []))).1.written)
    × (d'.disk (b'o' ∷ []) ≡ saved_disk (b'o' ∷ []))
sync_returns_to_other_vault_example =
    sync_returns_to_other_vault toy_platform plain free (free 0) io held taken_mirrors.1
      taken_mirrors.0 file (b'o' ∷ []) (b'n' ∷ []) saved_disk locked some_vault some_vault key
      portable (some (b'n' ∷ [])) mirrors_taken refl other_file other_opened refl refl
