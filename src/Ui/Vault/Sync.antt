-- ===== src/Ui/Vault/Sync.antt =====
-- `on_sync_mirrors` of src/ui/bridge/vault.rs: the handle is taken out under the lock, the mirrors are
-- written outside it, and the handle is put back in a second step.
use passx.Base.{
  All, Bool, Bool-cases, Bytes, List, Option, Text, [], any, ap, arith, false, if◌then◌else◌, inl,
  inr, none, refl, some, subst, suc, sym, ℕ, ◌∙◌, ◌∷◌, ◌≡◌,
}
use passx.Vault.Format.{Vault}
use passx.Vault.Mirror.{MirrorIo, MirrorResults, Disk, sync_mirrors, sync_mirrors_from_file}
use passx.Vault.Mirror.Copies.{is_failed, Has, sync_mirrors_from_file-copies}
use passx.Ui.State.{AppState}
use passx.Ui.Vault.{return_if_open}

pub record SyncTaken : Type 0 where
  pub file : Option Text
  pub mirrors : List Text
  pub path : Option Text

unfoldable pub take_mirrors : AppState → Option (SyncTaken × AppState)
take_mirrors s = elim s.vault [
  | none ↦ none
  | some vault ↦ some (
    record { file = s.vault_file; mirrors = vault.mirrors; path = s.vault_path },
    record s { vault_file = none },
  )
]

-- The read through the handle: a file that is gone from under it cannot be read.
abbrev read_held : MirrorIo → Bool → Bool → Option Bytes → List Text → Disk → MirrorResults × Disk
read_held io seek_ok read_ok (some content) mirrors disk =
    sync_mirrors_from_file io seek_ok read_ok content mirrors disk
read_held io seek_ok read_ok none mirrors disk =
    sync_mirrors_from_file io seek_ok false [] mirrors disk

unfoldable pub sync_taken : MirrorIo → Bool → Bool → SyncTaken → Disk → MirrorResults × Disk
unfolding sync_mirrors sync_mirrors_from_file
sync_taken io seek_ok read_ok t disk = elim t.file [
  | some file ↦ read_held io seek_ok read_ok (disk file) t.mirrors disk
  | none ↦ elim t.path [ some path ↦ sync_mirrors io path t.mirrors disk | none ↦ ([], disk) ]
]

-- The counts of the message.
pub record Synced : Type 0 where
  pub success_count : ℕ
  pub fail_count : ℕ

unfoldable pub summary : MirrorResults → Synced
summary [] = record { success_count = 0; fail_count = 0 }
summary (r ∷ rs) =
    let rest = summary rs in
    if is_failed r
    then record rest { fail_count = suc rest.fail_count }
    else record rest { success_count = suc rest.success_count }

-- The callback when nothing comes in between: the state, the disk, and the message.
unfoldable pub on_sync_mirrors :
    MirrorIo → Bool → Bool → AppState × Disk → (AppState × Disk) × Option Synced
unfolding take_mirrors sync_taken summary
on_sync_mirrors io seek_ok read_ok (s, disk) = elim (take_mirrors s) [
  | none ↦ ((s, disk), none)
  | some (t, s') ↦
      let r = sync_taken io seek_ok read_ok t disk in
      ((return_if_open t.file s', r.1), some (summary r.0))
]

summary_none : (rs : MirrorResults) → (summary rs).fail_count ≡ 0 → any is_failed rs ≡ false
unfolding summary
summary_none [] h = refl
summary_none (r ∷ rs) h = elim (Bool-cases (is_failed r)) [
  | inl hit ↦ absurd (ground arith)
  | inr fine ↦ rw fine (summary_none rs (rw (summary, fine) at h))
]

on_sync_mirrors_held :
    (io : MirrorIo) (seek_ok read_ok : Bool) (s : AppState) (disk : Disk) (v : Vault) (file : Text)
    (content : Bytes)
    → s.vault ≡ some v
    → s.vault_file ≡ some file
    → disk file ≡ some content
    → let r = sync_mirrors_from_file io seek_ok read_ok content v.mirrors disk in
      on_sync_mirrors io seek_ok read_ok (s, disk) ≡ ((s, r.1), some (summary r.0))
unfolding on_sync_mirrors
on_sync_mirrors_held io seek_ok read_ok s disk v file content hv hf hd = ground arith

-- A sync of an open vault whose file is held, with nothing in between, whose message counts no
-- failure: every mirror of the vault holds what its file holds, and the state is as it was, its
-- handle included.
pub on_sync_mirrors-copies :
    (io : MirrorIo) (seek_ok read_ok : Bool) (s : AppState) (disk : Disk) (v : Vault) (file : Text)
    (content : Bytes) {m : Synced}
    → s.vault ≡ some v
    → s.vault_file ≡ some file
    → disk file ≡ some content
    → (on_sync_mirrors io seek_ok read_ok (s, disk)).1 ≡ some m
    → m.fail_count ≡ 0
    → let r = (on_sync_mirrors io seek_ok read_ok (s, disk)).0 in
      (r.0 ≡ s) × All (Has content r.1) v.mirrors
on_sync_mirrors-copies io seek_ok read_ok s disk v file content {m} hv hf hd told none_missed =
    let same = on_sync_mirrors_held io seek_ok read_ok s disk v file content hv hf hd in
    let r = sync_mirrors_from_file io seek_ok read_ok content v.mirrors disk in
    let counted : summary r.0 ≡ m =
      (let g : some (summary r.0) ≡ some m = ap (λ x. x.1) (sym same) ∙ told in cc) in
    let fine = summary_none r.0 (ap (λ x. x.fail_count) counted ∙ none_missed) in
    (
      ap (λ x. x.0.0) same,
      subst (λ x. All (Has content x.0.1) v.mirrors) (sym same)
          (sync_mirrors_from_file-copies io seek_ok read_ok content v.mirrors disk fine),
    )
