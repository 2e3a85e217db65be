-- ===== src/Vault/Mirror.antt =====
-- src/vault/mirror.rs: the copies of the vault file. The outcomes of the calls for each mirror are an
-- argument; a file whose write fails holds what was written of it.
pub mod Copies
use passx.Base.{
  Result, Bool, Bytes, List, Option, Text, [], err, if◌then◌else◌, none, not, ok, some, suc, ℕ, ◌∷◌,
}
use passx.Ui.State.{write_file}

pub data MirrorError : Type 0 where
  source_not_found seek_failed read_failed parent_failed create_failed : MirrorError
  write_failed copy_failed : MirrorError

-- The calls for the mirror of each number: its parent exists or is created, the file is created, and
-- is written to its end or up to `partial`.
pub record MirrorIo : Type 0 where
  pub parent_ok : ℕ → Bool
  pub create_ok : ℕ → Bool
  pub write_ok : ℕ → Bool
  pub partial : ℕ → Bytes

abbrev pub Disk : Type 0
Disk = Text → Option Bytes

abbrev pub MirrorResults : Type 0
MirrorResults = List (Text × Result MirrorError (Unit {0}))

-- The same failure for every mirror.
unfoldable pub all_failed : MirrorError → List Text → MirrorResults
all_failed e [] = []
all_failed e (m ∷ ms) = (m, err e) ∷ all_failed e ms

-- The loop over the mirrors, from the one of a number on.
abbrev pub each_mirror :
    (ℕ → Text → Disk → Result MirrorError (Unit {0}) × Disk)
    → ℕ
    → List Text
    → Disk
    → MirrorResults × Disk
each_mirror f k [] disk = ([], disk)
each_mirror f k (m ∷ ms) disk =
    let now = f k m disk in
    let rest = each_mirror f (suc k) ms now.1 in ((m, now.0) ∷ rest.0, rest.1)

module _ (io : MirrorIo) where
  -- One mirror, with the errors for a file that is not created and one that is not written.
  abbrev pub write_mirror :
      MirrorError → MirrorError → ℕ → Bytes → Text → Disk → Result MirrorError (Unit {0}) × Disk
  write_mirror not_created not_written k content m disk =
      if not (io.parent_ok k)
      then (err parent_failed, disk)
      else if not (io.create_ok k)
      then (err not_created, disk)
      else if not (io.write_ok k)
      then (err not_written, write_file disk m (io.partial k))
      else (ok tt, write_file disk m content)

  -- `fs::copy`, which opens the source again for each mirror.
  abbrev pub copy_mirror : ℕ → Text → Text → Disk → Result MirrorError (Unit {0}) × Disk
  copy_mirror k source m disk = elim (disk source) [
    | none ↦ (err (if io.parent_ok k then copy_failed else parent_failed), disk)
    | some content ↦ write_mirror copy_failed copy_failed k content m disk
  ]

  unfoldable pub sync_mirrors : Text → List Text → Disk → MirrorResults × Disk
  unfolding all_failed write_file
  sync_mirrors source mirrors disk = elim (disk source) [
    | none ↦ (all_failed source_not_found mirrors, disk)
    | some content ↦ each_mirror (λ k m d. copy_mirror k source m d) 0 mirrors disk
  ]

  unfoldable pub sync_mirrors_from_file :
      Bool → Bool → Bytes → List Text → Disk → MirrorResults × Disk
  unfolding all_failed write_file
  sync_mirrors_from_file seek_ok read_ok content mirrors disk =
      if not seek_ok
      then (all_failed seek_failed mirrors, disk)
      else if not read_ok
      then (all_failed read_failed mirrors, disk)
      else each_mirror (λ k m d. write_mirror create_failed write_failed k content m d) 0 mirrors
          disk
