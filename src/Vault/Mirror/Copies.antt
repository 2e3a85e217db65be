-- ===== src/Vault/Mirror/Copies.antt =====
-- What the loops of src/vault/mirror.rs leave on the disk.
use passx.Base.{
  Result, All, Bool, Bytes, List, Result-cases, Text, [], any, ap, arith, bytes_eq, bytes_eq_refl,
  err, false, inl, inr, map, ok, refl, some, subst, suc, sym, true, ℕ, ◌∙◌, ◌∷◌, ◌≡◌,
}
use passx.Ui.State.{write_file}
use passx.Vault.Mirror.{
  MirrorError, MirrorIo, Disk, all_failed, write_mirror, copy_mirror, each_mirror, sync_mirrors,
  sync_mirrors_from_file, create_failed, write_failed, seek_failed, read_failed,
}

abbrev pub is_failed : Text × Result MirrorError (Unit {0}) → Bool
is_failed (m, ok _) = false
is_failed (m, err _) = true

abbrev pub named : Text × Result MirrorError (Unit {0}) → Text
named r = r.0

-- A file with the content.
abbrev pub Has : Bytes → Disk → Text → Type 0
Has content disk path = disk path ≡ some content

write_file-Has :
    (disk : Disk) (m q : Text) (content : Bytes)
    → Has content disk q
    → Has content (write_file disk m content) q
unfolding write_file
write_file-Has disk m q content h = ground arith

write_file_self :
    (disk : Disk) (m : Text) (content : Bytes) → Has content (write_file disk m content) m
unfolding write_file
write_file_self disk m content = rw (bytes_eq_refl m) refl

all_failed_lem :
    (e : MirrorError) (m : Text) (ms : List Text) → any is_failed (all_failed e (m ∷ ms)) ≡ true
unfolding all_failed
all_failed_lem e m ms = refl

named-all_failed : (e : MirrorError) (ms : List Text) → map named (all_failed e ms) ≡ ms
unfolding all_failed
named-all_failed e [] = refl
named-all_failed e (m ∷ ms) = ap (◌∷◌ m) (named-all_failed e ms)

module _ (f : ℕ → Text → Disk → Result MirrorError (Unit {0}) × Disk) where
  named-each_mirror :
      (k : ℕ) (ms : List Text) (disk : Disk) → map named (each_mirror f k ms disk).0 ≡ ms
  named-each_mirror k [] disk = refl
  named-each_mirror k (m ∷ ms) disk = ap (◌∷◌ m) (named-each_mirror (suc k) ms (f k m disk).1)

  module _ (content : Bytes) (Inv : Disk → Type 0)
      (step : (k : ℕ) (m : Text) (disk : Disk)
        → Inv disk
        → (f k m disk).0 ≡ ok tt
        → ((f k m disk).1 ≡ write_file disk m content) × Inv (f k m disk).1) where
    each_mirror-Has :
        (k : ℕ) (ms : List Text) (disk : Disk) (q : Text)
        → Inv disk
        → any is_failed (each_mirror f k ms disk).0 ≡ false
        → Has content disk q
        → Has content (each_mirror f k ms disk).1 q
    each_mirror-Has k [] disk q inv fine h = h
    each_mirror-Has k (m ∷ ms) disk q inv fine h = elim (Result-cases (f k m disk).0) [
      | inr (e, failed) ↦ absurd (ground arith)
      | inl (_, worked) ↦
          let (wrote, inv') = step k m disk inv worked in
          each_mirror-Has (suc k) ms (f k m disk).1 q inv' (ground arith)
            (subst (λ d. Has content d q) (sym wrote) (write_file-Has disk m q content h))
    ]

    each_mirror-All :
        (k : ℕ) (ms : List Text) (disk : Disk)
        → Inv disk
        → any is_failed (each_mirror f k ms disk).0 ≡ false
        → All (Has content (each_mirror f k ms disk).1) ms
    each_mirror-All k [] disk inv fine = tt
    each_mirror-All k (m ∷ ms) disk inv fine = elim (Result-cases (f k m disk).0) [
      | inr (e, failed) ↦ absurd (ground arith)
      | inl (_, worked) ↦
          let (wrote, inv') = step k m disk inv worked in
          let later : any is_failed (each_mirror f (suc k) ms (f k m disk).1).0 ≡ false =
            ground arith in
          (
            each_mirror-Has (suc k) ms (f k m disk).1 m inv' later
                (subst (λ d. Has content d m) (sym wrote) (write_file_self disk m content)),
            each_mirror-All (suc k) ms (f k m disk).1 inv' later,
          )
    ]

  module _ (q : Text)
      (elsewhere : (k : ℕ) (m : Text) (disk : Disk)
        → bytes_eq q m ≡ false
        → (f k m disk).1 q ≡ disk q) where
    each_mirror_other :
        (k : ℕ) (ms : List Text) (disk : Disk)
        → any (bytes_eq q) ms ≡ false
        → (each_mirror f k ms disk).1 q ≡ disk q
    each_mirror_other k [] disk other = refl
    each_mirror_other k (m ∷ ms) disk other =
        let here : bytes_eq q m ≡ false = ground arith in
        each_mirror_other (suc k) ms (f k m disk).1 (ground arith) ∙ elsewhere k m disk here

module _ (io : MirrorIo) where
  write_mirror-eq-ok :
      (e e' : MirrorError) (k : ℕ) (content : Bytes) (m : Text) (disk : Disk)
      → (write_mirror io e e' k content m disk).0 ≡ ok tt
      → (write_mirror io e e' k content m disk).1 ≡ write_file disk m content
  write_mirror-eq-ok e e' k content m disk h = ground arith

  write_mirror_other :
      (e e' : MirrorError) (k : ℕ) (content : Bytes) (m q : Text) (disk : Disk)
      → bytes_eq q m ≡ false
      → (write_mirror io e e' k content m disk).1 q ≡ disk q
  unfolding write_file
  write_mirror_other e e' k content m q disk other = ground arith

  copy_mirror-eq-ok :
      (k : ℕ) (source m : Text) (content : Bytes) (disk : Disk)
      → Has content disk source
      → (copy_mirror io k source m disk).0 ≡ ok tt
      → (copy_mirror io k source m disk).1 ≡ write_file disk m content
  copy_mirror-eq-ok k source m content disk there h = ground arith

  abbrev from_file : Bytes → ℕ → Text → Disk → Result MirrorError (Unit {0}) × Disk
  from_file content k m d = write_mirror io create_failed write_failed k content m d

  -- A sync from the open file answers for each mirror, in their order, and changes no other file,
  -- whatever fails.
  sync_mirrors_from_file_answers :
      (seek_ok read_ok : Bool) (content : Bytes) (mirrors : List Text) (disk : Disk) (q : Text)
      → any (bytes_eq q) mirrors ≡ false
      → let r = sync_mirrors_from_file io seek_ok read_ok content mirrors disk in
        (map named r.0 ≡ mirrors) × (r.1 q ≡ disk q)
  unfolding sync_mirrors_from_file
  sync_mirrors_from_file_answers false read_ok content mirrors disk q other =
      (named-all_failed seek_failed mirrors, refl)
  sync_mirrors_from_file_answers true false content mirrors disk q other =
      (named-all_failed read_failed mirrors, refl)
  sync_mirrors_from_file_answers true true content mirrors disk q other = (
    named-each_mirror (from_file content) 0 mirrors disk,
    each_mirror_other (from_file content) q
        (λ k m d h. write_mirror_other create_failed write_failed k content m q d h) 0 mirrors disk
        other,
  )

  none_failed :
      (e : MirrorError) (ms : List Text) (P : Text → Type 0)
      → any is_failed (all_failed e ms) ≡ false
      → All P ms
  none_failed e [] P fine = tt
  none_failed e (m ∷ ms) P fine = cc (all_failed_lem e m ms)

  -- When a sync from the open file reports no failure, every mirror holds what the file holds.
  pub sync_mirrors_from_file-copies :
      (seek_ok read_ok : Bool) (content : Bytes) (mirrors : List Text) (disk : Disk)
      → any is_failed (sync_mirrors_from_file io seek_ok read_ok content mirrors disk).0 ≡ false
      → All (Has content (sync_mirrors_from_file io seek_ok read_ok content mirrors disk).1) mirrors
  unfolding sync_mirrors_from_file
  sync_mirrors_from_file-copies false read_ok content mirrors disk fine =
      none_failed seek_failed mirrors (Has content disk) fine
  sync_mirrors_from_file-copies true false content mirrors disk fine =
      none_failed read_failed mirrors (Has content disk) fine
  sync_mirrors_from_file-copies true true content mirrors disk fine =
      each_mirror-All (from_file content) content (λ d. Unit {0})
        (λ k m d inv h. (write_mirror-eq-ok create_failed write_failed k content m d h, tt)) 0
        mirrors disk tt fine

  -- The same of a sync from the path of the file, which is read again for each mirror.
  sync_mirrors-copies :
      (source : Text) (content : Bytes) (mirrors : List Text) (disk : Disk)
      → Has content disk source
      → any is_failed (sync_mirrors io source mirrors disk).0 ≡ false
      → All (Has content (sync_mirrors io source mirrors disk).1) mirrors
  unfolding sync_mirrors
  sync_mirrors-copies source content mirrors disk there fine =
      let opened : sync_mirrors io source mirrors disk
          ≡ each_mirror (λ k m d. copy_mirror io k source m d) 0 mirrors disk =
        rw (sync_mirrors, there) refl in
      subst (λ r. All (Has content r.1) mirrors) (sym opened)
        (each_mirror-All (λ k m d. copy_mirror io k source m d) content (λ d. Has content d source)
          (λ k m d inv h.
            let wrote = copy_mirror-eq-ok k source m content d inv h in
            (
              wrote,
              subst (λ x. Has content x source) (sym wrote) (write_file-Has d m source content inv),
            ))
          0 mirrors disk there (subst (λ r. any is_failed r.0 ≡ false) opened fine))
