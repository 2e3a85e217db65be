-- ===== src/Startup/Updates.antt =====
-- src/update.rs, and the thread of src/ui/bridge/mod.rs that looks for an update. The crate
-- self_update is the record `Updater`, an error of it is `none`.
use passx.Base.{
  Bool, Bool-cases, Option, Option-cases, Text, arith, false, if◌then◌else◌, inl, inr, none, not,
  refl, some, subst, true, ◌&&◌, ◌≡◌,
}

pub record Updater : Type 1 where
  pub Release : Type 0
  pub version : Release → Text
  pub build_ok : Bool
  pub get_latest_release : Option Release
  -- `bump_is_greater` from the first to the second.
  pub bump_is_greater : Text → Text → Option Bool
  pub update : Bool

module _ (u : Updater) where
  -- `none` is an error.
  unfoldable pub check_for_updates : Text → Option (Option u.Release)
  check_for_updates current_ver = if not u.build_ok then none else elim u.get_latest_release [
    | none ↦ none
    | some release ↦ elim (u.bump_is_greater current_ver (u.version release)) [
      | none ↦ none
      | some greater ↦ if greater then some (some release) else some none
    ]
  ]

  unfoldable pub update_to_latest : Bool
  update_to_latest = u.build_ok && u.update

  abbrev downloaded : Option (Option u.Release) → Option Text
  downloaded none = none
  downloaded (some none) = none
  downloaded (some (some release)) = if update_to_latest then some (u.version release) else none

  -- The version in the dialog that asks for a restart, if it is shown.
  unfoldable pub check_at_start : Bool → Text → Option Text
  unfolding check_for_updates update_to_latest
  check_at_start is_release current_ver =
      if not is_release then none else downloaded (check_for_updates current_ver)

  check_for_updates-some :
      (current_ver : Text) (release : u.Release)
      → check_for_updates current_ver ≡ some (some release)
      → u.bump_is_greater current_ver (u.version release) ≡ some true
  unfolding check_for_updates
  check_for_updates-some current_ver release h = elim (Bool-cases u.build_ok) [
    | inr failed ↦ absurd (ground arith)
    | inl built ↦ elim (Option-cases u.get_latest_release) [
      | inl failed ↦ absurd (ground arith)
      | inr (latest, got) ↦ elim (Option-cases (u.bump_is_greater current_ver (u.version latest))) [
        | inl failed ↦ absurd (ground arith)
        | inr (true, newer) ↦
            let same : latest ≡ release = ground arith in
            subst (λ l. u.bump_is_greater current_ver (u.version l) ≡ some true) same newer
        | inr (false, older) ↦ absurd (ground arith)
      ]
    ]
  ]

  downloaded-some :
      (found : Option (Option u.Release)) (version : Text)
      → downloaded found ≡ some version
      → (release : u.Release) × (found ≡ some (some release))
        × (u.version release ≡ version)
        × (update_to_latest ≡ true)
  downloaded-some none version h = absurd (ground arith)
  downloaded-some (some none) version h = absurd (ground arith)
  downloaded-some (some (some release)) version h = elim (Bool-cases update_to_latest) [
    | inl done ↦ (release, refl, ground arith, done)
    | inr failed ↦ absurd (ground arith)
  ]

  -- The dialog is shown only in a build for release, for a version that is greater than the running
  -- one, and after the update was installed.
  check_at_start_newer :
      (is_release : Bool) (current_ver version : Text)
      → check_at_start is_release current_ver ≡ some version
      → (is_release ≡ true)
        × (u.bump_is_greater current_ver version ≡ some true)
        × (update_to_latest ≡ true)
  unfolding check_at_start
  check_at_start_newer false current_ver version h = absurd (ground arith)
  check_at_start_newer true current_ver version h =
      let (release, found, same, done) =
        downloaded-some (check_for_updates current_ver) version h in
      (
        refl,
        subst (λ v. u.bump_is_greater current_ver v ≡ some true) same
            (check_for_updates-some current_ver release found),
        done,
      )
