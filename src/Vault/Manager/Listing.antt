-- ===== src/Vault/Manager/Listing.antt =====
-- Where src/vault/manager.rs keeps the managed vaults, and which of them it lists. The functions of
-- `Path`, the known folder and the entries of the directory are arguments.
use passx.Base.{
  Bool, Bool-cases, List, Option, Option-cases, Text, [], any, arith, bytes_eq, bytes_eq_refl,
  bytes_eq→eq, false, if◌then◌else◌, inl, inr, none, not, refl, some, subst, sym, true, ◌||◌, ◌∷◌,
  ◌≡◌,
}
use passx.Vault.Manager.{Places, get_vault_path}

-- "passx", "passx_vaults", "C:\passx_vaults", "vault"
abbrev passx_dir : Text
passx_dir = b'p' ∷ b'a' ∷ b's' ∷ b's' ∷ b'x' ∷ []

abbrev passx_vaults_dir : Text
passx_vaults_dir =
    b'p' ∷ b'a' ∷ b's' ∷ b's' ∷ b'x' ∷ b'_' ∷ b'v' ∷ b'a' ∷ b'u' ∷ b'l' ∷ b't' ∷ b's' ∷ []

abbrev fallback_dir : Text
fallback_dir = b'C' ∷ b':' ∷ 92 ∷ passx_vaults_dir

abbrev pub vault_extension : Text
vault_extension = b'v' ∷ b'a' ∷ b'u' ∷ b'l' ∷ b't' ∷ []

-- `PathBuf::push` is a parameter.
unfoldable pub get_managed_vaults_dir : (Text → Text → Text) → Option Text → Option Text → Text
get_managed_vaults_dir push (some known_folder) current_dir = push known_folder passx_dir
get_managed_vaults_dir push none (some cwd) = push cwd passx_vaults_dir
get_managed_vaults_dir push none none = fallback_dir

-- Whether it succeeds: an existing directory is left alone.
unfoldable pub init_managed_directory : Bool → Bool → Bool
init_managed_directory exists create_ok = exists || create_ok

pub record Paths : Type 0 where
  pub is_file : Text → Bool
  pub extension : Text → Option Text
  -- `Path::file_stem`, with `to_string_lossy` after it.
  pub file_stem : Text → Option Text
  -- `Path::starts_with`
  pub starts_with : Text → Text → Bool

unfoldable pub is_managed_path : Paths → Text → Text → Bool
is_managed_path ps managed_dir path = ps.starts_with path managed_dir

module _ (ps : Paths) where
  -- The name that an entry adds to the list.
  unfoldable pub vault_name : Text → Option Text
  vault_name path = if not (ps.is_file path) then none else elim (ps.extension path) [
    | none ↦ none
    | some ext ↦ if bytes_eq ext vault_extension then ps.file_stem path else none
  ]

  abbrev with_name : Option Text → List Text → List Text
  with_name none names = names
  with_name (some name) names = name ∷ names

  abbrev names_of : List (Option Text) → List Text
  names_of [] = []
  names_of (none ∷ entries) = names_of entries
  names_of (some path ∷ entries) = with_name (vault_name path) (names_of entries)

  -- `none` is a directory that cannot be read, and an entry that cannot is skipped.
  unfoldable pub list_managed_vaults : Option (List (Option Text)) → List Text
  list_managed_vaults none = []
  list_managed_vaults (some entries) = names_of entries

  abbrev has : Text → List (Option Text) → Bool
  has path [] = false
  has path (none ∷ entries) = has path entries
  has path (some q ∷ entries) = bytes_eq q path || has path entries

  or_true : (b : Bool) → (b || true) ≡ true
  or_true b = ground arith

  names_of-has :
      (path name : Text) (entries : List (Option Text))
      → has path entries ≡ true
      → vault_name path ≡ some name
      → any (bytes_eq name) (names_of entries) ≡ true
  names_of-has path name [] listed named = cc
  names_of-has path name (none ∷ entries) listed named = names_of-has path name entries listed named
  names_of-has path name (some q ∷ entries) listed named = elim (Bool-cases (bytes_eq q path)) [
    | inl same ↦
        let q_named : vault_name q ≡ some name =
          subst (λ x. vault_name x ≡ some name) (sym (bytes_eq→eq q path same)) named in
        rw (q_named, bytes_eq_refl name) refl
    | inr other ↦
        let rest = names_of-has path name entries (ground arith) named in
        elim (Option-cases (vault_name q)) [
          | inl skipped ↦ rw skipped rest
          | inr (found, q_named) ↦ rw (q_named, rest) (or_true (bytes_eq name found))
        ]
  ]

  -- A managed vault whose file is among the entries is in the list under the name that it was given,
  -- when the functions of `Path` take the extension off again.
  list_managed_vaults_named :
      (pl : Places) (name : Text) (entries : List (Option Text))
      → has (get_vault_path pl name) entries ≡ true
      → ps.is_file (get_vault_path pl name) ≡ true
      → ps.extension (get_vault_path pl name) ≡ some vault_extension
      → ps.file_stem (get_vault_path pl name) ≡ some name
      → any (bytes_eq name) (list_managed_vaults (some entries)) ≡ true
  unfolding list_managed_vaults vault_name
  list_managed_vaults_named pl name entries listed file ext stem =
      names_of-has (get_vault_path pl name) name entries listed
        (rw (file, ext, bytes_eq_refl vault_extension) stem)
