-- ===== src/Ui/Generator.antt =====
-- The password generator of src/ui/bridge/entries.rs: `on_generate_password`,
-- `on_generate_password_from_settings`, `on_get_generator_settings`, and the thread that saves the
-- settings. An `i32` is its 32-bit pattern; `none` is a panic.
pub mod Passwords
pub mod Saver
use passx.Base.{
  Bool, Bytes, List, Option, Text, [], false, if◌then◌else◌, length, ltb, none, some, suc, true,
  zero, ℕ, ◌++◌, ◌+◌, ◌-◌, ◌==◌, ◌^◌, ◌∷◌,
}
use passx.Memory.Guard.View.{secure_copy}
use passx.Vault.Format.{Platform, Vault, VaultMode, GeneratorSettings, default_settings}
use passx.Ui.State.{AppState, SaveIo, rewrite_file, save_vault}
use passx.Ui.Entries.{save_generator_settings}
use passx.Ui.Entries.Handlers.{copy_of}
use passx.Ui.Vault.{return_if_open}

-- The characters from `first` on.
abbrev char_range : ℕ → ℕ → Text
char_range first zero = []
char_range first (suc n) = first ∷ char_range (suc first) n

abbrev pub uppercase_chars : Text
uppercase_chars = char_range b'A' 26

abbrev pub lowercase_chars : Text
lowercase_chars = char_range b'a' 26

abbrev pub number_chars : Text
number_chars = char_range b'0' 10

-- "!@#$%^&*()_+-=[]{}|;:,.<>?"
abbrev pub symbol_chars : Text
symbol_chars =
    b'!' ∷ b'@' ∷ b'#' ∷ b'$' ∷ b'%' ∷ b'^' ∷ b'&' ∷ b'*' ∷ b'(' ∷ b')' ∷ b'_' ∷ b'+' ∷ b'-' ∷ b'='
    ∷ b'[' ∷ b']' ∷ b'{' ∷ b'}' ∷ b'|' ∷ b';' ∷ b':' ∷ b',' ∷ b'.' ∷ b'<' ∷ b'>' ∷ b'?' ∷ []

abbrev pub when : Bool → Text → Text
when b cs = if b then cs else []

abbrev or_default : Text → Text
or_default [] = lowercase_chars ++ number_chars
or_default (c ∷ cs) = c ∷ cs

unfoldable pub charset : Bool → Bool → Bool → Bool → Text
charset u l n s = or_default (
    when u uppercase_chars
    ++ (when l lowercase_chars ++ (when n number_chars ++ when s symbol_chars)))

-- `len as usize`: a negative number becomes a huge one.
unfoldable pub as_usize : ℕ → ℕ
as_usize len = if ltb len (2 ^ 31) then len else 2 ^ 64 - 2 ^ 32 + len

-- `chars().nth(idx)`
abbrev pub nth : ℕ → Text → Option ℕ
nth n [] = none
nth zero (c ∷ cs) = some c
nth (suc n) (c ∷ cs) = nth n cs

-- `gen_range` answers the call of each number for a range `0..n`.
unfoldable pub pick : (ℕ → ℕ → ℕ) → Text → ℕ → ℕ → Option Text
pick gen_range cs k zero = some []
pick gen_range cs k (suc n) = elim (nth (gen_range k (length cs)) cs) [
  | none ↦ none
  | some c ↦ elim (pick gen_range cs (suc k) n) [
    | none ↦ none
    | some password ↦ some (c ∷ password)
  ]
]

-- `collect` reserves the length first, which panics beyond `isize::MAX`.
unfoldable pub on_generate_password : (ℕ → ℕ → ℕ) → ℕ → Bool → Bool → Bool → Bool → Option Text
unfolding charset pick as_usize
on_generate_password gen_range len u l n s = elim (ltb (as_usize len) (2 ^ 63)) [
  | true ↦ pick gen_range (charset u l n s) 0 (as_usize len)
  | false ↦ none
]

unfoldable pub on_generate_password_from_settings : (ℕ → ℕ → ℕ) → AppState → Option Text
unfolding on_generate_password
on_generate_password_from_settings gen_range state = elim state.vault [
  | some vault ↦
      let g = vault.generator_settings in
      on_generate_password gen_range g.length g.include_uppercase g.include_lowercase
        g.include_numbers g.include_symbols
  | none ↦ on_generate_password gen_range 16 true true true true
]

unfoldable pub on_get_generator_settings : AppState → GeneratorSettings
on_get_generator_settings state = elim state.vault [
  | some vault ↦
      if vault.generator_settings.length == 0 then default_settings else vault.generator_settings
  | none ↦ default_settings
]

-- The thread that saves the settings waits after the first message, and then takes the last one that
-- is in the channel.
unfoldable pub drain : GeneratorSettings → List GeneratorSettings → GeneratorSettings
drain latest [] = latest
drain latest (newer ∷ queue) = drain newer queue

-- What the thread holds between its locks.
pub record SettingsJob : Type 0 where
  pub file : Option Text
  pub key : Option Bytes
  pub mode : VaultMode
  pub password : Option Bytes
  pub path : Option Text

abbrev pub no_job : VaultMode → SettingsJob
no_job mode = record { file = none; key = none; mode = mode; password = none; path = none }

abbrev pub job_of : (ℕ → ℕ → Bool) → VaultMode → AppState → SettingsJob × AppState
job_of alloc mode s = elim s.vault_path [
  | none ↦ (no_job mode, s)
  | some path ↦ elim s.key [
    | none ↦ (no_job mode, s)
    | some key ↦ (
      record {
        file = s.vault_file;
        key = secure_copy (alloc 0) key;
        mode = mode;
        password = copy_of (alloc 1) s.password;
        path = some path;
      },
      record s { vault_file = none },
    )
  ]
]

-- The first lock: the settings go into the vault, and the handle is taken out.
unfoldable pub take_settings :
    (ℕ → ℕ → Bool) → ℕ → GeneratorSettings → AppState → SettingsJob × AppState
take_settings alloc now latest s = elim s.vault [
  | none ↦ (no_job VaultMode.device_bound, s)
  | some vault ↦
      job_of alloc vault.mode (record s { vault = some (save_generator_settings now latest vault) })
]

module _ (p : Platform) (io : SaveIo) where
  abbrev save_job :
      SettingsJob → Bytes → Vault → (Text → Option Bytes) → Option Text × (Text → Option Bytes)
  save_job job key vault disk = elim job.file [
    | some file ↦ (some file, (rewrite_file p io disk file vault key job.mode job.password).1)
    | none ↦ elim job.path [
      | some path ↦ (none, (save_vault p io disk path vault key job.mode job.password).1)
      | none ↦ (none, disk)
    ]
  ]

  -- The second lock: the vault in memory by now is saved, and what is left is the handle
  -- and the disk. A job without a key is dropped with its handle.
  unfoldable pub save_settings :
      SettingsJob → AppState → (Text → Option Bytes) → Option Text × (Text → Option Bytes)
  unfolding rewrite_file save_vault
  save_settings job s disk = elim job.key [
    | none ↦ (none, disk)
    | some key ↦ elim s.vault [ none ↦ (job.file, disk) | some vault ↦ save_job job key vault disk ]
  ]

  -- One message after the other, when nothing comes between the locks; the third one puts the handle
  -- back.
  unfoldable pub saver_turn :
      (ℕ → ℕ → Bool)
      → ℕ
      → GeneratorSettings
      → List GeneratorSettings
      → AppState × (Text → Option Bytes)
      → AppState × (Text → Option Bytes)
  unfolding drain take_settings save_settings
  saver_turn alloc now first queue (s, disk) =
      let taken = take_settings alloc now (drain first queue) s in
      let done = save_settings taken.0 taken.1 disk in (return_if_open done.0 taken.1, done.1)
