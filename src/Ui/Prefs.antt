-- ===== src/Ui/Prefs.antt =====
-- src/ui/prefs.rs, and what `run` of src/ui/bridge/mod.rs does with the preferences: at its start, for
-- a change of theme, and on closing. The crate serde_json is the record `Json`.
pub mod Restart
use passx.Base.{
  Bool, Bytes, Option, Text, [], false, if◌then◌else◌, is_some, none, not, some, true, unwrap_or, ℕ,
  ◌∷◌, ◌≡◌,
}
use passx.Ui.State.{AppState, new_state, write_file}

-- An `i32` is the number itself, or one less than minus the number.
pub data ℤ : Type 0 where
  pos negsuc : ℕ → ℤ

pub record AppPrefs : Type 0 where
  pub window_x : ℤ
  pub window_y : ℤ
  pub window_width : ℕ
  pub window_height : ℕ
  pub is_maximized : Bool
  pub last_vault_path : Option Text
  pub theme_mode : Text

-- "system"
abbrev pub default_theme_mode : Text
default_theme_mode = b's' ∷ b'y' ∷ b's' ∷ b't' ∷ b'e' ∷ b'm' ∷ []

abbrev pub default_prefs : AppPrefs
default_prefs = record {
  window_x = pos 100;
  window_y = pos 100;
  window_width = 1050;
  window_height = 720;
  is_maximized = false;
  last_vault_path = none;
  theme_mode = default_theme_mode;
}

pub record Json : Type 0 where
  pub to_string_pretty : AppPrefs → Option Text
  pub from_str : Text → Option AppPrefs

pub record JsonLaws (j : Json) : Type 0 where
  pub from_str-to_string_pretty :
      (prefs : AppPrefs) (text : Text)
      → j.to_string_pretty prefs ≡ some text
      → j.from_str text ≡ some prefs

-- `fs::write`: the file is not created, or is left with a part of the content, or with all of it.
pub data Written : Type 0 where
  not_created complete : Written
  partial : Bytes → Written

abbrev pub written : Written → Text → Bytes → (Text → Option Bytes) → Text → Option Bytes
written not_created path content disk = disk
written complete path content disk = write_file disk path content
written (partial bytes) path content disk = write_file disk path bytes

-- The window's place, and what the start puts on the screen.
pub record Frame : Type 0 where
  pub position : ℤ × ℤ
  pub size : ℕ × ℕ
  pub is_maximized : Bool
  pub theme_mode : Text
  pub tpm_available : Bool
  pub vault_path : Text
  pub current_screen : ℕ

module _ (j : Json) where
  -- `read_ok` says whether the file reads as a text.
  unfoldable pub load : Option Text → Bool → (Text → Option Bytes) → AppPrefs
  load none read_ok disk = default_prefs
  load (some path) read_ok disk = elim (disk path) [
    | none ↦ default_prefs
    | some content ↦
        if not read_ok then default_prefs else unwrap_or default_prefs (j.from_str content)
  ]

  -- Nothing is said of a save that fails.
  unfoldable pub save :
      Option Text → Written → AppPrefs → (Text → Option Bytes) → Text → Option Bytes
  unfolding write_file
  save none outcome prefs disk = disk
  save (some path) outcome prefs disk = elim (j.to_string_pretty prefs) [
    | none ↦ disk
    | some content ↦ written outcome path content disk
  ]

  -- `set_maximized(true)` only: a new window is not maximized, shows no path, and is on the screen 0.
  abbrev pub framed : AppPrefs → Bool → Frame
  framed prefs tpm_available = record {
    position = (prefs.window_x, prefs.window_y);
    size = (prefs.window_width, prefs.window_height);
    is_maximized = prefs.is_maximized;
    theme_mode = prefs.theme_mode;
    tpm_available = tpm_available;
    vault_path = [];
    current_screen = 0;
  }

  abbrev pub restored : Option Text → (Text → Option Bytes) → Frame → Frame × AppState
  restored none disk f = (f, new_state)
  restored (some path) disk f =
      if is_some (disk path)
      then (
        record f { vault_path = path; current_screen = 2 },
        record new_state { vault_path = some path },
      )
      else (f, new_state)

  unfoldable pub run : Option Text → Bool → Bool → (Text → Option Bytes) → Frame × AppState
  unfolding load
  run prefs_path read_ok tpm_available disk =
      let prefs = load prefs_path read_ok disk in
      restored prefs.last_vault_path disk (framed prefs tpm_available)

  unfoldable pub on_save_theme :
      Option Text → Bool → Written → Text → (Text → Option Bytes) → Text → Option Bytes
  unfolding load save
  on_save_theme prefs_path read_ok outcome mode disk =
      save prefs_path outcome (record (load prefs_path read_ok disk) { theme_mode = mode }) disk

  -- `on_attempt_unlock` and the callbacks that create a vault store its path when it opens.
  unfoldable pub remember_path :
      Option Text → Bool → Written → Option Text → (Text → Option Bytes) → Text → Option Bytes
  unfolding load save
  remember_path prefs_path read_ok outcome vault_path disk =
      save prefs_path outcome
        (record (load prefs_path read_ok disk) { last_vault_path = vault_path }) disk

  -- The preferences that the closing window stores, over those of the file; every field is replaced.
  unfoldable pub on_close_requested :
      Option Text → Bool → Written → Frame → AppState → (Text → Option Bytes) → Text → Option Bytes
  unfolding load save
  on_close_requested prefs_path read_ok outcome f s disk =
      save prefs_path outcome
        (record (load prefs_path read_ok disk) {
          window_x = f.position.0;
          window_y = f.position.1;
          window_width = f.size.0;
          window_height = f.size.1;
          is_maximized = f.is_maximized;
          last_vault_path = s.vault_path;
          theme_mode = f.theme_mode;
        })
        disk
