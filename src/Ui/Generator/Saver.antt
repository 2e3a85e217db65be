-- ===== src/Ui/Generator/Saver.antt =====
-- The thread of src/ui/bridge/entries.rs that saves the generator settings, when nothing comes
-- between its locks.
use passx.Base.{
  Bool, Bytes, List, Option, Text, [], ap, arith, none, refl, some, ℕ, ◌++◌, ◌∙◌, ◌∷◌, ◌≡◌,
}
use passx.Memory.Guard.View.{secure_copy}
use passx.Vault.Format.{Platform, Vault, GeneratorSettings}
use passx.Ui.State.{AppState, SaveIo}
use passx.Ui.Entries.{save_generator_settings}
use passx.Ui.Vault.{return_if_open}
use passx.Ui.Vault.Loads.{Held}
use passx.Ui.Entries.Handlers.{copy_of}
use passx.Ui.Generator.{drain, SettingsJob, take_settings, save_settings, saver_turn}

drain_last :
    (first latest : GeneratorSettings) (queue : List GeneratorSettings)
    → drain first (queue ++ (latest ∷ [])) ≡ latest
unfolding drain
drain_last first latest [] = refl
drain_last first latest (x ∷ queue) = drain_last x latest queue

module _ (p : Platform) (io : SaveIo) (alloc : ℕ → ℕ → Bool) (now : ℕ) where
  -- What the first lock leaves of an open vault.
  abbrev settings_job : AppState → Vault → Bytes → Bytes → Bytes → SettingsJob
  settings_job s v key file path = record {
    file = some file;
    key = secure_copy (alloc 0) key;
    mode = v.mode;
    password = copy_of (alloc 1) s.password;
    path = some path;
  }

  abbrev with_settings : GeneratorSettings → AppState → Vault → AppState
  with_settings latest s v = record s {
    vault = some (save_generator_settings now latest v);
    vault_file = none;
  }

  take_settings_lem :
      (latest : GeneratorSettings) (s : AppState) (v : Vault) (key file path : Bytes)
      → Held s v key file
      → s.vault_path ≡ some path
      → take_settings alloc now latest s
        ≡ (settings_job s v key file path, with_settings latest s v)
  unfolding take_settings
  take_settings_lem latest s v key file path h hp =
      ground (arith, h.has_vault, h.has_key, h.has_file, hp)

  abbrev after_taken :
      (Text → Option Bytes) → SettingsJob × AppState → AppState × (Text → Option Bytes)
  after_taken disk taken =
      let done = save_settings p io taken.0 taken.1 disk in (return_if_open done.0 taken.1, done.1)

  saver_turn_lem :
      (first latest : GeneratorSettings) (queue : List GeneratorSettings) (s : AppState)
      (disk : Text → Option Bytes) (v : Vault) (key file path : Bytes)
      → Held s v key file
      → s.vault_path ≡ some path
      → saver_turn p io alloc now first (queue ++ (latest ∷ [])) (s, disk)
        ≡ after_taken disk (settings_job s v key file path, with_settings latest s v)
  unfolding saver_turn
  saver_turn_lem first latest queue s disk v key file path h hp =
      ap (λ m. after_taken disk (take_settings alloc now m s)) (drain_last first latest queue)
      ∙ ap (after_taken disk) (take_settings_lem latest s v key file path h hp)

  -- When the key cannot be copied, the settings are in memory, but the file handle that was taken
  -- out is closed: the open vault has none any more, and the disk is what it was.
  saver_turn_drops_handle :
      (first latest : GeneratorSettings) (queue : List GeneratorSettings) (s : AppState)
      (disk : Text → Option Bytes) (v : Vault) (key file path : Bytes)
      → Held s v key file
      → s.vault_path ≡ some path
      → secure_copy (alloc 0) key ≡ none
      → let r = saver_turn p io alloc now first (queue ++ (latest ∷ [])) (s, disk) in
        (r.0.vault ≡ some (save_generator_settings now latest v))
        × (r.0.key ≡ some key)
        × (r.0.vault_file ≡ none)
        × (r.1 ≡ disk)
  unfolding save_settings
  saver_turn_drops_handle first latest queue s disk v key file path h hp failed =
      rw (saver_turn_lem first latest queue s disk v key file path h hp, failed)
        (refl, h.has_key, refl, refl)
