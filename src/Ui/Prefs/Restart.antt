-- ===== src/Ui/Prefs/Restart.antt =====
-- What a start of the program finds after it was closed (src/ui/bridge/mod.rs, src/ui/prefs.rs).
use passx.Base.{
  Bool, Bool-cases, Bytes, Option, Option-cases, Text, ap, arith, bytes_eq_refl, if◌then◌else◌, inl,
  inr, is_some, none, refl, some, subst, sym, true, ◌≡◌,
}
use passx.Ui.State.{AppState, new_state, write_file}
use passx.Ui.Prefs.{
  AppPrefs, Json, JsonLaws, complete, load, save, Frame, run, on_close_requested, restored, framed,
}

-- The path that a start takes up again.
abbrev pub found : Option Text → (Text → Option Bytes) → Option Text
found none disk = none
found (some path) disk = if is_some (disk path) then some path else none

restored_lem :
    (last : Option Text) (disk : Text → Option Bytes) (f : Frame) (j : Json)
    → let r = restored j last disk f in
      (r.0.position ≡ f.position)
      × (r.0.size ≡ f.size)
      × (r.0.is_maximized ≡ f.is_maximized)
      × (r.0.theme_mode ≡ f.theme_mode)
      × (r.1 ≡ record new_state { vault_path = found last disk })
restored_lem none disk f j = (refl, refl, refl, refl, refl)
restored_lem (some path) disk f j = elim (Bool-cases (is_some (disk path))) [
  | inl there ↦ rw there (refl, refl, refl, refl, refl)
  | inr gone ↦ rw gone (refl, refl, refl, refl, refl)
]

module _ (j : Json) (laws : JsonLaws j) where
  load-save :
      (path : Text) (prefs : AppPrefs) (text : Text) (disk : Text → Option Bytes)
      → j.to_string_pretty prefs ≡ some text
      → load j (some path) true (save j (some path) complete prefs disk) ≡ prefs
  unfolding load save write_file
  load-save path prefs text disk printed =
      let stored : save j (some path) complete prefs disk path ≡ some text =
        rw (printed, save, bytes_eq_refl path) refl in
      rw (stored, load, laws.from_str-to_string_pretty prefs text printed) refl

  -- A start after a close whose preferences were written, and can be read again, shows the window
  -- where it was and as large, maximized as it was and with its theme, and has a locked state with
  -- the path of the last vault, if there still is a file.
  pub run-on_close_requested :
      (prefs_path : Text) (read_ok tpm : Bool) (f : Frame) (s : AppState)
      (disk : Text → Option Bytes)
      → ((prefs : AppPrefs) → is_some (j.to_string_pretty prefs) ≡ true)
      → let disk' = on_close_requested j (some prefs_path) read_ok complete f s disk in
        let r = run j (some prefs_path) true tpm disk' in
        (r.0.position ≡ f.position)
        × (r.0.size ≡ f.size)
        × (r.0.is_maximized ≡ f.is_maximized)
        × (r.0.theme_mode ≡ f.theme_mode)
        × (r.1 ≡ record new_state { vault_path = found s.vault_path disk' })
  unfolding run on_close_requested
  run-on_close_requested prefs_path read_ok tpm f s disk prints =
      let stored = record (load j (some prefs_path) read_ok disk) {
        window_x = f.position.0;
        window_y = f.position.1;
        window_width = f.size.0;
        window_height = f.size.1;
        is_maximized = f.is_maximized;
        last_vault_path = s.vault_path;
        theme_mode = f.theme_mode;
      } in
      elim (Option-cases (j.to_string_pretty stored)) [
        | inl unprinted ↦ absurd (ground (arith, prints stored))
        | inr (text, printed) ↦
            let disk' = save j (some prefs_path) complete stored disk in
            let again : load j (some prefs_path) true disk' ≡ stored =
              load-save prefs_path stored text disk printed in
            let opened : AppPrefs → Frame × AppState =
              λ prefs. restored j prefs.last_vault_path disk' (framed j prefs tpm) in
            subst
              (λ r.
                (r.0.position ≡ f.position)
                × (r.0.size ≡ f.size)
                × (r.0.is_maximized ≡ f.is_maximized)
                × (r.0.theme_mode ≡ f.theme_mode)
                × (r.1 ≡ record new_state { vault_path = found s.vault_path disk' }))
              (sym (ap opened again)) (restored_lem s.vault_path disk' (framed j stored tpm) j)
      ]
