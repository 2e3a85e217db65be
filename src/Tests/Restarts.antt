-- ===== src/Tests/Restarts.antt =====
-- A window that is closed and opened again.
use passx.Base.{
  Bool, Bytes, Option, Text, [], bytes_eq, drop, drop_length, false, if◌then◌else◌, length, none,
  refl, some, subst, suc, take, take-append, true, zero, ℕ, ◌++◌, ◌==◌, ◌∷◌, ◌≡◌,
}
use passx.Ui.State.{AppState, new_state}
use passx.Ui.Prefs.{
  ℤ, pos, negsuc, AppPrefs, Json, JsonLaws, Frame, complete, run, on_close_requested,
}
use passx.Ui.Prefs.Restart.{found, run-on_close_requested}

-- The preferences as numbers: those of fixed length, the length of the path or 0, the path, the theme.
abbrev sign : ℤ → ℕ
sign (pos n) = 0
sign (negsuc n) = 1

abbrev size_of : ℤ → ℕ
size_of (pos n) = n
size_of (negsuc n) = n

abbrev signed : ℕ → ℕ → ℤ
signed zero n = pos n
signed (suc s) n = negsuc n

abbrev bit : Bool → ℕ
bit true = 1
bit false = 0

abbrev path_and : Option Text → Text → Text
path_and none theme = 0 ∷ theme
path_and (some path) theme = suc (length path) ∷ (path ++ theme)

abbrev printed : AppPrefs → Text
printed a =
    sign a.window_x
    ∷ size_of a.window_x
    ∷ sign a.window_y
    ∷ size_of a.window_y
    ∷ a.window_width
    ∷ a.window_height
    ∷ bit a.is_maximized
    ∷ path_and a.last_vault_path a.theme_mode

abbrev last_of : ℕ → Text → Option Text
last_of zero rest = none
last_of (suc n) rest = some (take n rest)

abbrev theme_of : ℕ → Text → Text
theme_of zero rest = rest
theme_of (suc n) rest = drop n rest

abbrev read : Text → Option AppPrefs
read (sx ∷ x ∷ sy ∷ y ∷ w ∷ h ∷ m ∷ n ∷ rest) = some (record {
  window_x = signed sx x;
  window_y = signed sy y;
  window_width = w;
  window_height = h;
  is_maximized = m == 1;
  last_vault_path = last_of n rest;
  theme_mode = theme_of n rest;
})
read _ = none

abbrev numbers : Json
numbers = record { to_string_pretty = λ a. some (printed a); from_str = read }

signed_again : (z : ℤ) → signed (sign z) (size_of z) ≡ z
signed_again (pos n) = refl
signed_again (negsuc n) = refl

bit_again : (b : Bool) → (bit b == 1) ≡ b
bit_again true = refl
bit_again false = refl

read-printed :
    (x y : ℤ) (w h : ℕ) (m : Bool) (last : Option Text) (theme : Text)
    → let a : AppPrefs = record {
      window_x = x;
      window_y = y;
      window_width = w;
      window_height = h;
      is_maximized = m;
      last_vault_path = last;
      theme_mode = theme;
    } in
      read (printed a) ≡ some a
read-printed x y w h m none theme = rw (signed_again x, signed_again y, bit_again m) refl
read-printed x y w h m (some path) theme =
    rw
      (
        signed_again x,
        signed_again y,
        bit_again m,
        take-append (length path) path theme refl,
        drop_length (length path) path theme refl,
      )
      refl

text_of : {s t : Text} → some s ≡ some t → s ≡ t
text_of same = cc

numbers-JsonLaws : JsonLaws numbers
numbers-JsonLaws = record {
  from_str-to_string_pretty = λ prefs text same.
      subst (λ t. read t ≡ some prefs) (text_of same)
        (read-printed prefs.window_x prefs.window_y prefs.window_width prefs.window_height
          prefs.is_maximized prefs.last_vault_path prefs.theme_mode);
}

abbrev moved : Frame
moved = record {
  position = (negsuc 19, pos 40);
  size = (1280, 800);
  is_maximized = true;
  theme_mode = b'd' ∷ [];
  tpm_available = false;
  vault_path = [];
  current_screen = 3;
}

abbrev with_path : AppState
with_path = record new_state { vault_path = some (b'v' ∷ []) }

abbrev disk : Text → Option Bytes
disk path = if bytes_eq path (b'v' ∷ []) then some (1 ∷ 2 ∷ []) else none

run-on_close_requested_example :
    let disk' = on_close_requested numbers (some (b'c' ∷ [])) false complete moved with_path disk in
    let r = run numbers (some (b'c' ∷ [])) true true disk' in
    (r.0.position ≡ (negsuc 19, pos 40))
    × (r.0.size ≡ (1280, 800))
    × (r.0.is_maximized ≡ true)
    × (r.0.theme_mode ≡ (b'd' ∷ []))
    × (r.1 ≡ record new_state { vault_path = found (some (b'v' ∷ [])) disk' })
run-on_close_requested_example =
    run-on_close_requested numbers numbers-JsonLaws (b'c' ∷ []) false true moved with_path disk
      (λ prefs. refl)
