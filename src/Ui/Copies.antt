-- ===== src/Ui/Copies.antt =====
-- The callbacks of src/ui/bridge/entries.rs that copy a text, down to the clipboard, and the one that
-- selects an entry.
use passx.Base.{Bool-cases, Bytes, List, Option, Text, ap, inl, inr, none, some, ℕ, ◌≡◌, ◌⊎◌}
use passx.Clipboard.{Clipboard, CopyCalls, copy_to_clipboard}
use passx.Ui.State.{AppState}
use passx.Ui.Auth.{Consent, verified, authenticate_user, authenticate_user-verified}
use passx.Ui.Details.{password_of}
use passx.Ui.Entries.Handlers.{Window}

unfoldable pub on_select_entry : Text → Window → Window
on_select_entry id w = record w { selected_entry_id = id }

-- An error is only logged.
unfoldable pub on_copy_to_clipboard : (Text → List ℕ) → CopyCalls → Text → Clipboard → Clipboard
unfolding copy_to_clipboard
on_copy_to_clipboard encode io text c = (copy_to_clipboard encode io text 10 c).1

abbrev put : (Text → List ℕ) → CopyCalls → Option Text → Clipboard → Clipboard
put encode io none c = c
put encode io (some pass) c = (copy_to_clipboard encode io pass 10 c).1

unfoldable pub on_copy_password :
    (Text → List ℕ) → (Bytes → Text) → Consent → CopyCalls → AppState → Text → Clipboard → Clipboard
unfolding authenticate_user password_of copy_to_clipboard
on_copy_password encode lossy consent io s id c =
    put encode io (password_of lossy (authenticate_user consent) s id) c

-- The clipboard stays as it is, unless Windows answered that the user was verified.
pub on_copy_password_verified :
    (encode : Text → List ℕ) (lossy : Bytes → Text) (consent : Consent) (io : CopyCalls)
    (s : AppState) (id : Text) (c : Clipboard)
    → (on_copy_password encode lossy consent io s id c ≡ c)
      ⊎ ((consent.window_operation ≡ some (some verified))
          ⊎ (consent.operation ≡ some (some verified)))
unfolding on_copy_password password_of
on_copy_password_verified encode lossy consent io s id c =
    elim (Bool-cases (authenticate_user consent)) [
      | inl let_in ↦ inr (authenticate_user-verified consent let_in)
      | inr refused ↦ inl (ap (λ b. put encode io (password_of lossy b s id) c) refused)
    ]
