-- ===== src/Tests/Sequences.antt =====
-- A sequence of callbacks from the start of the program.
use passx.Base.{Bytes, Text, [], none, refl, some, true, ◌∷◌, ◌≡◌}
use passx.Ui.State.{Device, new_state}
use passx.Ui.Vault.{on_add_mirror}
use passx.Ui.Vault.Creates.{Start, on_browse_for_new_vault, on_create_new_vault_confirmed}
use passx.Ui.Runs.{
  none_yet, then_one, browses_new, creates, adds_mirror, at_start, started, device_of,
}
use passx.Ui.Runs.Held.{is_whole}
use passx.Ui.Runs.Whole.{Steps-is_whole}
use passx.Tests.Toy.{toy_platform}
use passx.Tests.Access.{key, free, io, disk, plain}

abbrev name : Text
name = b'm' ∷ b'y' ∷ []

abbrev password : Bytes
password = b'n' ∷ []

abbrev launched : Device
launched = record { state = new_state; disk = disk }

abbrev first_screen : Start
first_screen = record {
  state = new_state;
  disk = disk;
  screen = 0;
  message = none;
  shown_path = [];
  mirrors = [];
  entries = [];
}

abbrev picked : Device
picked = started (on_browse_for_new_vault (some name) (at_start launched first_screen))

abbrev created : Device
created = started (
    on_create_new_vault_confirmed toy_platform io plain free 1700000000 key password 2
      (at_start picked first_screen))

abbrev mirrored : Device
mirrored = device_of (on_add_mirror toy_platform io name (created.state, created.disk))

Steps-is_whole_example : is_whole mirrored.state ≡ true
Steps-is_whole_example =
    Steps-is_whole
      (then_one
        (then_one (then_one none_yet (browses_new (some name) first_screen))
          (creates toy_platform io plain free 1700000000 key password 2 first_screen))
        (adds_mirror toy_platform io name))
      refl
