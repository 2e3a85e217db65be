-- ===== src/Tests/Creations.antt =====
-- Runs that create vaults, and a run of the thread that saves the generator settings.
use passx.Base.{
  Bytes, List, Text, [], any, bytes_eq, false, leb, none, ok, refl, replicate, some, true, ◌&&◌,
  ◌++◌, ◌∷◌, ◌≡◌,
}
use passx.Crypto.Cipher.{encrypt, derive_subkey}
use passx.Crypto.Kdf.{derive_key}
use passx.Memory.Guard.View.{secure_copy}
use passx.Vault.Format.{Vault, GeneratorSettings, portable, new_vault, to_u8, from_u8, content_aad}
use passx.Vault.Format.Load.{load_vault_from_reader}
use passx.Vault.Format.Save.{save_vault_to_writer, prepare, wrap_key, write_chunks}
use passx.Vault.Manager.{Places, ManagedIo, create_managed_vault, get_vault_path, is_invalid_char}
use passx.Vault.Manager.Created.{create_managed_vault-loads}
use passx.Ui.State.{new_state, rewrite_file, save_vault, saved, save_vault_state, write_file}
use passx.Ui.Entries.{save_generator_settings, touched, next_sequence}
use passx.Ui.Vault.Creates.{Start, on_create_new_vault_confirmed}
use passx.Ui.Vault.Creates.Stale.{with_changed, create_over_stale_handle}
use passx.Tests.Toy.{toy_platform, toy_PlatformLaws}
use passx.Tests.Access.{
  key, file, some_vault, some_draws-IsDraws, free, all_free, all_accepted, io, disk, plain,
}

program : Unit {0}
unfolding save_vault_to_writer prepare wrap_key write_chunks encrypt derive_subkey derive_key
    secure_copy to_u8 content_aad rewrite_file save_vault create_managed_vault get_vault_path
    is_invalid_char write_file bytes_eq from_u8 save_generator_settings touched next_sequence
program = tt

abbrev places : Places
places = record {
  managed_vaults_dir = b'd' ∷ [];
  push = λ dir name. dir ++ (b'/' ∷ name);
  chars = λ t. t;
  ansi = λ t. t;
  is_alphanumeric = λ c. leb b'a' c && leb c b'z';
}

abbrev managed_io : ManagedIo
managed_io = record {
  init_ok = true;
  create_ok = true;
  acl_ok = true;
  remove_ok = true;
  reopen_ok = true;
}

abbrev fresh_vault : Vault
fresh_vault = new_vault portable 1700000000

abbrev password : Bytes
password = b'n' ∷ []

abbrev name : Text
name = b'm' ∷ b'y' ∷ []

abbrev path : Text
path = get_vault_path places name

made :
    (create_managed_vault toy_platform io places managed_io 1700000000 name
      (some password)
      portable
      key
      disk).0
    ≡ ok (fresh_vault, path, path)
unfolding program
made = refl

elsewhere : bytes_eq [] path ≡ false
unfolding program
elsewhere = refl

create_managed_vault-loads_example :
    let disk' =
      (create_managed_vault toy_platform io places managed_io 1700000000 name
        (some password)
        portable
        key
        disk).1 in
    (fresh_vault ≡ new_vault portable 1700000000)
    × (any (is_invalid_char places) name ≡ false)
    × (path ≡ get_vault_path places name)
    × (path ≡ places.ansi path)
    × (disk path ≡ none)
    × (disk path ≡ none)
    × (disk' [] ≡ disk [])
    × (load_vault_from_reader toy_platform free (disk' path) (some password)
        ≡ ok (fresh_vault, key, portable))
create_managed_vault-loads_example =
    create_managed_vault-loads toy_platform io places managed_io toy_PlatformLaws free all_free
      1700000000 name (some password) portable key disk [] some_draws-IsDraws all_accepted elsewhere
      made

-- A location is chosen while the file handle of another vault is still there.
abbrev leftover : Start
leftover = record {
  state = record new_state { vault_path = some name; vault_file = some file };
  disk = disk;
  screen = 1;
  message = none;
  shown_path = name;
  mirrors = [];
  entries = [];
}

wrote_new :
    (save_vault toy_platform io disk name fresh_vault key portable (some password)).0 ≡ ok tt
unfolding program
wrote_new = refl

chosen : from_u8 2 ≡ some portable
unfolding program
chosen = refl

other_file : bytes_eq name file ≡ false
unfolding program
other_file = refl

create_over_stale_handle_example :
    let b =
      on_create_new_vault_confirmed toy_platform io plain free 1700000000 key password 2 leftover in
    let d' =
      (save_vault_state toy_platform io
        (with_changed some_vault b)
        key
        portable
        (some password)).1 in
    (b.state.vault_path ≡ some name)
    × (b.disk name
        ≡ some (saved toy_platform io fresh_vault key portable (some password)).1.written)
    × (d'.disk file
        ≡ some (saved toy_platform io some_vault key portable (some password)).1.written)
    × (d'.disk name ≡ b.disk name)
create_over_stale_handle_example =
    create_over_stale_handle toy_platform io plain free 1700000000 7 b'n' (replicate 31 7) [] 2
      portable name leftover file io some_vault key (some password) all_free chosen refl refl
      other_file wrote_new refl refl

abbrev longer : GeneratorSettings
longer = record {
  length = 24;
  include_uppercase = true;
  include_lowercase = true;
  include_numbers = true;
  include_symbols = false;
}

abbrev slider : List GeneratorSettings
slider = record longer { length = 20 } ∷ []
