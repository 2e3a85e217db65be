-- ===== src/Tests/Callbacks.antt =====
-- Runs of whole callbacks.
use passx.Base.{
  Bool, Bytes, Option, [], arith, bytes_eq, false, none, ok, refl, replicate, some, take, true,
  unwrap_or, ℕ, ◌%◌, ◌+◌, ◌^◌, ◌∷◌, ◌≡◌,
}
use passx.Crypto.Cipher.{encrypt, derive_subkey}
use passx.Crypto.Kdf.{derive_key}
use passx.Memory.Guard.View.{secure_copy}
use passx.Vault.Format.{Vault, portable, new_vault, to_u8, content_aad}
use passx.Vault.Format.Load.{load_vault_from_reader}
use passx.Vault.Format.Save.{Draws, IsDraws, save_vault_to_writer, prepare, wrap_key, write_chunks}
use passx.Vault.Format.Wrap.{IsStored}
use passx.Ui.State.{new_state, accounts_filter, save_vault_state, rewrite_file, save_vault}
use passx.Ui.State.Saved.{vault_file_of}
use passx.Ui.Model.{generate_vault_entries}
use passx.Ui.Entries.{
  save_entry, update_account, touched, next_sequence, delete_entry, restore_entry,
}
use passx.Ui.Entries.Changes.{Changes, unchanged, changed, deletes, restores, Changes-advance}
use passx.Ui.Entries.Handlers.{Env, Program, on_save_entry, on_delete_entry, persist}
use passx.Ui.Entries.Handlers.Files.{Opened, on_save_entry-loads, on_delete_entry_silent}
use passx.Tests.Toy.{toy_platform, toy_PlatformLaws}

abbrev pub key : Bytes
key = replicate 32 7

abbrev pub password : Bytes
password = b'h' ∷ b'i' ∷ []

abbrev pub some_vault : Vault
some_vault = record (new_vault portable 1700000000) { sequence_number = 5 }

pub some_vault-IsStored : IsStored some_vault
some_vault-IsStored = record { accounts_stored = tt; totps_stored = tt }

abbrev some_draws : Draws
some_draws = record {
  salt = replicate 32 1;
  wrapper_nonce = replicate 24 2;
  content_nonce = replicate 24 3;
}

pub some_draws-IsDraws : IsDraws some_draws
some_draws-IsDraws = record {
  length_salt = refl;
  length_wrapper_nonce = refl;
  length_content_nonce = refl;
}

abbrev pub free : ℕ → ℕ → Bool
free i n = true

pub all_free : (i n : ℕ) → free i n ≡ true
all_free i n = refl

abbrev accept : ℕ → Option ℕ
accept k = none

pub all_accepted : (k : ℕ) → accept k ≡ none
all_accepted k = refl

abbrev pub env : Env
env = record {
  platform = toy_platform;
  rendering = record {
    to_lowercase = λ s. s;
    initial = λ s. take 1 s;
    from_utf8_lossy = λ b. b;
    decode = λ s. none;
  };
  to_uppercase = λ s. s;
  fresh = record { alloc = λ n. true; id = b'n' ∷ []; created = 20; updated = 20 };
  now = 20;
  alloc_edit = free;
  alloc_copy = free;
  io = record {
    seek_ok = true;
    truncate_ok = true;
    create_ok = true;
    accept = accept;
    draws = some_draws;
    alloc = free;
  };
}

abbrev pub start : Program
start = record {
  device = record {
    state = record new_state {
      vault = some some_vault;
      key = some key;
      password = some password;
      vault_path = some (b'v' ∷ []);
      vault_file = some (1 ∷ 2 ∷ []);
    };
    disk = λ path. none;
  };
  window = record {
    entries = [];
    error_message = none;
    io_status = none;
    selected_entry_id = [];
    current_screen = 3;
    show_totp_modal = false;
    selections = [];
    icon_fetches = [];
  };
}

pub start-Opened : Opened start.device.state some_vault key password
start-Opened = record {
  has_vault = refl;
  has_key = refl;
  has_password = refl;
  has_path = refl;
  key_nonempty = omega arith;
  password_nonempty = omega arith;
}

unfoldable pub program : Unit {0}
unfolding on_save_entry persist save_entry update_account touched next_sequence bytes_eq
    save_vault_to_writer prepare wrap_key write_chunks encrypt derive_subkey derive_key secure_copy
    to_u8 content_aad save_vault_state rewrite_file save_vault generate_vault_entries
program = tt

-- An update of an account that another window removed.
abbrev result : Option Program
result = on_save_entry env (b'z' ∷ []) (b't' ∷ []) (b'u' ∷ []) [] [] [] start

abbrev pub final : Program
final = unwrap_or start result

pub result-final : result ≡ some final
unfolding program
result-final = refl

quiet : final.window.error_message ≡ none
unfolding program
quiet = refl

on_save_entry-loads_example :
    (v' : Vault) × (save_entry env.fresh free 20
        (b'z' ∷ [])
        (b't' ∷ [])
        (b'u' ∷ [])
        []
        []
        []
        some_vault
      ≡ some v')
    × (final.device.state.vault ≡ some v')
    × (load_vault_from_reader toy_platform free (vault_file_of final.device) (some password)
        ≡ ok (v', key, v'.mode))
on_save_entry-loads_example =
    on_save_entry-loads env toy_PlatformLaws free (b'z' ∷ []) (b't' ∷ []) (b'u' ∷ []) [] [] [] start
      final some_vault key password start-Opened all_free all_free some_draws-IsDraws all_accepted
      some_vault-IsStored result-final quiet

-- The same window on a device that cannot truncate the file.
abbrev stuck_env : Env
stuck_env = record env { io = record (env.io) { truncate_ok = false } }

on_delete_entry_silent_example :
    ((on_delete_entry stuck_env (b'a' ∷ []) start).window.entries
      ≡ generate_vault_entries stuck_env.rendering
          (delete_entry accounts_filter 20 (b'a' ∷ []) some_vault)
          []
          accounts_filter)
    × ((on_delete_entry stuck_env (b'a' ∷ []) start).window.error_message ≡ none)
    × ((on_delete_entry stuck_env (b'a' ∷ []) start).window.io_status ≡ none)
on_delete_entry_silent_example =
    on_delete_entry_silent stuck_env (b'a' ∷ []) start some_vault key password start-Opened all_free

abbrev twice : Vault
twice = restore_entry 30 (b'a' ∷ []) (delete_entry accounts_filter 20 (b'a' ∷ []) some_vault)

two-Changes : Changes 2 some_vault twice
two-Changes =
    changed (changed unchanged (deletes accounts_filter 20 (b'a' ∷ []))) (restores 30 (b'a' ∷ []))

Changes-advance_example :
    (twice.sequence_number ≡ (5 + 2) % 2 ^ 64)
    × (twice.mode ≡ portable)
    × (twice.mirrors ≡ [])
    × IsStored twice
Changes-advance_example = Changes-advance two-Changes (omega arith) some_vault-IsStored
