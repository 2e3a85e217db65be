-- ===== src/Tests/Access.antt =====
-- Runs of the callbacks that change the master password and the mirrors.
use passx.Base.{
  Bool, Bytes, Option, Text, [], arith, bytes_eq, none, ok, refl, replicate, some, take, true, ℕ,
  ◌∷◌, ◌≡◌, ◌⊎◌,
}
use passx.Crypto.Cipher.{encrypt, derive_subkey}
use passx.Crypto.Kdf.{derive_key}
use passx.Memory.Guard.View.{secure_copy}
use passx.Vault.Format.{Vault, VaultMode, portable, new_vault, to_u8, content_aad}
use passx.Vault.Format.Load.{load_vault_from_reader}
use passx.Vault.Format.Save.{Draws, IsDraws, save_vault_to_writer, prepare, wrap_key, write_chunks}
use passx.Vault.Format.Wrap.{IsStored}
use passx.Ui.State.{AppState, SaveIo, new_state, rewrite_file, save_vault, write_file}
use passx.Ui.Vault.{save_outside, add_mirror, accepts_old, on_change_master_password}
use passx.Ui.Vault.Loads.{Held, taken, on_change_master_password-loads}
use passx.Ui.State.{accounts_filter, saved}
use passx.Ui.Model.{Rendering, generate_vault_entries}
use passx.Ui.Unlock.{Access, on_attempt_unlock, loaded}
use passx.Ui.Unlock.Opens.{on_attempt_unlock-cases, on_attempt_unlock-saved}
use passx.Tests.Toy.{toy_platform, toy_PlatformLaws}

abbrev pub key : Bytes
key = replicate 32 7

abbrev pub file : Bytes
file = 1 ∷ 2 ∷ []

abbrev pub some_vault : Vault
some_vault = record (new_vault portable 1700000000) { sequence_number = 5 }

pub some_vault-IsStored : IsStored some_vault
some_vault-IsStored = record { accounts_stored = tt; totps_stored = tt }

abbrev pub some_draws : Draws
some_draws = record {
  salt = replicate 32 1;
  wrapper_nonce = replicate 24 2;
  content_nonce = replicate 24 3;
}

pub some_draws-IsDraws : IsDraws some_draws
some_draws-IsDraws = record {
  length_salt = refl;
  length_wrapper_nonce = refl;
  length_content_nonce = refl;
}

abbrev pub free : ℕ → ℕ → Bool
free i n = true

pub all_free : (i n : ℕ) → free i n ≡ true
all_free i n = refl

abbrev pub accept : ℕ → Option ℕ
accept k = none

pub all_accepted : (k : ℕ) → accept k ≡ none
all_accepted k = refl

abbrev pub io : SaveIo
io = record {
  seek_ok = true;
  truncate_ok = true;
  create_ok = true;
  accept = accept;
  draws = some_draws;
  alloc = free;
}

-- The vault is open under the password "hi".
abbrev pub held : AppState
held = record new_state {
  vault = some some_vault;
  key = some key;
  password = some (b'h' ∷ b'i' ∷ []);
  vault_path = some (b'v' ∷ []);
  vault_file = some file;
}

pub held-Held : Held held some_vault key file
held-Held = record { has_vault = refl; has_key = refl; has_file = refl }

abbrev pub disk : Text → Option Bytes
disk path = none

abbrev pub lossy : Bytes → Text
lossy b = b

abbrev mirror : Text
mirror = b'm' ∷ []

program : Unit {0}
unfolding save_vault_to_writer prepare wrap_key write_chunks encrypt derive_subkey derive_key
    secure_copy to_u8 content_aad rewrite_file save_vault save_outside add_mirror write_file
    bytes_eq accepts_old
program = tt

resaved :
    (save_outside toy_platform io disk
      (taken held some_vault key file)
      some_vault
      (some (b'n' ∷ []))).result
    ≡ ok tt
unfolding program
resaved = refl

accepted : accepts_old lossy (b'h' ∷ b'i' ∷ []) held ≡ true
unfolding program
accepted = refl

on_change_master_password-loads_example :
    let r =
      (on_change_master_password toy_platform io lossy
        (free 0)
        (b'h' ∷ b'i' ∷ [])
        (b'n' ∷ [])
        (held, disk)) in
    (r.0.vault ≡ some some_vault)
    × (r.0.password ≡ some (b'n' ∷ []))
    × (r.0.vault_file ≡ some file)
    × (load_vault_from_reader toy_platform free (r.1 file) (some (b'n' ∷ []))
        ≡ ok (some_vault, key, portable))
on_change_master_password-loads_example =
    on_change_master_password-loads toy_platform io toy_PlatformLaws free all_free lossy (free 0)
      (b'h' ∷ b'i' ∷ []) b'n' [] held disk some_vault key file held-Held accepted some_draws-IsDraws
      some_vault-IsStored (omega arith) all_accepted (all_free 0) resaved

abbrev pub plain : Rendering
plain = record {
  to_lowercase = λ s. s;
  initial = λ s. take 1 s;
  from_utf8_lossy = λ b. b;
  decode = λ s. none;
}

abbrev pub locked : Access
locked = record {
  state = record new_state { vault_path = some (b'v' ∷ []) };
  screen = 2;
  error_message = none;
  mirrors = [];
  entries = [];
}

abbrev pub saved_disk : Text → Option Bytes
saved_disk path = some (saved toy_platform io some_vault key portable (some (b'n' ∷ []))).1.written

pub saved_whole : (saved toy_platform io some_vault key portable (some (b'n' ∷ []))).0 ≡ ok tt
unfolding program
saved_whole = refl

on_attempt_unlock-saved_example :
    let b =
      on_attempt_unlock toy_platform plain free (free 0) true true (b'n' ∷ []) saved_disk locked in
    (b.state.vault ≡ some some_vault)
    × (b.state.key ≡ some key)
    × (b.state.password ≡ some (b'n' ∷ []))
    × (b.entries ≡ generate_vault_entries plain some_vault [] accounts_filter)
    × (b.error_message ≡ none)
on_attempt_unlock-saved_example =
    on_attempt_unlock-saved toy_platform plain free (free 0) toy_PlatformLaws io b'n' [] some_vault
      key (b'v' ∷ []) saved_disk locked all_free (all_free 0) refl some_draws-IsDraws
      some_vault-IsStored (omega arith) all_accepted saved_whole refl

on_attempt_unlock-cases_example :
    let s =
      (on_attempt_unlock toy_platform plain free
        (free 0)
        true
        true
        (b'n' ∷ [])
        saved_disk
        locked).state in
    (s ≡ locked.state)
    ⊎ ((path : Text) × (content : Bytes) × (v : Vault) × (master_key : Bytes) × (mode : VaultMode)
        × (locked.state.vault_path ≡ some path)
        × (saved_disk path ≡ some content)
        × (true ≡ true)
        × (loaded toy_platform plain free (free 0) true content (b'n' ∷ [])
            ≡ ok (v, master_key, mode))
        × (s.vault ≡ some v)
        × (s.key ≡ some master_key)
        × (s.vault_file ≡ some path))
on_attempt_unlock-cases_example =
    on_attempt_unlock-cases toy_platform plain free (free 0) true true (b'n' ∷ []) saved_disk locked
