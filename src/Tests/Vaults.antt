-- ===== src/Tests/Vaults.antt =====
-- Runs of a save and a load, through the exclusive handle and by the path.
use passx.Base.{
  Bool, Bytes, Option, [], arith, err, inr, none, ok, refl, replicate, some, true, ℕ, ◌∷◌, ◌≡◌,
}
use passx.Crypto.Cipher.{encrypt, derive_subkey}
use passx.Crypto.Kdf.{derive_key}
use passx.Memory.Guard.View.{secure_copy}
use passx.Vault.Format.{Vault, portable, new_vault, missing_password, to_u8, content_aad}
use passx.Vault.Format.Save.{
  Draws, IsDraws, empty_sink, save_vault_to_writer, prepare, wrap_key, write_chunks,
}
use passx.Vault.Format.Load.{load_vault_from_reader}
use passx.Vault.Format.RoundTrip.{load_vault-save_vault}
use passx.Vault.Format.Wrap.{IsStored}
use passx.Ui.State.{
  Device, SaveIo, new_state, format_error, save_vault_state, rewrite_file, save_vault,
}
use passx.Ui.State.Saved.{vault_file_of, save_vault_state_empties, save_vault_state-loads}
use passx.Tests.Toy.{toy_platform, toy_PlatformLaws}

abbrev key : Bytes
key = replicate 32 7

abbrev some_vault : Vault
some_vault = record (new_vault portable 1700000000) { sequence_number = 5 }

abbrev password : Option Bytes
password = some (b'h' ∷ b'i' ∷ [])

abbrev some_draws : Draws
some_draws = record {
  salt = replicate 32 1;
  wrapper_nonce = replicate 24 2;
  content_nonce = replicate 24 3;
}

some_draws-IsDraws : IsDraws some_draws
some_draws-IsDraws = record {
  length_salt = refl;
  length_wrapper_nonce = refl;
  length_content_nonce = refl;
}

some_vault-IsStored : IsStored some_vault
some_vault-IsStored = record { accounts_stored = tt; totps_stored = tt }

abbrev free : ℕ → ℕ → Bool
free i n = true

all_free : (i n : ℕ) → free i n ≡ true
all_free i n = refl

abbrev accept : ℕ → Option ℕ
accept k = none

all_accepted : (k : ℕ) → accept k ≡ none
all_accepted k = refl

program : Unit {0}
unfolding save_vault_to_writer prepare wrap_key write_chunks encrypt derive_subkey derive_key
    secure_copy to_u8 content_aad save_vault_state rewrite_file save_vault
program = tt

written :
    (save_vault_to_writer toy_platform free accept some_draws empty_sink some_vault key portable
      password).0
    ≡ ok tt
unfolding program
written = refl

load_vault-save_vault_example :
    load_vault_from_reader toy_platform free
      (some
        (save_vault_to_writer toy_platform free accept some_draws empty_sink some_vault key portable
          password).1.written)
      password
    ≡ ok (some_vault, key, portable)
load_vault-save_vault_example =
    load_vault-save_vault toy_platform toy_PlatformLaws free free all_free accept some_draws
      some_vault key portable password some_draws-IsDraws some_vault-IsStored refl (omega arith)
      all_accepted written

abbrev io : SaveIo
io = record {
  seek_ok = true;
  truncate_ok = true;
  create_ok = true;
  accept = accept;
  draws = some_draws;
  alloc = free;
}

-- The vault is open, and its file is held by the exclusive handle.
abbrev unlocked : Device
unlocked = record {
  state = record new_state {
    vault = some some_vault;
    key = some key;
    password = password;
    vault_path = some (b'v' ∷ []);
    vault_file = some (1 ∷ 2 ∷ []);
  };
  disk = λ path. none;
}

stored_once : (save_vault_state toy_platform io unlocked key portable password).0 ≡ ok tt
unfolding program
stored_once = refl

save_vault_state-loads_example :
    load_vault_from_reader toy_platform free
      (vault_file_of (save_vault_state toy_platform io unlocked key portable password).1)
      password
    ≡ ok (some_vault, key, portable)
save_vault_state-loads_example =
    save_vault_state-loads toy_platform io toy_PlatformLaws free all_free unlocked some_vault key
      password refl some_draws-IsDraws some_vault-IsStored (omega arith) all_accepted stored_once

save_vault_state_empties_example :
    ((save_vault_state toy_platform io unlocked key portable none).0
      ≡ err (format_error missing_password))
    × (vault_file_of (save_vault_state toy_platform io unlocked key portable none).1 ≡ some [])
save_vault_state_empties_example =
    save_vault_state_empties toy_platform io unlocked some_vault (1 ∷ 2 ∷ []) key portable none
      missing_password refl refl refl refl (inr (refl, refl))
