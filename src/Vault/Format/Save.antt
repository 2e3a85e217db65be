-- ===== src/Vault/Format/Save.antt =====
-- `save_vault_to_writer`. The random salt and nonces are arguments, as are the outcomes of the
-- allocations, numbered in the order of the calls, and of the writes.
use passx.Base.{
  ◌>>=◌, Result, Bool, Bytes, List, Option, [], err, le_bytes, length, map_err, none, ok, ok_or,
  some, take, ℕ, ◌%◌, ◌++◌, ◌+◌, ◌^◌, ◌∷◌, ◌≡◌,
}
use passx.Crypto.Cipher.{encrypt, derive_subkey, key_precomputation_failed}
use passx.Crypto.Kdf.{derive_key}
use passx.Memory.Guard.View.{secure_copy}
use passx.Tpm.Sealing.{seal_key}
use passx.Vault.Format.{
  Platform, Vault, VaultMode, VaultError, device_bound, portable, crypto_error, tpm_error, io_error,
  missing_password, serialization_error, to_u8, magic, format_version, kdf_version,
  device_bound_aad, portable_aad, content_info, content_aad,
}

pub record Draws : Type 0 where
  pub salt : Bytes
  pub wrapper_nonce : Bytes
  pub content_nonce : Bytes

-- The generators fill arrays of fixed sizes.
pub record IsDraws (d : Draws) : Type 0 where
  pub length_salt : length d.salt ≡ 32
  pub length_wrapper_nonce : length d.wrapper_nonce ≡ 24
  pub length_content_nonce : length d.content_nonce ≡ 24

-- A file or another `Write`: what it holds and how many calls it has had.
pub record Sink : Type 0 where
  pub written : Bytes
  pub calls : ℕ

abbrev pub empty_sink : Sink
empty_sink = record { written = []; calls = 0 }

-- `accept k` is `none` when the k-th `write_all` succeeds, and else how many bytes it still wrote.
unfoldable pub write_all : (ℕ → Option ℕ) → Bytes → Sink → Result VaultError (Unit {0}) × Sink
write_all accept chunk w = elim (accept w.calls) [
  | none ↦ (ok tt, record { written = w.written ++ chunk; calls = w.calls + 1 })
  | some n ↦ (err io_error, record { written = w.written ++ take n chunk; calls = w.calls + 1 })
]

unfoldable pub write_chunks :
    (ℕ → Option ℕ) → List Bytes → Sink → Result VaultError (Unit {0}) × Sink
unfolding write_all
write_chunks accept [] w = (ok tt, w)
write_chunks accept (c ∷ cs) w = elim (accept w.calls) [
  | none ↦ write_chunks accept cs (record { written = w.written ++ c; calls = w.calls + 1 })
  | some n ↦ (err io_error, record { written = w.written ++ take n c; calls = w.calls + 1 })
]

module _ (p : Platform) (alloc : ℕ → ℕ → Bool) where
  open p use {primitives, ncrypt, serialize}

  abbrev derive_kek : Bytes → Bytes → Result VaultError Bytes
  derive_kek pass salt =
      map_err (λ _. crypto_error key_precomputation_failed)
        (derive_key primitives (alloc 0) pass salt)

  -- The wrapped master key and the nonce of its wrapper.
  unfoldable pub wrap_key :
      VaultMode → Draws → Bytes → Option Bytes → Result VaultError (Bytes × Bytes)
  wrap_key device_bound d master_key password = do
    pass ← ok_or missing_password password
    kek ← derive_kek pass d.salt
    (ciphertext, nonce, tag) ←
        map_err crypto_error
          (encrypt primitives (alloc 1) d.wrapper_nonce kek master_key device_bound_aad)
    secure ←
        ok_or (crypto_error key_precomputation_failed) (secure_copy (alloc 2) (ciphertext ++ tag))
    sealed ← map_err tpm_error (seal_key ncrypt secure)
    ok (sealed, nonce)
  wrap_key portable d master_key password = do
    pass ← ok_or missing_password password
    kek ← derive_kek pass d.salt
    (ciphertext, nonce, tag) ←
        map_err crypto_error
          (encrypt primitives (alloc 1) d.wrapper_nonce kek master_key portable_aad)
    ok (ciphertext ++ tag, nonce)

  -- All that is computed before the first write: the chunks of the file, in order.
  unfoldable pub prepare :
      Draws → Vault → Bytes → VaultMode → Option Bytes → Result VaultError (List Bytes)
  prepare d vault master_key mode password = do
    (wrapped, wrapper_nonce) ← wrap_key mode d master_key password
    subkey ← map_err crypto_error (derive_subkey primitives (alloc 3) master_key content_info)
    serialized ← ok_or serialization_error (serialize vault)
    let aad = content_aad format_version (to_u8 mode) kdf_version d.salt vault.sequence_number
    (ciphertext, nonce, tag) ←
        map_err crypto_error (encrypt primitives (alloc 4) d.content_nonce subkey serialized aad)
    ok (
        magic
        ∷ le_bytes 4 format_version
        ∷ (to_u8 mode ∷ [])
        ∷ (kdf_version ∷ [])
        ∷ d.salt
        ∷ wrapper_nonce
        ∷ le_bytes 4 (length wrapped % 2 ^ 32)
        ∷ wrapped
        ∷ le_bytes 8 vault.sequence_number
        ∷ nonce
        ∷ ciphertext
        ∷ tag
        ∷ [])

  unfoldable pub save_vault_to_writer :
      (ℕ → Option ℕ)
      → Draws
      → Sink
      → Vault
      → Bytes
      → VaultMode
      → Option Bytes
      → Result VaultError (Unit {0}) × Sink
  save_vault_to_writer accept d w vault master_key mode password =
      elim (prepare d vault master_key mode password) [
        | err e ↦ (err e, w)
        | ok chunks ↦ write_chunks accept chunks w
      ]
