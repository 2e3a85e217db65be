-- ===== src/Vault/Format/Load.antt =====
-- `load_vault_from_reader`, in its three parts: the header, the master key, the content.
use passx.Base.{
  ◌>>=◌, Result, Bool, Bytes, Option, bytes_eq, drop, err, if◌then◌else◌, length, ltb, map_err, not,
  of_le_bytes, ok, ok_or, slice, take, ℕ, ◌&&◌, ◌+◌, ◌-◌, ◌==◌,
}
use passx.Crypto.Cipher.{
  decrypt, derive_subkey, key_precomputation_failed, decryption_failed, tag_size, nonce_size,
}
use passx.Crypto.Kdf.{derive_key, salt_len}
use passx.Memory.Guard.View.{secure_copy}
use passx.Tpm.Sealing.{unseal_key}
use passx.Vault.Format.{
  Platform, Vault, VaultMode, VaultError, device_bound, portable, crypto_error, tpm_error, io_error,
  missing_password, serialization_error, invalid_format, invalid_magic, unsupported_version,
  invalid_mode, to_u8, from_u8, mode_eq, magic, format_version, kdf_version, device_bound_aad,
  portable_aad, content_info, content_aad,
}

pub record Header : Type 0 where
  pub version : ℕ
  pub mode : VaultMode
  pub kdf : ℕ
  pub salt : Bytes
  pub wrapper_nonce : Bytes
  pub wrapped_key : Bytes
  pub offset_after_key : ℕ

-- `buffer[i]`, behind the test of the buffer's length.
abbrev byte_at : ℕ → Bytes → ℕ
byte_at i buffer = of_le_bytes (slice i (i + 1) buffer)

unfoldable pub parse_header : Bytes → Result VaultError Header
parse_header buffer =
    let version = of_le_bytes (slice 6 10 buffer) in
    let mode_byte = byte_at 10 buffer in
    let kdf = byte_at 11 buffer in
    let wrapped_key_len = of_le_bytes (slice 68 72 buffer) in
    if ltb (length buffer) (6 + 4 + 1 + 1 + salt_len + nonce_size + 4)
    then err invalid_format
    else if not (bytes_eq (slice 0 6 buffer) magic)
    then err invalid_magic
    else if not (version == format_version) && not (version == 2)
    then err unsupported_version
    else do
      mode ← ok_or (invalid_mode mode_byte) (from_u8 mode_byte)
      if not (kdf == kdf_version)
          then err unsupported_version
          else if ltb (length buffer) (72 + wrapped_key_len + 8 + nonce_size + tag_size)
          then err invalid_format
          else ok (record {
            version = version;
            mode = mode;
            kdf = kdf;
            salt = slice 12 44 buffer;
            wrapper_nonce = slice 44 68 buffer;
            wrapped_key = slice 72 (72 + wrapped_key_len) buffer;
            offset_after_key = 72 + wrapped_key_len;
          })

module _ (p : Platform) (alloc : ℕ → ℕ → Bool) where
  open p use {primitives, ncrypt, deserialize}

  -- The wrapper is a ciphertext followed by its tag.
  unfoldable pub decrypt_wrapper : Bytes → Bytes → Bytes → Bytes → Result VaultError Bytes
  decrypt_wrapper kek nonce blob aad = if ltb (length blob) tag_size then err invalid_format else do
    let tag_start = length blob - tag_size
    plaintext ←
        map_err crypto_error
          (decrypt primitives (alloc 2) kek nonce (drop tag_start blob) (take tag_start blob) aad)
    ok_or (crypto_error decryption_failed) (secure_copy (alloc 3) plaintext)

  abbrev derive_kek : Bytes → Bytes → Result VaultError Bytes
  derive_kek pass salt =
      map_err (λ _. crypto_error key_precomputation_failed)
        (derive_key primitives (alloc 1) pass salt)

  unfoldable pub unwrap_key : VaultMode → Header → Option Bytes → Result VaultError Bytes
  unwrap_key device_bound h password = do
    blob ← map_err tpm_error (unseal_key ncrypt (alloc 0) h.wrapped_key)
    pass ← ok_or missing_password password
    kek ← derive_kek pass h.salt
    decrypt_wrapper kek h.wrapper_nonce blob device_bound_aad
  unwrap_key portable h password = do
    pass ← ok_or missing_password password
    kek ← derive_kek pass h.salt
    decrypt_wrapper kek h.wrapper_nonce h.wrapped_key portable_aad

  unfoldable pub decrypt_content : Bytes → Header → Bytes → Result VaultError Vault
  decrypt_content buffer h master_key = do
    let start = h.offset_after_key
    let tag_start = length buffer - tag_size
    let sequence = of_le_bytes (slice start (start + 8) buffer)
    let aad = content_aad h.version (to_u8 h.mode) h.kdf h.salt sequence
    subkey ← map_err crypto_error (derive_subkey primitives (alloc 4) master_key content_info)
    plaintext ← map_err crypto_error (
        decrypt primitives (alloc 5) subkey (slice (start + 8) (start + 8 + nonce_size) buffer)
          (drop tag_start buffer) (slice (start + 8 + nonce_size) tag_start buffer) aad)
    ok_or serialization_error (deserialize plaintext)

  unfoldable pub load_vault_from_reader :
      Option Bytes → Option Bytes → Result VaultError (Vault × Bytes × VaultMode)
  load_vault_from_reader input password = do
    buffer ← ok_or io_error input
    header ← parse_header buffer
    master_key ← unwrap_key header.mode header password
    vault ← decrypt_content buffer header master_key
    if mode_eq vault.mode header.mode
        then ok (vault, master_key, header.mode)
        else err invalid_format
