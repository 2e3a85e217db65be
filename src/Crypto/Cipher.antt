-- ===== src/Crypto/Cipher.antt =====
-- src/crypto/cipher.rs and `constant_time_eq` of src/crypto/mod.rs. A random nonce is an argument:
-- the bytes that the generator filled in. `alloc n` says whether `n` locked bytes can be had.
pub mod RoundTrip
use passx.Base.{
  ◌>>=◌, Result, Bool, Bytes, bytes_eq, err, false, if◌then◌else◌, length, not, ok, ok_or, zero, ℕ,
  ◌==◌,
}
use passx.Crypto.Primitives.{Primitives}
use passx.Memory.Guard.View.{secure_copy}

abbrev pub key_size : ℕ
key_size = 32

abbrev pub nonce_size : ℕ
nonce_size = 24

abbrev pub tag_size : ℕ
tag_size = 16

pub data CryptoError : Type 0 where
  encryption_failed decryption_failed invalid_key_size key_derivation_failed : CryptoError
  key_precomputation_failed internal_error : CryptoError

module _ (p : Primitives) where
  -- The output buffer has `key_size` bytes; the expansion fills it.
  unfoldable pub derive_subkey : (ℕ → Bool) → Bytes → Bytes → Result CryptoError Bytes
  derive_subkey alloc master_key info =
      if not (length master_key == key_size)
      then err invalid_key_size
      else if not (alloc key_size)
      then err internal_error
      else ok_or key_derivation_failed (p.hkdf_expand master_key info)

  -- Ciphertext, nonce and tag; an empty plaintext is copied to a buffer of one zero byte.
  unfoldable pub encrypt :
      (ℕ → Bool) → Bytes → Bytes → Bytes → Bytes → Result CryptoError (Bytes × Bytes × Bytes)
  encrypt alloc nonce key plaintext aad =
      if not (length key == key_size) then err invalid_key_size else do
        buffer ← ok_or internal_error (secure_copy alloc plaintext)
        (ciphertext, tag) ← ok_or encryption_failed (p.aead_seal key nonce aad buffer)
        ok (ciphertext, nonce, tag)

  unfoldable pub decrypt :
      (ℕ → Bool) → Bytes → Bytes → Bytes → Bytes → Bytes → Result CryptoError Bytes
  decrypt alloc key nonce tag ciphertext aad =
      if not (length key == key_size) then err invalid_key_size else do
        buffer ← ok_or internal_error (secure_copy alloc ciphertext)
        ok_or decryption_failed (p.aead_open key nonce aad tag buffer)

-- `subtle`'s `ct_eq` on slices of one length compares all bytes.
unfoldable pub constant_time_eq : Bytes → Bytes → Bool
constant_time_eq a b = if not (length a == length b) then false else bytes_eq a b
