-- ===== src/Tpm/Sealing.antt =====
-- src/tpm/sealing.rs. The calls of Windows CNG are a record of outcomes; the handles that they
-- return carry no data that the code reads.
pub mod RoundTrip
use passx.Base.{
  ◌^◌, ◌<◌, ◌>>=◌, ◌>>◌, Result, Bool, Bytes, Option, err, if◌then◌else◌, length, ok, ok_or,
  replicate, some, ℕ, ◌++◌, ◌-◌, ◌≡◌,
}
use passx.Memory.Guard.View.{secure_copy}

pub data TpmError : Type 0 where
  provider_open_failed key_create_failed encryption_failed decryption_failed tpm_unavailable :
      TpmError

-- `ncrypt_encrypt` and `ncrypt_decrypt` give the bytes written, the sizes what the first call of
-- each, with no buffer, asks for.
pub record Ncrypt : Type 0 where
  pub open_storage_provider : Bool
  pub open_key : Bool
  pub create_persisted_key : Bool
  pub finalize_key : Bool
  pub encrypt_size : Bytes → Option ℕ
  pub ncrypt_encrypt : Bytes → Option Bytes
  pub decrypt_size : Bytes → Option ℕ
  pub ncrypt_decrypt : Bytes → Option Bytes

-- A key that is persisted in the store decrypts what it encrypted, and the sizes that the store
-- asks for are those of the output.
pub record NcryptLaws (n : Ncrypt) : Type 0 where
  pub decrypt-encrypt :
      (m : Bytes) {c : Bytes} → n.ncrypt_encrypt m ≡ some c → n.ncrypt_decrypt c ≡ some m
  pub encrypt_size_exact :
      (m : Bytes) {c : Bytes} {k : ℕ}
      → n.ncrypt_encrypt m ≡ some c
      → n.encrypt_size m ≡ some k
      → k ≡ length c
  -- The size is a `DWORD`.
  pub encrypt_size_small : (m : Bytes) {k : ℕ} → n.encrypt_size m ≡ some k → k < 2 ^ 32
  pub decrypt_size_exact :
      (c : Bytes) {m : Bytes} → n.ncrypt_decrypt c ≡ some m → n.decrypt_size c ≡ some (length m)

module _ (n : Ncrypt) where
  unfoldable pub open_tpm_provider : Result TpmError (Unit {0})
  open_tpm_provider = if n.open_storage_provider then ok tt else err provider_open_failed

  unfoldable pub get_or_create_wrapping_key : Result TpmError (Unit {0})
  get_or_create_wrapping_key =
      if n.open_key
      then ok tt
      else if n.create_persisted_key
      then if n.finalize_key then ok tt else err key_create_failed
      else err key_create_failed

  unfoldable pub check_tpm_availability : Result TpmError (Unit {0})
  unfolding open_tpm_provider
  check_tpm_availability = open_tpm_provider

  -- `vec![0; size]`, of which a call overwrites the front.
  abbrev pub filled : ℕ → Bytes → Bytes
  filled size out = out ++ replicate (size - length out) 0

  unfoldable pub seal_key : Bytes → Result TpmError Bytes
  unfolding open_tpm_provider get_or_create_wrapping_key
  seal_key key = do
    open_tpm_provider
    get_or_create_wrapping_key
    size ← ok_or encryption_failed (n.encrypt_size key)
    out ← ok_or encryption_failed (n.ncrypt_encrypt key)
    ok (filled size out)

  -- The whole buffer is copied, whatever the second call says of the length that it wrote.
  unfoldable pub unseal_key : (ℕ → Bool) → Bytes → Result TpmError Bytes
  unfolding open_tpm_provider get_or_create_wrapping_key
  unseal_key alloc blob = do
    open_tpm_provider
    get_or_create_wrapping_key
    size ← ok_or decryption_failed (n.decrypt_size blob)
    out ← ok_or decryption_failed (n.ncrypt_decrypt blob)
    ok_or decryption_failed (secure_copy alloc (filled size out))
