-- ===== src/Crypto/Kdf.antt =====
-- src/crypto/kdf.rs and `derive_key_from_phrase` of src/crypto/recovery.rs.
use passx.Base.{
  Result, Bool, Bytes, Text, arith, err, if◌then◌else◌, ok, ok_or, some, true, ℕ, ◌↔◌, ◌≡◌,
}
use passx.Crypto.Primitives.{Primitives}

abbrev pub salt_len : ℕ
salt_len = 32

abbrev pub key_len : ℕ
key_len = 32

pub data KdfError : Type 0 where
  derivation_failed invalid_params : KdfError

module _ (p : Primitives) where
  -- The one parameter set is in `argon2_hash`; the output goes to a buffer of `key_len` bytes.
  unfoldable pub derive_key : (ℕ → Bool) → Bytes → Bytes → Result KdfError Bytes
  derive_key alloc password salt =
      if alloc key_len
      then ok_or derivation_failed (p.argon2_hash password salt)
      else err derivation_failed

  unfoldable pub derive_key_from_phrase : (ℕ → Bool) → Text → Bytes → Result KdfError Bytes
  derive_key_from_phrase alloc phrase salt =
      if p.mnemonic_valid phrase then derive_key alloc phrase salt else err derivation_failed

  -- A key comes from a recovery phrase exactly when the phrase is a valid mnemonic and the same
  -- derivation as for a master password, under the same salt, gives that key.
  derive_key_from_phrase_iff :
      (alloc : ℕ → Bool) (phrase : Text) (salt : Bytes) (key : Bytes)
      → (derive_key_from_phrase alloc phrase salt ≡ ok key)
        ↔ ((p.mnemonic_valid phrase ≡ true) × (derive_key alloc phrase salt ≡ ok key))
  unfolding derive_key_from_phrase
  derive_key_from_phrase_iff alloc phrase salt key = (λ h. ground arith, λ h. ground arith)

  pub derive_key-eq-ok :
      (alloc : ℕ → Bool) (password salt : Bytes) {key : Bytes}
      → derive_key alloc password salt ≡ ok key
      → p.argon2_hash password salt ≡ some key
  unfolding derive_key
  derive_key-eq-ok alloc password salt h = ground arith

  pub derive_key_all :
      (alloc : ℕ → Bool) (password salt : Bytes) {key : Bytes}
      → ((n : ℕ) → alloc n ≡ true)
      → p.argon2_hash password salt ≡ some key
      → derive_key alloc password salt ≡ ok key
  unfolding derive_key
  derive_key_all alloc password salt free h = rw (free key_len, h)
