-- ===== src/Crypto/Primitives.antt =====
-- What src/crypto calls of the crates chacha20poly1305, hkdf, argon2 and bip39, with what those
-- crates document.
use passx.Base.{Bool, Bytes, Option, Text, length, some, ◌≡◌}

pub record Primitives : Type 0 where
  -- `encrypt_in_place_detached`: key, nonce, associated data, plaintext; ciphertext and tag.
  pub aead_seal : Bytes → Bytes → Bytes → Bytes → Option (Bytes × Bytes)
  -- `decrypt_in_place_detached`: key, nonce, associated data, tag, ciphertext.
  pub aead_open : Bytes → Bytes → Bytes → Bytes → Bytes → Option Bytes
  -- `Hkdf::<Sha256>::new(None, key)` expanded to 32 bytes with the given info.
  pub hkdf_expand : Bytes → Bytes → Option Bytes
  -- `hash_password_into` with the fixed Argon2id parameters: password, salt.
  pub argon2_hash : Bytes → Bytes → Option Bytes
  -- `Mnemonic::parse_in_normalized` accepts the phrase.
  pub mnemonic_valid : Text → Bool

-- XChaCha20-Poly1305: the ciphertext is as long as the plaintext, the tag has 16 bytes and is
-- determined by the other values, and decryption accepts exactly what encryption gives.
pub record AeadLaws (p : Primitives) : Type 0 where
  pub open-seal :
      (k n a m : Bytes) {c t : Bytes}
      → p.aead_seal k n a m ≡ some (c, t)
      → p.aead_open k n a t c ≡ some m
  pub seal-open :
      (k n a t c : Bytes) {m : Bytes}
      → p.aead_open k n a t c ≡ some m
      → p.aead_seal k n a m ≡ some (c, t)
  pub length_ciphertext :
      (k n a m : Bytes) {c t : Bytes} → p.aead_seal k n a m ≡ some (c, t) → length c ≡ length m
  pub length_tag :
      (k n a m : Bytes) {c t : Bytes} → p.aead_seal k n a m ≡ some (c, t) → length t ≡ 16
