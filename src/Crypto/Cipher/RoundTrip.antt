-- ===== src/Crypto/Cipher/RoundTrip.antt =====
-- `decrypt` after `encrypt`, and what a successful `decrypt` says.
use passx.Base.{
  Bool, Bytes, [], ap, arith, bytes_eq_iff, bytes_eq_refl, length, ok, refl, some, true, ℕ, ◌<◌,
  ◌↔◌, ◌∙◌, ◌∷◌, ◌≡◌,
}
use passx.Crypto.Primitives.{Primitives, AeadLaws}
use passx.Crypto.Cipher.{key_size, encrypt, decrypt, derive_subkey, constant_time_eq}
use passx.Memory.Guard.Content.{stored}
use passx.Memory.Guard.View.{secure_copy}

pub stored_nonempty : (xs : Bytes) → 0 < length (stored xs)
stored_nonempty [] = omega arith
stored_nonempty (x ∷ xs) = omega arith

pub stored_id : (xs : Bytes) → 0 < length xs → stored xs ≡ xs
stored_id [] h = absurd (omega arith)
stored_id (x ∷ xs) h = refl

pub secure_copy-eq-some :
    (alloc : ℕ → Bool) (xs : Bytes) {ys : Bytes} → secure_copy alloc xs ≡ some ys → ys ≡ stored xs
unfolding secure_copy
secure_copy-eq-some alloc xs h = ground arith

pub secure_copy_all :
    (alloc : ℕ → Bool) (xs : Bytes)
    → ((n : ℕ) → alloc n ≡ true)
    → secure_copy alloc xs ≡ some (stored xs)
unfolding secure_copy
secure_copy_all alloc xs h = rw (h (length (stored xs)))

module _ (p : Primitives) where
  -- Inversion of a successful encryption.
  pub encrypt-eq-ok :
      (alloc : ℕ → Bool) (nonce key m aad : Bytes) {c n t : Bytes}
      → encrypt p alloc nonce key m aad ≡ ok (c, n, t)
      → (length key ≡ key_size) × (n ≡ nonce) × (p.aead_seal key nonce aad (stored m) ≡ some (c, t))
  unfolding encrypt secure_copy
  encrypt-eq-ok alloc nonce key m aad h = ground arith

module _ (p : Primitives) (laws : AeadLaws p) where
  pub encrypt-lengths :
      (alloc : ℕ → Bool) (nonce key m aad : Bytes) {c n t : Bytes}
      → encrypt p alloc nonce key m aad ≡ ok (c, n, t)
      → (0 < length c) × (length c ≡ length (stored m)) × (length t ≡ 16)
  encrypt-lengths alloc nonce key m aad h =
      let (_, _, sealed) = encrypt-eq-ok p alloc nonce key m aad h in
      let long = laws.length_ciphertext key nonce aad (stored m) sealed in
      (
        omega (arith, stored_nonempty m, long),
        long,
        laws.length_tag key nonce aad (stored m) sealed,
      )

  -- What `encrypt` returned decrypts, under the same key and associated data, to the plaintext (one
  -- zero byte for the empty one), if the buffer for it can be allocated.
  pub decrypt-encrypt :
      (alloc alloc' : ℕ → Bool) (nonce key m aad : Bytes) {c n t : Bytes}
      → ((k : ℕ) → alloc' k ≡ true)
      → encrypt p alloc nonce key m aad ≡ ok (c, n, t)
      → decrypt p alloc' key n t c aad ≡ ok (stored m)
  unfolding decrypt
  decrypt-encrypt alloc alloc' nonce key m aad {c} {n} {t} free h =
      let (size, same, sealed) = encrypt-eq-ok p alloc nonce key m aad h in
      let (pos, _, _) = encrypt-lengths alloc nonce key m aad h in
      let whole : secure_copy alloc' c ≡ some c =
        secure_copy_all alloc' c free ∙ ap some (stored_id c pos) in
      let opened : p.aead_open key n aad t c ≡ some (stored m) =
        rw same (laws.open-seal key nonce aad (stored m) sealed) in
      rw (size, whole, opened)

  pub derive_subkey-eq-ok :
      (alloc : ℕ → Bool) (key info : Bytes) {k : Bytes}
      → derive_subkey p alloc key info ≡ ok k
      → (length key ≡ key_size) × (p.hkdf_expand key info ≡ some k)
  unfolding derive_subkey
  derive_subkey-eq-ok alloc key info h = ground arith

  pub derive_subkey_free :
      (alloc alloc' : ℕ → Bool) (key info : Bytes) {k : Bytes}
      → ((n : ℕ) → alloc' n ≡ true)
      → derive_subkey p alloc key info ≡ ok k
      → derive_subkey p alloc' key info ≡ ok k
  unfolding derive_subkey
  derive_subkey_free alloc alloc' key info free h =
      let (size, okm) = derive_subkey-eq-ok alloc key info h in rw (size, free key_size, okm)

-- The comparison that is meant to take constant time answers whether the two secrets are equal.
constant_time_eq_iff : (a b : Bytes) → (constant_time_eq a b ≡ true) ↔ (a ≡ b)
unfolding constant_time_eq
constant_time_eq_iff a b =
    (λ h. ground (arith, (bytes_eq_iff a b).0), λ e. rw e (ground (arith, bytes_eq_refl b)))
