-- ===== src/Tpm/Sealing/RoundTrip.antt =====
-- Unsealing what was sealed.
use passx.Base.{
  ◌^◌, Bool, Bytes, ap, append-nil, arith, length, length-append, length-replicate, ok, replicate,
  some, true, ℕ, ◌++◌, ◌+◌, ◌-◌, ◌<◌, ◌∙◌, ◌≡◌, ◌≢◌,
}
use passx.Crypto.Cipher.RoundTrip.{secure_copy_all, stored_id}
use passx.Memory.Guard.Content.{stored}
use passx.Tpm.Sealing.{
  Ncrypt, NcryptLaws, open_tpm_provider, get_or_create_wrapping_key, seal_key, unseal_key, filled,
}

filled_exact : (n : Ncrypt) (out : Bytes) → filled n (length out) out ≡ out
filled_exact n out = let e : length out - length out ≡ 0 = omega arith in rw e (append-nil out)

module _ (n : Ncrypt) where
  pub seal_key-eq-ok :
      (key : Bytes) {blob : Bytes}
      → seal_key n key ≡ ok blob
      → (size : ℕ) × (out : Bytes) × (open_tpm_provider n ≡ ok tt)
        × (get_or_create_wrapping_key n ≡ ok tt)
        × (n.encrypt_size key ≡ some size)
        × (n.ncrypt_encrypt key ≡ some out)
        × (blob ≡ filled n size out)
  unfolding seal_key
  seal_key-eq-ok key h = ground arith

  unseal_key_lem :
      (alloc : ℕ → Bool) (blob out : Bytes) (size : ℕ)
      → open_tpm_provider n ≡ ok tt
      → get_or_create_wrapping_key n ≡ ok tt
      → n.decrypt_size blob ≡ some size
      → n.ncrypt_decrypt blob ≡ some out
      → ((k : ℕ) → alloc k ≡ true)
      → unseal_key n alloc blob ≡ ok (stored (filled n size out))
  unfolding unseal_key
  unseal_key_lem alloc blob out size ho hk hs hd free =
      ground (arith, secure_copy_all alloc (filled n size out) free)

  module _ (laws : NcryptLaws n) where
    -- A key that was sealed unseals to itself (an empty one to a zero byte) on a device whose key
    -- store keeps the wrapping key and asks for exact sizes, when memory can be allocated.
    pub unseal_key-seal_key :
        (alloc : ℕ → Bool) (key : Bytes) {blob : Bytes}
        → ((k : ℕ) → alloc k ≡ true)
        → seal_key n key ≡ ok blob
        → unseal_key n alloc blob ≡ ok (stored key)
    unseal_key-seal_key alloc key {blob} free h =
        let (size, out, ho, hk, hs, he, hb) = seal_key-eq-ok key h in
        let exact = laws.encrypt_size_exact key he hs in
        let whole : blob ≡ out = hb ∙ ap (λ k. filled n k out) exact ∙ filled_exact n out in
        let back = laws.decrypt-encrypt key he in
        rw whole (
          unseal_key_lem alloc out key (length key) ho hk (laws.decrypt_size_exact out back) back
            free
          ∙ ap (λ k. ok (stored k)) (filled_exact n key))

    pub length-seal_key :
        (key : Bytes) {blob : Bytes} → seal_key n key ≡ ok blob → length blob < 2 ^ 32
    length-seal_key key {blob} h =
        let (size, out, _, _, hs, he, hb) = seal_key-eq-ok key h in
        let exact = laws.encrypt_size_exact key he hs in
        let whole : blob ≡ out = hb ∙ ap (λ k. filled n k out) exact ∙ filled_exact n out in
        rw whole (omega (arith, exact, laws.encrypt_size_small key hs))

  -- Where the key store asks for more room than the plaintext takes, the unsealed key is followed by
  -- zeros up to the size asked for, so it is another byte string than the one that was sealed.
  unseal_key_padded :
      (alloc : ℕ → Bool) (blob out : Bytes) (size : ℕ)
      → open_tpm_provider n ≡ ok tt
      → get_or_create_wrapping_key n ≡ ok tt
      → n.decrypt_size blob ≡ some size
      → n.ncrypt_decrypt blob ≡ some out
      → ((k : ℕ) → alloc k ≡ true)
      → length out < size
      → (unseal_key n alloc blob ≡ ok (out ++ replicate (size - length out) 0))
        × (unseal_key n alloc blob ≢ ok out)
  unseal_key_padded alloc blob out size ho hk hs hd free larger =
      let long : length (filled n size out) ≡ size =
        length-append out (replicate (size - length out) 0)
        ∙ ap (λ (k : ℕ). length out + k) (length-replicate {A = ℕ} (size - length out) 0)
        ∙ omega arith in
      let whole : unseal_key n alloc blob ≡ ok (filled n size out) =
        unseal_key_lem alloc blob out size ho hk hs hd free
        ∙ ap ok (stored_id (filled n size out) (omega (arith, long))) in
      (
        whole,
        λ e.
            let same : filled n size out ≡ out = cc in
            absurd (omega (arith, long, ap (λ (xs : Bytes). length xs) same)),
      )
