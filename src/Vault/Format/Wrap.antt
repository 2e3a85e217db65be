-- ===== src/Vault/Format/Wrap.antt =====
-- The master key in the header of src/vault/format.rs: what a vault must be to be stored, what the
-- platform documents, and `unwrap_key` after `wrap_key`.
use passx.Base.{
  All, Bool, Bytes, Option, ap, arith, drop_length, length, length-append, ltb-false, ok, refl,
  some, take-append, true, ℕ, ◌++◌, ◌-◌, ◌<◌, ◌^◌, ◌∙◌, ◌≡◌,
}
use passx.Crypto.Cipher.{encrypt, tag_size}
use passx.Crypto.Cipher.RoundTrip.{
  decrypt-encrypt, encrypt-eq-ok, encrypt-lengths, secure_copy_all, secure_copy-eq-some, stored_id,
  stored_nonempty,
}
use passx.Crypto.Kdf.{derive_key-eq-ok, derive_key_all}
use passx.Crypto.Primitives.{AeadLaws}
use passx.Memory.Guard.Content.{stored}
use passx.Tpm.Sealing.{NcryptLaws}
use passx.Tpm.Sealing.RoundTrip.{unseal_key-seal_key, length-seal_key}
use passx.Vault.Entry.{HasBuffers, HasSecret}
use passx.Vault.Format.{
  Platform, Vault, VaultMode, device_bound, portable, device_bound_aad, portable_aad,
}
use passx.Vault.Format.Stages.{portable-eq-ok, device_bound-eq-ok}
use passx.Vault.Format.Save.{Draws, wrap_key}
use passx.Vault.Format.Load.{Header, decrypt_wrapper, unwrap_key}

pub record IsStored (v : Vault) : Type 0 where
  pub accounts_stored : All HasBuffers v.accounts
  pub totps_stored : All HasSecret v.totps

-- What the crates, the key store and bincode document. bincode reads a buffer back by `from_slice`,
-- so its round trip is assumed where no buffer is empty.
pub record PlatformLaws (p : Platform) : Type 0 where
  pub aead : AeadLaws p.primitives
  pub store : NcryptLaws p.ncrypt
  pub serialize_nonempty :
      (v : Vault) {bytes : Bytes} → p.serialize v ≡ some bytes → 0 < length bytes
  pub deserialize-serialize :
      (v : Vault) {bytes : Bytes}
      → IsStored v
      → p.serialize v ≡ some bytes
      → p.deserialize bytes ≡ some v

stored-stored : (xs : Bytes) → stored (stored xs) ≡ stored xs
stored-stored xs = stored_id (stored xs) (stored_nonempty xs)

module _ (p : Platform) (laws : PlatformLaws p) (alloc alloc' : ℕ → ℕ → Bool)
    (free : (i n : ℕ) → alloc' i n ≡ true) where
  decrypt_wrapper_lem :
      (nonce kek key aad : Bytes) {c n t : Bytes}
      → encrypt p.primitives (alloc 1) nonce kek key aad ≡ ok (c, n, t)
      → decrypt_wrapper p alloc' kek n (c ++ t) aad ≡ ok (stored key)
  unfolding decrypt_wrapper
  decrypt_wrapper_lem nonce kek key aad {c} {n} {t} h =
      let (_, _, ht) = encrypt-lengths p.primitives laws.aead (alloc 1) nonce kek key aad h in
      let long = length-append c t in
      let start : length (c ++ t) - tag_size ≡ length c = omega (arith, long, ht) in
      let opened =
        decrypt-encrypt p.primitives laws.aead (alloc 1) (alloc' 2) nonce kek key aad (free 2) h in
      rw (
        ltb-false (length (c ++ t)) tag_size (omega (arith, long, ht)),
        start,
        drop_length (length c) c t refl,
        take-append (length c) c t refl,
        opened,
        secure_copy_all (alloc' 3) (stored key) (free 3),
        stored-stored key,
      )

  -- What `unwrap_key` needs of a header to recover the key that `wrap_key` wrapped.
  pub record Wraps (mode : VaultMode) (d : Draws) (key : Bytes) (password : Option Bytes)
      (wk wn : Bytes) : Type 0 where
    pub same_nonce : wn ≡ d.wrapper_nonce
    pub small : length wk < 2 ^ 32
    pub unwraps :
        (h : Header)
        → h.salt ≡ d.salt
        → h.wrapper_nonce ≡ wn
        → h.wrapped_key ≡ wk
        → unwrap_key p alloc' mode h password ≡ ok (stored key)

  portable-Wraps :
      (d : Draws) (key : Bytes) (password : Option Bytes) {wk wn : Bytes}
      → length key ≡ 32
      → wrap_key p alloc portable d key password ≡ ok (wk, wn)
      → Wraps portable d key password wk wn
  unfolding unwrap_key
  portable-Wraps d key password {wk} {wn} size h =
      let (pass, kek, c, t, e_pass, e_kek, e_seal, e_wk) =
        portable-eq-ok p alloc d key password h in
      let (_, e_nonce, _) =
        encrypt-eq-ok p.primitives (alloc 1) d.wrapper_nonce kek key portable_aad e_seal in
      let (_, hc, ht) =
        encrypt-lengths p.primitives laws.aead (alloc 1) d.wrapper_nonce kek key portable_aad
          e_seal in
      let hk : stored key ≡ key = stored_id key (omega (arith, size)) in
      let kek' =
        derive_key_all p.primitives (alloc' 1) pass d.salt (free 1)
          (derive_key-eq-ok p.primitives (alloc 0) pass d.salt e_kek) in
      record {
        same_nonce = e_nonce;
        small =
            rw (e_wk, length-append c t)
              (omega (arith, hc, ht, size, ap (λ (xs : Bytes). length xs) hk));
        unwraps = λ hd es en ek.
            rw (e_pass, es, en, ek, e_wk, kek')
              (decrypt_wrapper_lem d.wrapper_nonce kek key portable_aad e_seal);
      }

  device_bound-Wraps :
      (d : Draws) (key : Bytes) (password : Option Bytes) {wk wn : Bytes}
      → wrap_key p alloc device_bound d key password ≡ ok (wk, wn)
      → Wraps device_bound d key password wk wn
  unfolding unwrap_key
  device_bound-Wraps d key password {wk} {wn} h =
      let (pass, kek, c, t, blob, e_pass, e_kek, e_seal, e_blob, e_wk) =
        device_bound-eq-ok p alloc d key password h in
      let (_, e_nonce, _) =
        encrypt-eq-ok p.primitives (alloc 1) d.wrapper_nonce kek key device_bound_aad e_seal in
      let (pos, _, _) =
        encrypt-lengths p.primitives laws.aead (alloc 1) d.wrapper_nonce kek key device_bound_aad
          e_seal in
      let e_ct : blob ≡ c ++ t =
        secure_copy-eq-some (alloc 2) (c ++ t) e_blob
        ∙ stored_id (c ++ t) (omega (arith, pos, length-append c t)) in
      let e_stored : stored blob ≡ c ++ t =
        ap stored (secure_copy-eq-some (alloc 2) (c ++ t) e_blob)
        ∙ stored-stored (c ++ t)
        ∙ stored_id (c ++ t) (omega (arith, pos, length-append c t)) in
      let opened = unseal_key-seal_key p.ncrypt laws.store (alloc' 0) blob (free 0) e_wk in
      let kek' =
        derive_key_all p.primitives (alloc' 1) pass d.salt (free 1)
          (derive_key-eq-ok p.primitives (alloc 0) pass d.salt e_kek) in
      record {
        same_nonce = e_nonce;
        small = length-seal_key p.ncrypt laws.store blob e_wk;
        unwraps = λ hd es en ek.
            rw (e_pass, es, en, ek, opened, kek', e_stored)
              (decrypt_wrapper_lem d.wrapper_nonce kek key device_bound_aad e_seal);
      }

  pub Wraps-of :
      (mode : VaultMode) (d : Draws) (key : Bytes) (password : Option Bytes) {wk wn : Bytes}
      → length key ≡ 32
      → wrap_key p alloc mode d key password ≡ ok (wk, wn)
      → Wraps mode d key password wk wn
  Wraps-of portable d key password size h = portable-Wraps d key password size h
  Wraps-of device_bound d key password size h = device_bound-Wraps d key password h
