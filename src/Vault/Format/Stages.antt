-- ===== src/Vault/Format/Stages.antt =====
-- What a successful `wrap_key` and a successful `prepare` of src/vault/format.rs went through.
use passx.Base.{
  >>=-eq-ok, Bool, Bytes, List, Option, ap, map_err, map_err-eq-ok, ok, ok_or, ok_or-eq-ok, some, ℕ,
  ◌++◌, ◌>>=◌, ◌∙◌, ◌≡◌,
}
use passx.Crypto.Cipher.{encrypt, derive_subkey, key_precomputation_failed}
use passx.Crypto.Kdf.{derive_key}
use passx.Memory.Guard.View.{secure_copy}
use passx.Tpm.Sealing.{seal_key}
use passx.Vault.Format.{
  Platform, Vault, VaultMode, device_bound, portable, crypto_error, tpm_error, device_bound_aad,
  portable_aad, content_aad, content_info, to_u8, format_version, kdf_version,
}
use passx.Vault.Format.Save.{Draws, wrap_key, prepare}
use passx.Vault.Format.Layout.{chunks}

module _ (p : Platform) (alloc : ℕ → ℕ → Bool) where
  -- Inversion of `wrap_key`.
  pub portable-eq-ok :
      (d : Draws) (key : Bytes) (password : Option Bytes) {wk wn : Bytes}
      → wrap_key p alloc portable d key password ≡ ok (wk, wn)
      → (pass kek c t : Bytes) × (password ≡ some pass)
        × (derive_key p.primitives (alloc 0) pass d.salt ≡ ok kek)
        × (encrypt p.primitives (alloc 1) d.wrapper_nonce kek key portable_aad ≡ ok (c, wn, t))
        × (wk ≡ c ++ t)
  unfolding wrap_key
  portable-eq-ok d key password {wk} {wn} h =
      let (pass, e_pass, h1) = >>=-eq-ok _ _ h in
      let (kek, e_kek, h2) = >>=-eq-ok _ _ h1 in
      let (sealed, e_seal, h3) =
        >>=-eq-ok {A = Bytes × Bytes × Bytes} _ (λ x. ok (x.0 ++ x.2, x.1)) h2 in
      let same_nonce : sealed.1 ≡ wn = cc in
      let same_key : wk ≡ sealed.0 ++ sealed.2 = cc in
      (
        pass,
        kek,
        sealed.0,
        sealed.2,
        ok_or-eq-ok _ _ e_pass,
        map_err-eq-ok _ _ e_kek,
        map_err-eq-ok _ _ e_seal ∙ ap (λ n. ok (sealed.0, n, sealed.2)) same_nonce,
        same_key,
      )

  pub device_bound-eq-ok :
      (d : Draws) (key : Bytes) (password : Option Bytes) {wk wn : Bytes}
      → wrap_key p alloc device_bound d key password ≡ ok (wk, wn)
      → (pass kek c t blob : Bytes) × (password ≡ some pass)
        × (derive_key p.primitives (alloc 0) pass d.salt ≡ ok kek)
        × (encrypt p.primitives (alloc 1) d.wrapper_nonce kek key device_bound_aad ≡ ok (c, wn, t))
        × (secure_copy (alloc 2) (c ++ t) ≡ some blob)
        × (seal_key p.ncrypt blob ≡ ok wk)
  unfolding wrap_key
  device_bound-eq-ok d key password {wk} {wn} h =
      let (pass, e_pass, h1) = >>=-eq-ok _ _ h in
      let (kek, e_kek, h2) = >>=-eq-ok _ _ h1 in
      let (sealed, e_seal, h3) =
        >>=-eq-ok {A = Bytes × Bytes × Bytes} _
          (λ x.
            ok_or (crypto_error key_precomputation_failed) (secure_copy (alloc 2) (x.0 ++ x.2))
            >>= λ b. map_err tpm_error (seal_key p.ncrypt b) >>= λ o. ok (o, x.1))
          h2 in
      let (blob, e_blob, h4) = >>=-eq-ok _ _ h3 in
      let (out, e_out, h5) = >>=-eq-ok _ _ h4 in
      let same_nonce : sealed.1 ≡ wn = cc in
      let same_key : out ≡ wk = cc in
      (
        pass,
        kek,
        sealed.0,
        sealed.2,
        blob,
        ok_or-eq-ok _ _ e_pass,
        map_err-eq-ok _ _ e_kek,
        map_err-eq-ok _ _ e_seal ∙ ap (λ n. ok (sealed.0, n, sealed.2)) same_nonce,
        ok_or-eq-ok _ _ e_blob,
        map_err-eq-ok _ _ e_out ∙ ap ok same_key,
      )

  -- Inversion of `prepare`: the chunks of an image, and how its parts were made.
  pub prepare-eq-ok :
      (d : Draws) (v : Vault) (key : Bytes) (mode : VaultMode) (password : Option Bytes)
      {cs : List Bytes}
      → prepare p alloc d v key mode password ≡ ok cs
      → (wk wn subkey plain ct cn tag : Bytes) × (wrap_key p alloc mode d key password
          ≡ ok (wk, wn))
        × (derive_subkey p.primitives (alloc 3) key content_info ≡ ok subkey)
        × (p.serialize v ≡ some plain)
        × (encrypt p.primitives
              (alloc 4)
              d.content_nonce
              subkey
              plain
              (content_aad format_version (to_u8 mode) kdf_version d.salt v.sequence_number)
            ≡ ok (ct, cn, tag))
        × (cs ≡ chunks mode d.salt wn wk v.sequence_number cn ct tag)
  unfolding prepare
  prepare-eq-ok d v key mode password {cs} h =
      let (wrapped, e_wrap, h1) = >>=-eq-ok {A = Bytes × Bytes} _ _ h in
      let (subkey, e_sub, h2) = >>=-eq-ok _ _ h1 in
      let (plain, e_ser, h3) = >>=-eq-ok _ _ h2 in
      let (sealed, e_seal, h4) = >>=-eq-ok {A = Bytes × Bytes × Bytes} _ _ h3 in
      (
        wrapped.0,
        wrapped.1,
        subkey,
        plain,
        sealed.0,
        sealed.1,
        sealed.2,
        e_wrap,
        map_err-eq-ok _ _ e_sub,
        ok_or-eq-ok _ _ e_ser,
        map_err-eq-ok _ _ e_seal,
        cc,
      )
