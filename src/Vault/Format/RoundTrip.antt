-- ===== src/Vault/Format/RoundTrip.antt =====
-- `load_vault_from_reader` on what `save_vault_to_writer` wrote, both of src/vault/format.rs.
use passx.Base.{
  Bool, Bytes, List, Option, Result-cases, [], ap, append-nil, append_assoc, arith, drop, inl, inr,
  length, none, of_le_bytes, of_le_bytes-le_bytes64, ok, refl, slice, some, sym, true, ℕ, ◌++◌, ◌+◌,
  ◌-◌, ◌<◌, ◌^◌, ◌∙◌, ◌∷◌, ◌≡◌,
}
use passx.Crypto.Cipher.{encrypt, decrypt, derive_subkey}
use passx.Crypto.Cipher.RoundTrip.{
  derive_subkey_free, decrypt-encrypt, encrypt-eq-ok, encrypt-lengths, derive_subkey-eq-ok,
  stored_id,
}
use passx.Vault.Format.{
  Platform, Vault, VaultMode, device_bound, portable, content_aad, content_info, to_u8, mode_eq,
  format_version, kdf_version,
}
use passx.Vault.Format.Save.{
  Draws, IsDraws, Sink, empty_sink, write_chunks, prepare, save_vault_to_writer,
}
use passx.Vault.Format.Stages.{prepare-eq-ok}
use passx.Vault.Format.Load.{
  Header, parse_header, unwrap_key, decrypt_content, load_vault_from_reader,
}
use passx.Vault.Format.Wrap.{IsStored, PlatformLaws, Wraps-of}
use passx.Vault.Format.Layout.{
  joined, image, header, parse_header-image, sequence_at, content_nonce_at, ciphertext_at, tag_at,
}

-- Every `write_all` succeeds: the sink gets all chunks.
write_chunks_all :
    (accept : ℕ → Option ℕ) (cs : List Bytes) (w : Sink)
    → ((k : ℕ) → accept k ≡ none)
    → (write_chunks accept cs w).1.written ≡ w.written ++ joined cs
unfolding write_chunks
write_chunks_all accept [] w all = sym (append-nil w.written)
write_chunks_all accept (c ∷ cs) w all =
    rw (all w.calls, write_chunks)
      (write_chunks_all accept cs (record { written = w.written ++ c; calls = w.calls + 1 }) all
        ∙ append_assoc w.written c (joined cs))

module _ (p : Platform) (laws : PlatformLaws p) (alloc alloc' : ℕ → ℕ → Bool)
    (free : (i n : ℕ) → alloc' i n ≡ true) where
  decrypt_content_of :
      (buffer : Bytes) (h : Header) (key : Bytes) (seq : ℕ) (cn ct tag subkey plain : Bytes)
      (v : Vault)
      → of_le_bytes (slice h.offset_after_key (h.offset_after_key + 8) buffer) ≡ seq
      → slice (h.offset_after_key + 8) (h.offset_after_key + 8 + 24) buffer ≡ cn
      → slice (h.offset_after_key + 8 + 24) (length buffer - 16) buffer ≡ ct
      → drop (length buffer - 16) buffer ≡ tag
      → derive_subkey p.primitives (alloc' 4) key content_info ≡ ok subkey
      → decrypt p.primitives
          (alloc' 5)
          subkey
          cn
          tag
          ct
          (content_aad h.version (to_u8 h.mode) h.kdf h.salt seq)
        ≡ ok plain
      → p.deserialize plain ≡ some v
      → decrypt_content p alloc' buffer h key ≡ ok v
  unfolding decrypt_content
  decrypt_content_of buffer h key seq cn ct tag subkey plain v e1 e2 e3 e4 e5 e6 e7 =
      rw (e1, e2, e3, e4, e5, e6, e7)

  decrypt_content_lem :
      (d : Draws) (v : Vault) (key : Bytes) (mode : VaultMode) (wk wn : Bytes)
      {subkey plain ct cn tag : Bytes}
      → IsDraws d
      → IsStored v
      → v.sequence_number < 2 ^ 64
      → length wn ≡ 24
      → length wk < 2 ^ 32
      → derive_subkey p.primitives (alloc 3) key content_info ≡ ok subkey
      → p.serialize v ≡ some plain
      → encrypt p.primitives
          (alloc 4)
          d.content_nonce
          subkey
          plain
          (content_aad format_version (to_u8 mode) kdf_version d.salt v.sequence_number)
        ≡ ok (ct, cn, tag)
      → decrypt_content p alloc'
          (image mode d.salt wn wk v.sequence_number cn ct tag)
          (header mode d.salt wn wk v.sequence_number cn ct tag)
          key
        ≡ ok v
  decrypt_content_lem d v key mode wk wn {subkey} {plain} {ct} {cn} {tag} draws sound fits hw small
        e_sub e_ser e_seal =
      let aad = content_aad format_version (to_u8 mode) kdf_version d.salt v.sequence_number in
      let (_, e_cn, _) =
        encrypt-eq-ok p.primitives (alloc 4) d.content_nonce subkey plain aad e_seal in
      let (_, _, ht) =
        encrypt-lengths p.primitives laws.aead (alloc 4) d.content_nonce subkey plain aad e_seal in
      let hn : length cn ≡ 24 = ap (λ (xs : Bytes). length xs) e_cn ∙ draws.length_content_nonce in
      let e_sub' =
        derive_subkey_free p.primitives laws.aead (alloc 3) (alloc' 4) key content_info (free 4)
          e_sub in
      let opened =
        decrypt-encrypt p.primitives laws.aead (alloc 4) (alloc' 5) d.content_nonce subkey plain aad
          (free 5) e_seal in
      let full = stored_id plain (laws.serialize_nonempty v e_ser) in
      decrypt_content_of (image mode d.salt wn wk v.sequence_number cn ct tag)
        (header mode d.salt wn wk v.sequence_number cn ct tag) key v.sequence_number cn ct tag
        subkey plain v
        (ap of_le_bytes
            (sequence_at mode d.salt wn wk v.sequence_number cn ct tag draws.length_salt hw hn ht)
          ∙ of_le_bytes-le_bytes64 v.sequence_number fits)
        (content_nonce_at mode d.salt wn wk v.sequence_number cn ct tag draws.length_salt hw hn ht)
        (ciphertext_at mode d.salt wn wk v.sequence_number cn ct tag draws.length_salt hw hn ht)
        (tag_at mode d.salt wn wk v.sequence_number cn ct tag draws.length_salt hw hn ht) e_sub'
        (opened ∙ ap ok full) (laws.deserialize-serialize v sound e_ser)

  mode_eq_refl : (m : VaultMode) → mode_eq m m ≡ true
  unfolding mode_eq
  mode_eq_refl portable = refl
  mode_eq_refl device_bound = refl

  load_of :
      (buffer : Bytes) (hd : Header) (key : Bytes) (v : Vault) (password : Option Bytes)
      → parse_header buffer ≡ ok hd
      → unwrap_key p alloc' hd.mode hd password ≡ ok key
      → decrypt_content p alloc' buffer hd key ≡ ok v
      → mode_eq v.mode hd.mode ≡ true
      → load_vault_from_reader p alloc' (some buffer) password ≡ ok (v, key, hd.mode)
  unfolding load_vault_from_reader
  load_of buffer hd key v password e1 e2 e3 e4 = rw (e1, e2, e3, e4)

  load_image :
      (d : Draws) (v : Vault) (key : Bytes) (mode : VaultMode) (password : Option Bytes)
      {cs : List Bytes}
      → IsDraws d
      → IsStored v
      → v.mode ≡ mode
      → v.sequence_number < 2 ^ 64
      → prepare p alloc d v key mode password ≡ ok cs
      → load_vault_from_reader p alloc' (some (joined cs)) password ≡ ok (v, key, mode)
  load_image d v key mode password draws sound same fits prepared =
      let (wk, wn, subkey, plain, ct, cn, tag, e_wrap, e_sub, e_ser, e_seal, e_cs) =
        prepare-eq-ok p alloc d v key mode password prepared in
      let (size, _) = derive_subkey-eq-ok p.primitives laws.aead (alloc 3) key content_info e_sub in
      let wraps = Wraps-of p laws alloc alloc' free mode d key password size e_wrap in
      let aad = content_aad format_version (to_u8 mode) kdf_version d.salt v.sequence_number in
      let (_, e_cn, _) =
        encrypt-eq-ok p.primitives (alloc 4) d.content_nonce subkey plain aad e_seal in
      let (_, _, ht) =
        encrypt-lengths p.primitives laws.aead (alloc 4) d.content_nonce subkey plain aad e_seal in
      let hn : length cn ≡ 24 = ap (λ (xs : Bytes). length xs) e_cn ∙ draws.length_content_nonce in
      let hw : length wn ≡ 24 =
        ap (λ (xs : Bytes). length xs) wraps.same_nonce ∙ draws.length_wrapper_nonce in
      let hd = header mode d.salt wn wk v.sequence_number cn ct tag in
      let unwrapped : unwrap_key p alloc' mode hd password ≡ ok key =
        wraps.unwraps hd refl refl refl ∙ ap ok (stored_id key (omega (arith, size))) in
      rw e_cs (
        load_of (image mode d.salt wn wk v.sequence_number cn ct tag) hd key v password
          (parse_header-image mode d.salt wn wk v.sequence_number cn ct tag draws.length_salt hw hn
            ht wraps.small)
          unwrapped
          (decrypt_content_lem d v key mode wk wn draws sound fits hw wraps.small e_sub e_ser
            e_seal)
          (rw same (mode_eq_refl mode)))

  -- When every write succeeds, a file that was saved in a vault's own mode loads under the same
  -- password to the same vault, master key and mode. The sequence number has 64 bits.
  pub load_vault-save_vault :
      (accept : ℕ → Option ℕ) (d : Draws) (v : Vault) (key : Bytes) (mode : VaultMode)
      (password : Option Bytes)
      → IsDraws d
      → IsStored v
      → v.mode ≡ mode
      → v.sequence_number < 2 ^ 64
      → ((k : ℕ) → accept k ≡ none)
      → (save_vault_to_writer p alloc accept d empty_sink v key mode password).0 ≡ ok tt
      → load_vault_from_reader p alloc'
          (some (save_vault_to_writer p alloc accept d empty_sink v key mode password).1.written)
          password
        ≡ ok (v, key, mode)
  unfolding save_vault_to_writer load_vault_from_reader
  load_vault-save_vault accept d v key mode password draws sound same fits all h =
      elim (Result-cases (prepare p alloc d v key mode password)) [
        | inr (e, failed) ↦ unfold save_vault_to_writer in cc
        | inl (cs, prepared) ↦
            rw (prepared, save_vault_to_writer)
              (rw (write_chunks_all accept cs empty_sink all)
                (load_image d v key mode password draws sound same fits prepared))
      ]
