-- ===== src/Vault/Format/Layout.antt =====
-- The image of a vault file: where each field of the header lies, and that it parses.
use passx.Base.{
  append-nil, ◌≤◌, true, ◌-◌, bytes_eq, ltb-false, take, of_le_bytes, ok, ◌<◌, arith, length-append,
  Bytes, List, [], ap, drop, drop-append, drop_add, drop_length, le_bytes, length, refl, slice,
  some, take-append, ℕ, ◌%◌, ◌++◌, ◌+◌, ◌^◌, ◌∙◌, ◌∷◌, ◌≡◌,
}
use passx.Vault.Format.{
  VaultMode, device_bound, portable, to_u8, from_u8, magic, format_version, kdf_version,
}
use passx.Vault.Format.Load.{Header, parse_header}

abbrev pub joined : List Bytes → Bytes
joined [] = []
joined (c ∷ cs) = c ++ joined cs

pub from_u8-to_u8 : (m : VaultMode) → from_u8 (to_u8 m) ≡ some m
unfolding from_u8 to_u8
from_u8-to_u8 device_bound = refl
from_u8-to_u8 portable = refl

-- `parse_header` on a buffer whose fields are known.
parse_header_lem :
    (buffer : Bytes) (m : VaultMode) (w : ℕ)
    → bytes_eq (slice 0 6 buffer) magic ≡ true
    → of_le_bytes (slice 6 10 buffer) ≡ format_version
    → of_le_bytes (slice 10 11 buffer) ≡ to_u8 m
    → of_le_bytes (slice 11 12 buffer) ≡ kdf_version
    → of_le_bytes (slice 68 72 buffer) ≡ w
    → 72 + w + 8 + 24 + 16 ≤ length buffer
    → parse_header buffer
      ≡ ok (record {
        version = format_version;
        mode = m;
        kdf = kdf_version;
        salt = slice 12 44 buffer;
        wrapper_nonce = slice 44 68 buffer;
        wrapped_key = slice 72 (72 + w) buffer;
        offset_after_key = 72 + w;
      })
unfolding parse_header
parse_header_lem buffer m w h_magic h_version h_mode h_kdf h_len h_room = rw (
  h_magic,
  h_version,
  h_mode,
  h_kdf,
  h_len,
  from_u8-to_u8 m,
  ltb-false (length buffer) 72 (omega arith),
  ltb-false (length buffer) (72 + w + 8 + 24 + 16) h_room,
)

module _ (m : VaultMode) (salt wn wk : Bytes) (seq : ℕ) (cn ct tag : Bytes) where
  -- The chunks of `save_vault_to_writer`.
  abbrev pub chunks : List Bytes
  chunks =
      magic
      ∷ le_bytes 4 format_version
      ∷ (to_u8 m ∷ [])
      ∷ (kdf_version ∷ [])
      ∷ salt
      ∷ wn
      ∷ le_bytes 4 (length wk % 2 ^ 32)
      ∷ wk
      ∷ le_bytes 8 seq
      ∷ cn
      ∷ ct
      ∷ tag
      ∷ []

  abbrev pub image : Bytes
  image = joined chunks

  -- What follows the wrapped key.
  abbrev pub content : Bytes
  content = le_bytes 8 seq ++ (cn ++ (ct ++ (tag ++ [])))

  abbrev pub header : Header
  header = record {
    version = format_version;
    mode = m;
    kdf = kdf_version;
    salt = salt;
    wrapper_nonce = wn;
    wrapped_key = wk;
    offset_after_key = 72 + length wk;
  }

  module _ (hs : length salt ≡ 32) (hw : length wn ≡ 24) (hn : length cn ≡ 24)
      (ht : length tag ≡ 16) where
    salt_at : slice 12 44 image ≡ salt
    salt_at = take-append 32 salt _ hs

    wrapper_nonce_at : slice 44 68 image ≡ wn
    wrapper_nonce_at = rw (drop_length 32 salt _ hs) (take-append 24 wn _ hw)

    length_at : drop 68 image ≡ le_bytes 4 (length wk % 2 ^ 32) ++ (wk ++ content)
    length_at = drop-append 32 24 salt _ hs ∙ drop_length 24 wn _ hw

    pub after_header : drop 72 image ≡ wk ++ content
    after_header = drop-append 32 28 salt _ hs ∙ drop-append 24 4 wn _ hw

    pub after_key : drop (72 + length wk) image ≡ content
    after_key =
        drop_add 72 (length wk) image
        ∙ ap (drop (length wk)) after_header
        ∙ drop_length (length wk) wk content refl

    pub length_image : length image ≡ 72 + length wk + 8 + 24 + length ct + 16
    length_image = simp length-append (omega (arith, hs, hw, hn, ht))

    -- A file of this layout parses to its header, whatever its secret parts hold.
    pub parse_header-image : length wk < 2 ^ 32 → parse_header image ≡ ok header
    unfolding bytes_eq
    parse_header-image small =
        let stored_len : of_le_bytes (slice 68 72 image) ≡ length wk =
          ap (λ (xs : Bytes). of_le_bytes (take 4 xs)) length_at ∙ omega arith in
        let key_at : slice 72 (72 + length wk) image ≡ wk =
          ap (take (72 + length wk - 72)) after_header
          ∙ take-append (72 + length wk - 72) wk content (omega arith) in
        parse_header_lem image m (length wk) refl refl (omega arith) refl stored_len
          (omega (arith, length_image))
        ∙ (λ i. ok (record {
          version = format_version;
          mode = m;
          kdf = kdf_version;
          salt = salt_at i;
          wrapper_nonce = wrapper_nonce_at i;
          wrapped_key = key_at i;
          offset_after_key = 72 + length wk;
        }))

    abbrev start : ℕ
    start = 72 + length wk

    after_sequence : drop (start + 8) image ≡ cn ++ (ct ++ (tag ++ []))
    after_sequence = drop_add start 8 image ∙ ap (drop 8) after_key

    after_nonce : drop (start + 8 + 24) image ≡ ct ++ (tag ++ [])
    after_nonce =
        drop_add (start + 8) 24 image ∙ ap (drop 24) after_sequence ∙ drop_length 24 cn _ hn

    pub sequence_at : slice start (start + 8) image ≡ le_bytes 8 seq
    sequence_at = let e : start + 8 - start ≡ 8 = omega arith in rw e (ap (take 8) after_key)

    pub content_nonce_at : slice (start + 8) (start + 8 + 24) image ≡ cn
    content_nonce_at =
        let e : start + 8 + 24 - (start + 8) ≡ 24 = omega arith in
        rw e (ap (take 24) after_sequence ∙ take-append 24 cn _ hn)

    pub ciphertext_at : slice (start + 8 + 24) (length image - 16) image ≡ ct
    ciphertext_at =
        let e : length image - 16 - (start + 8 + 24) ≡ length ct = omega (arith, length_image) in
        ap (λ k. take k (drop (start + 8 + 24) image)) e
        ∙ ap (take (length ct)) after_nonce
        ∙ take-append (length ct) ct _ refl

    pub tag_at : drop (length image - 16) image ≡ tag
    tag_at =
        let e : length image - 16 ≡ start + 8 + 24 + length ct = omega (arith, length_image) in
        ap (λ k. drop k image) e
        ∙ drop_add (start + 8 + 24) (length ct) image
        ∙ ap (drop (length ct)) after_nonce
        ∙ drop_length (length ct) ct (tag ++ []) refl
        ∙ append-nil tag
