-- ===== src/Runtime/Integrity.antt =====
-- What the integrity checks of src/runtime accept.
use passx.Base.{
  Bool, Bytes, List, Option, Text, [], append-nil, arith, bytes_eq, drop_length, false, leb, length,
  length-append, ltb, none, not, refl, some, subst, take-append, true, ℕ, ◌&&◌, ◌++◌, ◌+◌, ◌-◌,
  ◌==◌, ◌∷◌, ◌≡◌,
}
use passx.Runtime.{
  public_key_bytes, Signing, Response, no_client, no_success, unreadable, success, revoked,
  check_github_signature, read_exact, check_signature, verify_self_integrity, Section, LoadedModule,
  text_hash, text_matches, verify_memory_integrity, get_current_memory_hash,
}

-- A signature file that says that the signature is revoked.
abbrev pub says_revoked : (Text → Text) → Response → Bool
says_revoked trim no_client = false
says_revoked trim no_success = false
says_revoked trim unreadable = false
says_revoked trim (success body) = bytes_eq (trim body) revoked

module _ (s : Signing) (trim : Text → Text) where
  pub check_signature_lem :
      (response : Response) (signed sig : Bytes) (key : s.Key)
      → s.verifying_key public_key_bytes ≡ some key
      → check_signature s trim response signed sig
        ≡ some (s.verify key signed sig && not (says_revoked trim response))
  unfolding check_github_signature
  check_signature_lem no_client signed sig key valid = rw (valid, check_signature) (ground arith)
  check_signature_lem no_success signed sig key valid = rw (valid, check_signature) (ground arith)
  check_signature_lem unreadable signed sig key valid = rw (valid, check_signature) (ground arith)
  check_signature_lem (success body) signed sig key valid =
      rw (valid, check_signature) (ground arith)

  read_exact-append :
      (n : ℕ) (xs ys : Bytes) → length xs ≡ n → read_exact n (xs ++ ys) ≡ some (xs, ys)
  read_exact-append n xs ys size =
      let enough : leb n (length (xs ++ ys)) ≡ true = rw (length-append xs ys) (ground arith) in
      rw (enough, take-append n xs ys size, drop_length n xs ys size) refl

  -- With a public key that is well formed, an executable that is read in full and ends in a signature
  -- of 64 bytes is valid exactly when the key accepts the signature for the bytes before it and the
  -- answer from GitHub is not the word REVOKED: any other answer, and any failure to get one, leave it
  -- valid.
  pub verify_self_integrity_signed :
      (signed sig : Bytes) (key : s.Key) (response : Response)
      → s.verifying_key public_key_bytes ≡ some key
      → length sig ≡ 64
      → verify_self_integrity s trim
          (some (record { size = some (length signed + 64); content = signed ++ sig }))
          response
        ≡ some (s.verify key signed sig && not (says_revoked trim response))
  unfolding verify_self_integrity
  verify_self_integrity_signed signed sig key response valid size =
      let large : ltb (length signed + 64) 64 ≡ false = ground arith in
      let rest : length signed + 64 - 64 ≡ length signed = omega arith in
      let first = read_exact-append (length signed) signed sig refl in
      let second : read_exact 64 sig ≡ some (sig, []) =
        subst (λ x. read_exact 64 x ≡ some (sig, [])) (append-nil sig)
          (read_exact-append 64 sig [] size) in
      rw (large, rest, first, second) (check_signature_lem response signed sig key valid)

-- The comparison with a baseline.
abbrev pub matches_baseline : Option Bytes → Bytes → Bool
matches_baseline none baseline = false
matches_baseline (some hash) baseline = bytes_eq hash baseline

module _ (sha256 : Bytes → Bytes) (section_name : Bytes → Text) where
  text_matches-text_hash :
      (ss : List Section) (m : LoadedModule) (baseline : Bytes)
      → text_matches sha256 section_name ss m baseline
        ≡ matches_baseline (text_hash sha256 section_name ss m) baseline
  unfolding text_matches text_hash
  text_matches-text_hash [] m baseline = refl
  text_matches-text_hash (s ∷ ss) m baseline = ground (arith, text_matches-text_hash ss m baseline)

  -- The memory is intact exactly when the module has its two magic numbers and the hash that would
  -- be captured now as a baseline is the one that is compared with.
  pub verify_memory_integrity-get_current_memory_hash :
      (m : LoadedModule) (baseline : Bytes)
      → verify_memory_integrity sha256 section_name (some m) baseline ≡ (
          m.e_magic == 23117
          && (m.signature == 17744
              && matches_baseline (get_current_memory_hash sha256 section_name (some m)) baseline))
  unfolding verify_memory_integrity get_current_memory_hash
  verify_memory_integrity-get_current_memory_hash m baseline =
      ground (arith, text_matches-text_hash m.sections m baseline)
