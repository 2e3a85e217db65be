-- ===== src/Runtime.antt =====
-- src/runtime/integrity.rs, invariants.rs and update.rs. The crates sha2 and ed25519-dalek, the texts
-- of Rust and the answers of Windows and of the network are parameters.
pub mod Integrity
pub mod Probes
use passx.Base.{
  Result, Bool, Bytes, List, Option, Text, [], bytes_eq, drop, err, false, if◌then◌else◌, leb,
  length, ltb, none, not, ok, some, take, true, ℕ, ◌-◌, ◌==◌, ◌∷◌,
}

pub record Signing : Type 1 where
  pub Key : Type 0
  -- `VerifyingKey::from_bytes`
  pub verifying_key : Bytes → Option Key
  pub verify : Key → Bytes → Bytes → Bool

pub data UpdateError : Type 0 where
  network_error signature_verification_failed invalid_public_key invalid_signature_length :
      UpdateError

-- `PUBLIC_KEY_BYTES`
abbrev pub public_key_bytes : Bytes
public_key_bytes =
    120 ∷ 28 ∷ 32 ∷ 167 ∷ 38 ∷ 223 ∷ 195 ∷ 33 ∷ 254 ∷ 177 ∷ 228 ∷ 3 ∷ 190 ∷ 4 ∷ 179 ∷ 65 ∷ 194 ∷ 16
    ∷ 56 ∷ 52 ∷ 59 ∷ 237 ∷ 248 ∷ 15 ∷ 105 ∷ 178 ∷ 49 ∷ 140 ∷ 77 ∷ 29 ∷ 25 ∷ 250 ∷ []

-- What the request for the list of revoked signatures comes to; `unreadable` has no readable body.
pub data Response : Type 0 where
  no_client no_success unreadable : Response
  success : Text → Response

-- The opened executable: the size that its metadata has, if they can be read, and its bytes.
pub record Executable : Type 0 where
  pub size : Option ℕ
  pub content : Bytes

-- "REVOKED"
abbrev pub revoked : Text
revoked = b'R' ∷ b'E' ∷ b'V' ∷ b'O' ∷ b'K' ∷ b'E' ∷ b'D' ∷ []

-- `read_exact`: the bytes and the rest, unless there are too few.
abbrev pub read_exact : ℕ → Bytes → Option (Bytes × Bytes)
read_exact n bytes = if leb n (length bytes) then some (take n bytes, drop n bytes) else none

module _ (s : Signing) where
  -- The file as it is read, if it is.
  unfoldable pub verify_signature : Option Bytes → Bytes → Bytes → Result UpdateError Bool
  verify_signature file signature_bytes public_key_bytes =
      if not (length public_key_bytes == 32)
      then err invalid_public_key
      else elim (s.verifying_key public_key_bytes) [
        | none ↦ err invalid_public_key
        | some key ↦
            if not (length signature_bytes == 64) then err invalid_signature_length else elim file [
              | none ↦ err network_error
              | some content ↦
                  if s.verify key content signature_bytes
                  then ok true
                  else err signature_verification_failed
            ]
      ]

  -- `none` is an error; an answer other than success counts as valid.
  unfoldable pub check_github_signature : (Text → Text) → Response → Option Bool
  check_github_signature trim no_client = none
  check_github_signature trim no_success = some true
  check_github_signature trim unreadable = none
  check_github_signature trim (success body) = some (not (bytes_eq (trim body) revoked))

  abbrev pub check_signature : (Text → Text) → Response → Bytes → Bytes → Option Bool
  check_signature trim response signed sig_bytes = elim (s.verifying_key public_key_bytes) [
    | none ↦ none
    | some key ↦
        if not (s.verify key signed sig_bytes)
        then some false
        else elim (check_github_signature trim response) [
          | none ↦ some true
          | some remote_valid ↦ some remote_valid
        ]
  ]

  -- `none` is an error, also when the executable is not found or does not open.
  unfoldable pub verify_self_integrity : (Text → Text) → Option Executable → Response → Option Bool
  unfolding check_github_signature
  verify_self_integrity trim none response = none
  verify_self_integrity trim (some exe) response = elim exe.size [
    | none ↦ none
    | some file_size ↦
        if ltb file_size 64 then some false else elim (read_exact (file_size - 64) exe.content) [
          | none ↦ none
          | some (signed, rest) ↦ elim (read_exact 64 rest) [
            | none ↦ none
            | some (sig_bytes, after) ↦ check_signature trim response signed sig_bytes
          ]
        ]
  ]

-- What the headers of the loaded module say, and its memory from an address on.
pub record Section : Type 0 where
  pub name : Bytes
  pub virtual_address : ℕ
  pub virtual_size : ℕ

pub record LoadedModule : Type 0 where
  pub e_magic : ℕ
  pub signature : ℕ
  -- The headers, as many as `NumberOfSections`.
  pub sections : List Section
  pub memory : ℕ → ℕ → Bytes

-- ".text"
abbrev pub text_name : Text
text_name = b'.' ∷ b't' ∷ b'e' ∷ b'x' ∷ b't' ∷ []

-- The name of a section, lossily decoded and without the zeros around it, is a parameter.
module _ (sha256 : Bytes → Bytes) (section_name : Bytes → Text) where
  unfoldable pub text_hash : List Section → LoadedModule → Option Bytes
  text_hash [] m = none
  text_hash (s ∷ ss) m =
      if bytes_eq (section_name s.name) text_name
      then some (sha256 (m.memory s.virtual_address s.virtual_size))
      else text_hash ss m

  -- The loop of `verify_memory_integrity`, which compares where `text_hash` returns the hash.
  unfoldable pub text_matches : List Section → LoadedModule → Bytes → Bool
  text_matches [] m baseline_hash = false
  text_matches (s ∷ ss) m baseline_hash =
      if bytes_eq (section_name s.name) text_name
      then bytes_eq (sha256 (m.memory s.virtual_address s.virtual_size)) baseline_hash
      else text_matches ss m baseline_hash

  unfoldable pub verify_memory_integrity : Option LoadedModule → Bytes → Bool
  unfolding text_matches
  verify_memory_integrity none baseline_hash = false
  verify_memory_integrity (some m) baseline_hash =
      if not (m.e_magic == 23117)
      then false
      else if not (m.signature == 17744)
      then false
      else text_matches m.sections m baseline_hash

  unfoldable pub get_current_memory_hash : Option LoadedModule → Option Bytes
  unfolding text_hash
  get_current_memory_hash none = none
  get_current_memory_hash (some m) = text_hash m.sections m
