-- ===== src/Vault/Format.antt =====
-- src/vault/format.rs: the vault, its modes and errors, and the constants of the file format.
-- An `i32` is kept as its 32-bit pattern.
pub mod Save
pub mod Load
pub mod Layout
pub mod Stages
pub mod Wrap
pub mod RoundTrip
use passx.Base.{
  Bool, Bytes, List, Option, Text, [], false, if◌then◌else◌, le_bytes, none, some, true, ℕ, ◌++◌,
  ◌==◌, ◌∷◌,
}
use passx.Crypto.Cipher.{CryptoError}
use passx.Crypto.Primitives.{Primitives}
use passx.Tpm.Sealing.{Ncrypt, TpmError}
use passx.Vault.Entry.{AccountEntry, TotpEntry}

-- b"passx^"
abbrev pub magic : Bytes
magic = b'p' ∷ b'a' ∷ b's' ∷ b's' ∷ b'x' ∷ b'^' ∷ []

abbrev pub format_version : ℕ
format_version = 1

-- `Argon2ParamsVersion::V1_2024 as u8` is the index of the only variant.
abbrev pub kdf_version : ℕ
kdf_version = 0

pub data VaultMode : Type 0 where
  device_bound portable : VaultMode

unfoldable pub to_u8 : VaultMode → ℕ
to_u8 device_bound = 1
to_u8 portable = 2

unfoldable pub from_u8 : ℕ → Option VaultMode
from_u8 v = if v == 1 then some device_bound else if v == 2 then some portable else none

unfoldable pub mode_eq : VaultMode → VaultMode → Bool
mode_eq device_bound device_bound = true
mode_eq portable portable = true
mode_eq _ _ = false

pub record GeneratorSettings : Type 0 where
  pub length : ℕ
  pub include_uppercase : Bool
  pub include_lowercase : Bool
  pub include_numbers : Bool
  pub include_symbols : Bool

abbrev pub default_settings : GeneratorSettings
default_settings = record {
  length = 16;
  include_uppercase = true;
  include_lowercase = true;
  include_numbers = true;
  include_symbols = true;
}

pub record Vault : Type 0 where
  pub format_version : ℕ
  pub mode : VaultMode
  pub sequence_number : ℕ
  pub last_updated : ℕ
  pub accounts : List AccountEntry
  pub totps : List TotpEntry
  pub mirrors : List Text
  pub generator_settings : GeneratorSettings

-- `Vault { mode, last_updated: now, ..Default::default() }`
abbrev pub new_vault : VaultMode → ℕ → Vault
new_vault m now = record {
  format_version = 0;
  mode = m;
  sequence_number = 0;
  last_updated = now;
  accounts = [];
  totps = [];
  mirrors = [];
  generator_settings = default_settings;
}

pub data VaultError : Type 0 where
  io_error serialization_error invalid_magic unsupported_version invalid_format : VaultError
  rollback_detected missing_password wrong_password : VaultError
  crypto_error : CryptoError → VaultError
  tpm_error : TpmError → VaultError
  invalid_mode : ℕ → VaultError

-- What the format calls outside the repository: the cryptographic crates, the key store, and
-- bincode on the derived form of `Vault`.
pub record Platform : Type 0 where
  pub primitives : Primitives
  pub ncrypt : Ncrypt
  pub serialize : Vault → Option Bytes
  pub deserialize : Bytes → Option Vault

-- b"PASSX_DEVICE_BOUND_MASTER_KEY"
abbrev pub device_bound_aad : Bytes
device_bound_aad =
    b'P' ∷ b'A' ∷ b'S' ∷ b'S' ∷ b'X' ∷ b'_' ∷ b'D' ∷ b'E' ∷ b'V' ∷ b'I' ∷ b'C' ∷ b'E' ∷ b'_' ∷ b'B'
    ∷ b'O' ∷ b'U' ∷ b'N' ∷ b'D' ∷ b'_' ∷ b'M' ∷ b'A' ∷ b'S' ∷ b'T' ∷ b'E' ∷ b'R' ∷ b'_' ∷ b'K'
    ∷ b'E' ∷ b'Y' ∷ []

-- b"PASSX_PORTABLE_MASTER_KEY"
abbrev pub portable_aad : Bytes
portable_aad =
    b'P' ∷ b'A' ∷ b'S' ∷ b'S' ∷ b'X' ∷ b'_' ∷ b'P' ∷ b'O' ∷ b'R' ∷ b'T' ∷ b'A' ∷ b'B' ∷ b'L' ∷ b'E'
    ∷ b'_' ∷ b'M' ∷ b'A' ∷ b'S' ∷ b'T' ∷ b'E' ∷ b'R' ∷ b'_' ∷ b'K' ∷ b'E' ∷ b'Y' ∷ []

-- b"passx_VAULT_CONTENT"
abbrev pub content_info : Bytes
content_info =
    b'p' ∷ b'a' ∷ b's' ∷ b's' ∷ b'x' ∷ b'_' ∷ b'V' ∷ b'A' ∷ b'U' ∷ b'L' ∷ b'T' ∷ b'_' ∷ b'C' ∷ b'O'
    ∷ b'N' ∷ b'T' ∷ b'E' ∷ b'N' ∷ b'T' ∷ []

-- The associated data of the content, which binds it to the header.
unfoldable pub content_aad : ℕ → ℕ → ℕ → Bytes → ℕ → Bytes
content_aad version mode_byte kdf salt sequence =
    magic ++ (le_bytes 4 version ++ (mode_byte ∷ kdf ∷ (salt ++ le_bytes 8 sequence)))
