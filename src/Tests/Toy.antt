-- ===== src/Tests/Toy.antt =====
-- A platform whose functions can be run. It keeps no secret: the ciphertext is the plaintext, the
-- tag is the front of the key, and only vaults without entries are serialized.
use passx.Base.{
  Bool, Bool-cases, Bytes, List, Option, Text, [], ap, arith, bytes_eq, bytes_eq_refl, bytes_eq→eq,
  false, if◌then◌else◌, inl, inr, length, length-append, length-take, ltb, none, refl, replicate,
  some, take, true, ℕ, ◌++◌, ◌<◌, ◌==◌, ◌^◌, ◌∙◌, ◌∷◌, ◌≡◌,
}
use passx.Crypto.Primitives.{Primitives, AeadLaws}
use passx.Tpm.Sealing.{Ncrypt, NcryptLaws}
use passx.Vault.Entry.{AccountEntry, TotpEntry}
use passx.Vault.Format.{Platform, Vault, VaultMode, device_bound, portable}
use passx.Vault.Format.Wrap.{PlatformLaws}

abbrev pub toy_tag : Bytes → Bytes
toy_tag k = take 16 (k ++ replicate 16 1)

abbrev toy_seal : Bytes → Bytes → Bytes → Bytes → Option (Bytes × Bytes)
toy_seal k n a m = some (m, toy_tag k)

abbrev toy_open : Bytes → Bytes → Bytes → Bytes → Bytes → Option Bytes
toy_open k n a t c = if bytes_eq t (toy_tag k) then some c else none

abbrev pub toy_primitives : Primitives
toy_primitives = record {
  aead_seal = toy_seal;
  aead_open = toy_open;
  hkdf_expand = λ k info. some k;
  argon2_hash = λ pass salt. some (take 32 (pass ++ salt));
  mnemonic_valid = λ phrase. true;
}

length-toy_tag : (k : Bytes) → length (toy_tag k) ≡ 16
length-toy_tag k =
    length-take 16 (k ++ replicate 16 1) (omega (arith, length-append {0} k (replicate 16 1)))

toy_open-toy_seal :
    (k n a m : Bytes) {c t : Bytes} → toy_seal k n a m ≡ some (c, t) → toy_open k n a t c ≡ some m
toy_open-toy_seal k n a m {c} {t} h =
    let same_tag : t ≡ toy_tag k = cc in
    let same : c ≡ m = cc in rw (same_tag, same, bytes_eq_refl (toy_tag k)) refl

toy_seal-toy_open :
    (k n a t c : Bytes) {m : Bytes} → toy_open k n a t c ≡ some m → toy_seal k n a m ≡ some (c, t)
toy_seal-toy_open k n a t c {m} h = elim (Bool-cases (bytes_eq t (toy_tag k))) [
  | inl hit ↦
      let same_tag : t ≡ toy_tag k = bytes_eq→eq t (toy_tag k) hit in
      let same : c ≡ m = (let g : some c ≡ some m = rw hit at h in cc) in rw (same_tag, same) refl
  | inr miss ↦ let g : none ≡ some m = rw miss at h in cc
]

pub toy_AeadLaws : AeadLaws toy_primitives
toy_AeadLaws = record {
  open-seal = toy_open-toy_seal;
  seal-open = toy_seal-toy_open;
  length_ciphertext = λ k n a m {c} {t} h. ap (λ (xs : Bytes). length xs) (cc);
  length_tag = λ k n a m {c} {t} h. ap (λ (xs : Bytes). length xs) (cc) ∙ length-toy_tag k;
}

abbrev pub toy_ncrypt : Ncrypt
toy_ncrypt = record {
  open_storage_provider = true;
  open_key = true;
  create_persisted_key = false;
  finalize_key = false;
  encrypt_size = λ m. if ltb (length m) (2 ^ 32) then some (length m) else none;
  ncrypt_encrypt = λ m. some m;
  decrypt_size = λ c. some (length c);
  ncrypt_decrypt = λ c. some c;
}

pub toy_NcryptLaws : NcryptLaws toy_ncrypt
toy_NcryptLaws = record {
  decrypt-encrypt = λ m {c} h. cc;
  encrypt_size_exact = λ m {c} {k} h g. ground arith;
  encrypt_size_small = λ m {k} h. ground arith;
  decrypt_size_exact = λ c {m} h. ap (λ (xs : Bytes). some (length xs)) (cc);
}

abbrev bit : Bool → ℕ
bit true = 1
bit false = 0

abbrev unbit : ℕ → Bool
unbit n = n == 1

abbrev mode_number : VaultMode → ℕ
mode_number device_bound = 1
mode_number portable = 2

abbrev number_mode : ℕ → VaultMode
number_mode n = if n == 1 then device_bound else portable

abbrev packed : Vault → Bytes → Bytes
packed v tail =
    v.format_version
    ∷ mode_number v.mode
    ∷ v.sequence_number
    ∷ v.last_updated
    ∷ v.generator_settings.length
    ∷ bit v.generator_settings.include_uppercase
    ∷ bit v.generator_settings.include_lowercase
    ∷ bit v.generator_settings.include_numbers
    ∷ bit v.generator_settings.include_symbols
    ∷ tail

abbrev toy_pack : List AccountEntry → List TotpEntry → List Text → Vault → Option Bytes
toy_pack [] [] [] v = some (packed v [])
toy_pack [] [] (m ∷ []) v = some (packed v (1 ∷ m))
toy_pack _ _ _ v = none

abbrev toy_serialize : Vault → Option Bytes
toy_serialize v = toy_pack v.accounts v.totps v.mirrors v

abbrev unpacked : Bytes → List Text
unpacked [] = []
unpacked (x ∷ m) = m ∷ []

abbrev toy_deserialize : Bytes → Option Vault
toy_deserialize (f ∷ m ∷ s ∷ l ∷ n ∷ b1 ∷ b2 ∷ b3 ∷ b4 ∷ tail) = some (record {
  format_version = f;
  mode = number_mode m;
  sequence_number = s;
  last_updated = l;
  accounts = [];
  totps = [];
  mirrors = unpacked tail;
  generator_settings = record {
    length = n;
    include_uppercase = unbit b1;
    include_lowercase = unbit b2;
    include_numbers = unbit b3;
    include_symbols = unbit b4;
  };
})
toy_deserialize _ = none

abbrev pub toy_platform : Platform
toy_platform = record {
  primitives = toy_primitives;
  ncrypt = toy_ncrypt;
  serialize = toy_serialize;
  deserialize = toy_deserialize;
}

number_mode-mode_number : (m : VaultMode) → number_mode (mode_number m) ≡ m
number_mode-mode_number device_bound = refl
number_mode-mode_number portable = refl

unbit-bit : (b : Bool) → unbit (bit b) ≡ b
unbit-bit true = refl
unbit-bit false = refl

toy_settings :
    (v : Vault) (tail : Bytes)
    → toy_deserialize (packed v tail)
      ≡ some (record v { accounts = []; totps = []; mirrors = unpacked tail })
toy_settings v tail =
    let s = v.generator_settings in
    rw
      (
        number_mode-mode_number v.mode,
        unbit-bit s.include_uppercase,
        unbit-bit s.include_lowercase,
        unbit-bit s.include_numbers,
        unbit-bit s.include_symbols,
      )
      refl

toy_pack_lem :
    (as' : List AccountEntry) (ts : List TotpEntry) (ms : List Text) (v : Vault) {bytes : Bytes}
    → toy_pack as' ts ms v ≡ some bytes
    → (0 < length bytes)
      × (toy_deserialize bytes ≡ some (record v { accounts = as'; totps = ts; mirrors = ms }))
toy_pack_lem [] [] [] v {bytes} h =
    let same : bytes ≡ packed v [] = cc in rw same (omega arith, toy_settings v [])
toy_pack_lem [] [] (m ∷ []) v {bytes} h =
    let same : bytes ≡ packed v (1 ∷ m) = cc in rw same (omega arith, toy_settings v (1 ∷ m))
toy_pack_lem [] [] (m ∷ k ∷ ms) v h = cc
toy_pack_lem [] (t ∷ ts) ms v h = cc
toy_pack_lem (a ∷ as') ts ms v h = cc

pub toy_PlatformLaws : PlatformLaws toy_platform
toy_PlatformLaws = record {
  aead = toy_AeadLaws;
  store = toy_NcryptLaws;
  serialize_nonempty = λ v {bytes} h. (toy_pack_lem v.accounts v.totps v.mirrors v h).0;
  deserialize-serialize = λ v {bytes} sound h. (toy_pack_lem v.accounts v.totps v.mirrors v h).1;
}
