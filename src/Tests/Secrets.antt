-- ===== src/Tests/Secrets.antt =====
-- Runs of the buffers, the cipher and the key store.
use passx.Base.{
  Bool, Bytes, [], ap, arith, false, is_some, length, none, ok, refl, replicate, some, take, true,
  ℕ, ◌%◌, ◌∷◌, ◌≡◌, ◌≤◌,
}
use passx.Crypto.Cipher.{encrypt, decrypt}
use passx.Crypto.Cipher.RoundTrip.{decrypt-encrypt}
use passx.Memory.Guard.{
  SecureBuffer, read_write, no_access, page_bytes, from_slice, as_slice, len, drop_buffer, clone,
  seal, unseal, rounded_size, alloc_locked, new, layout_ok, zero_prefix, copy_in,
}
use passx.Memory.Guard.Content.{Holds, drop_buffer_wipes}
use passx.Memory.Guard.Seal.{Dpapi, rounded_size_within, unseal-seal}
use passx.Memory.Guard.View.{secure_copy, allocates, seen, secure_copy-from_slice}
use passx.Tpm.Sealing.{open_tpm_provider, get_or_create_wrapping_key, seal_key, unseal_key}
use passx.Tpm.Sealing.RoundTrip.{unseal_key-seal_key}
use passx.Tests.Toy.{toy_primitives, toy_AeadLaws, toy_tag, toy_ncrypt, toy_NcryptLaws}

abbrev secret : Bytes
secret = 104 ∷ 117 ∷ []

abbrev open_buffer : SecureBuffer
open_buffer = record { pages = 104 ∷ 117 ∷ replicate 4094 0; size = 2; protection = read_write }

open_buffer-Holds : Holds secret open_buffer
unfolding page_bytes
open_buffer-Holds = record {
  size_eq = refl;
  nonempty = omega arith;
  open_pages = refl;
  padding = 4094;
  pages_eq = refl;
  total = refl;
}

made : from_slice true true secret ≡ some open_buffer
unfolding from_slice new alloc_locked layout_ok zero_prefix copy_in page_bytes
made = refl

drop_buffer_wipes_example : drop_buffer open_buffer ≡ some (replicate (page_bytes 2) 0)
drop_buffer_wipes_example = drop_buffer_wipes secret open_buffer open_buffer-Holds

cloned_buffer : clone true true open_buffer ≡ some open_buffer
unfolding clone len as_slice new alloc_locked layout_ok zero_prefix copy_in page_bytes
cloned_buffer = refl

rounded_size_within_example :
    (2 ≤ rounded_size 2) × (rounded_size 2 ≤ length open_buffer.pages) × (rounded_size 2 % 16 ≡ 0)
rounded_size_within_example = rounded_size_within secret open_buffer open_buffer-Holds

-- A `CryptProtectMemory` that leaves the block as it is.
abbrev plain_dpapi : Dpapi
plain_dpapi = record {
  protect = λ xs. some xs;
  unprotect = λ xs. some xs;
  keeps_length = λ xs {ys} h. ap (λ (zs : Bytes). length zs) (cc);
  undoes = λ xs {ys} h. cc;
}

abbrev sealed_buffer : SecureBuffer
sealed_buffer = record open_buffer { protection = no_access }

sealed : seal true plain_dpapi.protect open_buffer ≡ some sealed_buffer
unfolding seal rounded_size
sealed = refl

unseal-seal_example :
    (is_some (as_slice sealed_buffer) ≡ false)
    × (plain_dpapi.protect (take (rounded_size 2) open_buffer.pages)
        ≡ some (take (rounded_size 2) sealed_buffer.pages))
    × (unseal false plain_dpapi.unprotect sealed_buffer ≡ none)
unseal-seal_example = unseal-seal plain_dpapi true false secret open_buffer open_buffer-Holds sealed

secure_copy-from_slice_example :
    seen (from_slice true true secret) ≡ secure_copy (allocates true true) secret
secure_copy-from_slice_example = secure_copy-from_slice true true secret

abbrev some_key : Bytes
some_key = replicate 32 9

abbrev some_nonce : Bytes
some_nonce = replicate 24 3

abbrev free : ℕ → Bool
free n = true

all_free : (n : ℕ) → free n ≡ true
all_free n = refl

encrypted :
    encrypt toy_primitives free some_nonce some_key secret (b'a' ∷ [])
    ≡ ok (secret, some_nonce, toy_tag some_key)
unfolding encrypt secure_copy
encrypted = refl

decrypt-encrypt_example :
    decrypt toy_primitives free some_key some_nonce (toy_tag some_key) secret (b'a' ∷ [])
    ≡ ok secret
decrypt-encrypt_example =
    decrypt-encrypt toy_primitives toy_AeadLaws free free some_nonce some_key secret (b'a' ∷ [])
      all_free encrypted

key_sealed : seal_key toy_ncrypt some_key ≡ ok some_key
unfolding seal_key open_tpm_provider get_or_create_wrapping_key
key_sealed = refl

unseal_key-seal_key_example : unseal_key toy_ncrypt free some_key ≡ ok some_key
unseal_key-seal_key_example =
    unseal_key-seal_key toy_ncrypt toy_NcryptLaws free some_key all_free key_sealed
