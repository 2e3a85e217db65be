-- ===== src/Memory/Guard/Serde.antt =====
-- How serde reads and writes a `SecureBuffer` (src/memory/guard.rs).
use passx.Base.{Bool, Bytes, Option, ap, arith, length, refl, some, sym, true, ◌∙◌, ◌≡◌}
use passx.Memory.Guard.{SecureBuffer, from_slice, as_slice}
use passx.Memory.Guard.Content.{stored}
use passx.Memory.Guard.View.{secure_copy, secure_copy-from_slice, allocates, seen}
use passx.Crypto.Cipher.RoundTrip.{stored_id, stored_nonempty}

-- The bytes that are handed to the serializer; `none` is an access violation.
unfoldable pub serialize : SecureBuffer → Option Bytes
unfolding as_slice
serialize b = as_slice b

-- `none` is the error "Allocation failed".
unfoldable pub visit_bytes : Bool → Bool → Bytes → Option SecureBuffer
unfolding from_slice
visit_bytes reserved locked v = from_slice reserved locked v

unfoldable pub visit_byte_buf : Bool → Bool → Bytes → Option SecureBuffer
unfolding from_slice
visit_byte_buf reserved locked v = from_slice reserved locked v

-- What was serialized of a buffer made of a slice is read back to a buffer of the same content, if
-- that can be allocated.
visit_byte_buf-serialize :
    (r l r' l' : Bool) (xs : Bytes) {b : SecureBuffer} {bytes : Bytes}
    → from_slice r l xs ≡ some b
    → serialize b ≡ some bytes
    → allocates r' l' (length bytes) ≡ true
    → seen (visit_byte_buf r' l' bytes) ≡ some bytes
unfolding serialize visit_byte_buf secure_copy
visit_byte_buf-serialize r l r' l' xs {b} {bytes} made written free =
    let view : secure_copy (allocates r l) xs ≡ some bytes =
      sym (secure_copy-from_slice r l xs) ∙ (ap seen made ∙ written) in
    let whole : bytes ≡ stored xs = ground arith in
    let same : stored bytes ≡ bytes = rw whole (stored_id (stored xs) (stored_nonempty xs)) in
    secure_copy-from_slice r' l' bytes ∙ rw (same, free, secure_copy) refl
