-- ===== src/Memory/Guard/View.antt =====
-- A secret as its clients see it: the bytes that the buffer derefs to.
use passx.Base.{
  Bool, Bytes, Option, Option-cases, [], arith, if◌then◌else◌, inl, inr, is_some, length, none,
  some, ℕ, ◌&&◌, ◌∷◌, ◌≡◌,
}
use passx.Memory.Guard.{SecureBuffer, layout_ok, from_slice, as_slice}
use passx.Memory.Guard.Content.{stored, from_slice_content, new_cases}

-- `SecureBuffer::from_slice` by content; `alloc n` says whether `n` bytes can be allocated.
unfoldable pub secure_copy : (ℕ → Bool) → Bytes → Option Bytes
secure_copy alloc bytes = if alloc (length (stored bytes)) then some (stored bytes) else none

abbrev pub seen : Option SecureBuffer → Option Bytes
seen none = none
seen (some b) = as_slice b

abbrev pub allocates : Bool → Bool → ℕ → Bool
allocates reserved locked n = layout_ok n && (reserved && locked)

from_slice_some :
    (r l : Bool) (bytes : Bytes)
    → is_some (from_slice r l bytes) ≡ allocates r l (length (stored bytes))
unfolding from_slice
from_slice_some r l [] = ground (arith, new_cases r l 0)
from_slice_some r l (x ∷ xs) = ground (arith, new_cases r l (length xs))

-- The view that the rest of the model works with is what the allocating code computes: the slice of
-- the buffer, or no buffer when the layout, `VirtualAlloc` or `VirtualLock` refuses.
pub secure_copy-from_slice :
    (r l : Bool) (bytes : Bytes) → seen (from_slice r l bytes) ≡ secure_copy (allocates r l) bytes
unfolding secure_copy
secure_copy-from_slice r l bytes = elim (Option-cases (from_slice r l bytes)) [
  | inl e ↦ ground (arith, from_slice_some r l bytes)
  | inr (b, e) ↦ ground (arith, from_slice_some r l bytes, (from_slice_content r l bytes e).0)
]
