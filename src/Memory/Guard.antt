-- ===== src/Memory/Guard.antt =====
-- src/memory/secure_alloc.rs and src/memory/guard.rs: `SecureAllocator` and `SecureBuffer`.
-- The outcome of each Windows call is an argument; `none` is a null pointer, a panic or an access
-- violation. A buffer is its committed pages, the size of its layout and the pages' protection.
pub mod Content
pub mod Seal
pub mod View
pub mod Serde
use passx.Base.{
  Bool, Bytes, Option, [], drop, false, if◌then◌else◌, length, ltb, none, replicate, some, suc,
  take, true, zero, ℕ, ◌*◌, ◌++◌, ◌+◌, ◌-◌, ◌/◌, ◌==◌, ◌^◌, ◌∷◌,
}

-- `VirtualAlloc` commits whole pages of 4096 bytes.
unfoldable pub page_bytes : ℕ → ℕ
page_bytes size = (size + 4095) / 4096 * 4096

pub data Protection : Type 0 where
  read_write no_access : Protection

pub record SecureBuffer : Type 0 where
  pub pages : Bytes
  pub size : ℕ
  pub protection : Protection

-- `reserved` and `locked` say whether `VirtualAlloc` and `VirtualLock` succeed.
unfoldable pub alloc_locked : Bool → Bool → ℕ → Option Bytes
alloc_locked reserved locked size =
    if size == 0
    then none
    else if reserved
    then if locked then some (replicate (page_bytes size) 0) else none
    else none

-- `Layout::from_size_align(size, 1)` fails above `isize::MAX`.
unfoldable pub layout_ok : ℕ → Bool
layout_ok size = ltb size (2 ^ 63)

-- `ptr::write_bytes(ptr, 0, n)`, and the loop of `zeroize`.
unfoldable pub zero_prefix : ℕ → Bytes → Bytes
zero_prefix zero pages = pages
zero_prefix (suc n) [] = []
zero_prefix (suc n) (_ ∷ pages) = 0 ∷ zero_prefix n pages

abbrev pub fresh : ℕ → Option Bytes → Option SecureBuffer
fresh size none = none
fresh size (some pages) =
    some (record { pages = zero_prefix size pages; size = size; protection = read_write })

unfoldable pub new : Bool → Bool → ℕ → Option SecureBuffer
unfolding alloc_locked layout_ok
new reserved locked size =
    if size == 0
    then if layout_ok 1 then fresh 1 (alloc_locked reserved locked 1) else none
    else if layout_ok size
    then fresh size (alloc_locked reserved locked size)
    else none

-- `copy_nonoverlapping` to the start of the allocation.
unfoldable pub copy_in : Bytes → SecureBuffer → SecureBuffer
copy_in bytes b = record b { pages = bytes ++ drop (length bytes) b.pages }

abbrev pub copied : Bytes → Option SecureBuffer → Option SecureBuffer
copied bytes none = none
copied bytes (some b) = some (copy_in bytes b)

unfoldable pub from_slice : Bool → Bool → Bytes → Option SecureBuffer
from_slice reserved locked [] = new reserved locked 1
from_slice reserved locked (x ∷ xs) = copied (x ∷ xs) (new reserved locked (length (x ∷ xs)))

unfoldable pub len : SecureBuffer → ℕ
len b = b.size

unfoldable pub is_empty : SecureBuffer → Bool
unfolding len
is_empty b = len b == 0

abbrev accessible : Protection → Bool
accessible read_write = true
accessible no_access = false

-- `deref`; a read of a sealed page is an access violation.
unfoldable pub as_slice : SecureBuffer → Option Bytes
as_slice b = if accessible b.protection then some (take b.size b.pages) else none

unfoldable pub zeroize : SecureBuffer → Option SecureBuffer
zeroize b =
    if accessible b.protection then some (record b { pages = zero_prefix b.size b.pages }) else none

-- What `VirtualFree` takes back, after the second wipe of `dealloc_locked`.
unfoldable pub dealloc_locked : SecureBuffer → Bytes
dealloc_locked b = zero_prefix b.size b.pages

abbrev released : Option SecureBuffer → Option Bytes
released none = none
released (some b) = some (dealloc_locked b)

-- `Drop`: the pages as they are given back.
unfoldable pub drop_buffer : SecureBuffer → Option Bytes
unfolding zeroize dealloc_locked
drop_buffer b = released (zeroize b)

abbrev cloned : Option SecureBuffer → Option Bytes → Option SecureBuffer
cloned (some b) (some bytes) = some (copy_in bytes b)
cloned _ _ = none

-- `Clone`: `unwrap` panics when the allocation fails.
unfoldable pub clone : Bool → Bool → SecureBuffer → Option SecureBuffer
unfolding len
clone reserved locked b = cloned (new reserved locked (len b)) (as_slice b)

-- The size that is handed to `CryptProtectMemory`, a multiple of its 16-byte block.
unfoldable pub rounded_size : ℕ → ℕ
rounded_size size = (size + 16 - 1) / 16 * 16

abbrev rewritten : Protection → ℕ → SecureBuffer → Option Bytes → Option SecureBuffer
rewritten after n b none = none
rewritten after n b (some front) =
    some (record b { pages = front ++ drop n b.pages; protection = after })

-- The protection after a `VirtualProtect` whose result is dropped.
abbrev pub protected : Bool → Protection → Protection → Protection
protected changed target before = if changed then target else before

-- `protect` is `CryptProtectMemory`, and `none` its failure, on which `seal` panics; `hidden` says
-- whether `VirtualProtect` succeeds after it.
unfoldable pub seal : Bool → (Bytes → Option Bytes) → SecureBuffer → Option SecureBuffer
unfolding rounded_size
seal hidden protect b =
    let n = rounded_size b.size in
    if accessible b.protection
    then rewritten (protected hidden no_access b.protection) n b (protect (take n b.pages))
    else none

-- The pages are made accessible first, if `VirtualProtect` succeeds, and then decrypted, which fails
-- on pages without access.
unfoldable pub unseal : Bool → (Bytes → Option Bytes) → SecureBuffer → Option SecureBuffer
unfolding rounded_size
unseal shown unprotect b =
    let n = rounded_size b.size in
    let after = protected shown read_write b.protection in
    if accessible after then rewritten after n b (unprotect (take n b.pages)) else none
