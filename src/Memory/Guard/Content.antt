-- ===== src/Memory/Guard/Content.antt =====
-- What a `SecureBuffer` holds: its slice, its padding, and what `Drop` leaves.
use passx.Base.{
  Bool, Bytes, [], ap, arith, drop, false, if◌then◌else◌, length, length-replicate, none, refl,
  replicate, some, suc, sym, take, take-append, zero, ℕ, ◌++◌, ◌+◌, ◌-◌, ◌<◌, ◌∙◌, ◌∷◌, ◌≡◌, ◌≤◌,
}
use passx.Memory.Guard.{
  SecureBuffer, read_write, page_bytes, alloc_locked, layout_ok, zero_prefix, new, copy_in, copied,
  from_slice, len, is_empty, as_slice, drop_buffer, clone, cloned,
}

-- An empty secret is kept as one zero byte.
abbrev pub stored : Bytes → Bytes
stored [] = 0 ∷ []
stored (x ∷ xs) = x ∷ xs

-- An open buffer: its slice is followed by zeros up to the end of its last page.
pub record Holds (bytes : Bytes) (b : SecureBuffer) : Type 0 where
  pub size_eq : b.size ≡ length bytes
  pub nonempty : 0 < b.size
  pub open_pages : b.protection ≡ read_write
  pub padding : ℕ
  pub pages_eq : b.pages ≡ bytes ++ replicate padding 0
  pub total : length bytes + padding ≡ page_bytes (length bytes)

pub zero_prefix-replicate : (n k : ℕ) → zero_prefix n (replicate k 0) ≡ replicate k 0
unfolding zero_prefix
zero_prefix-replicate zero k = refl
zero_prefix-replicate (suc n) zero = refl
zero_prefix-replicate (suc n) (suc k) = ap (◌∷◌ 0) (zero_prefix-replicate n k)

pub zero_prefix-append :
    (xs : Bytes) (k : ℕ)
    → zero_prefix (length xs) (xs ++ replicate k 0) ≡ replicate (length xs + k) 0
unfolding zero_prefix
zero_prefix-append [] k = let e : 0 + k ≡ k = omega arith in rw e
zero_prefix-append (x ∷ xs) k =
    let e : suc (length xs) + k ≡ suc (length xs + k) = omega arith in
    rw e (ap (◌∷◌ 0) (zero_prefix-append xs k))

drop-replicate : (n k : ℕ) → drop {A = ℕ} n (replicate k 0) ≡ replicate (k - n) 0
drop-replicate zero k = let e : k - 0 ≡ k = omega arith in rw e
drop-replicate (suc n) zero = let e : 0 - suc n ≡ 0 = omega arith in rw e
drop-replicate (suc n) (suc k) =
    let e : suc k - suc n ≡ k - n = omega arith in rw e (drop-replicate n k)

page_bytes-le : (n : ℕ) → n ≤ page_bytes n
unfolding page_bytes
page_bytes-le n = omega arith

-- A buffer from `new` with bytes copied over all of it.
copy_in-Holds :
    (bytes : Bytes) (b : SecureBuffer)
    → 0 < length bytes
    → b.size ≡ length bytes
    → b.protection ≡ read_write
    → b.pages ≡ replicate (page_bytes (length bytes)) 0
    → Holds bytes (copy_in bytes b)
unfolding copy_in
copy_in-Holds bytes b pos hs hp hz = record {
  size_eq = hs;
  nonempty = omega arith;
  open_pages = hp;
  padding = page_bytes (length bytes) - length bytes;
  pages_eq =
      ap (λ p. bytes ++ p) (rw hz (drop-replicate (length bytes) (page_bytes (length bytes))));
  total = omega (arith, page_bytes-le (length bytes));
}

-- What a successful `new` returns.
abbrev pub zeroed : ℕ → SecureBuffer
zeroed n = record { pages = replicate (page_bytes n) 0; size = n; protection = read_write }

pub new_cases :
    (r l : Bool) (n : ℕ)
    → new r l (suc n) ≡ (
        if layout_ok (suc n)
        then if r then if l then some (zeroed (suc n)) else none else none
        else none)
unfolding new alloc_locked
new_cases r l n = ground (arith, zero_prefix-replicate (suc n) (page_bytes (suc n)))

replicate-append : (n k : ℕ) → replicate {A = ℕ} n 0 ++ replicate k 0 ≡ replicate (n + k) 0
replicate-append zero k = let e : 0 + k ≡ k = omega arith in rw e
replicate-append (suc n) k =
    let e : suc n + k ≡ suc (n + k) = omega arith in rw e (ap (◌∷◌ 0) (replicate-append n k))

zeroed-Holds : (n : ℕ) → Holds (replicate (suc n) 0) (zeroed (suc n))
zeroed-Holds n = record {
  size_eq = omega (arith, length-replicate {A = ℕ} (suc n) 0);
  nonempty = omega arith;
  open_pages = refl;
  padding = page_bytes (suc n) - suc n;
  pages_eq =
      let e : page_bytes (suc n) ≡ suc n + (page_bytes (suc n) - suc n) =
        omega (arith, page_bytes-le (suc n)) in
      ap (λ k. replicate k 0) e ∙ sym (replicate-append (suc n) (page_bytes (suc n) - suc n));
  total = rw (length-replicate {A = ℕ} (suc n) 0) (omega (arith, page_bytes-le (suc n)));
}

copied-Holds :
    (r l : Bool) (x : ℕ) (xs : Bytes) {b : SecureBuffer}
    → copied (x ∷ xs) (new r l (suc (length xs))) ≡ some b
    → Holds (x ∷ xs) b
copied-Holds r l x xs {b} h =
    let e : b ≡ copy_in (x ∷ xs) (zeroed (suc (length xs))) =
      ground (arith, new_cases r l (length xs)) in
    rw e (copy_in-Holds (x ∷ xs) (zeroed (suc (length xs))) (omega arith) refl refl refl)

-- A buffer made from a slice holds exactly that slice, padded with zeros to the end of its last
-- page; an empty slice is held as one zero byte.
pub from_slice-Holds :
    (r l : Bool) (bytes : Bytes) {b : SecureBuffer}
    → from_slice r l bytes ≡ some b
    → Holds (stored bytes) b
unfolding from_slice
from_slice-Holds r l [] {b} h =
    let e : b ≡ zeroed 1 = ground (arith, new_cases r l 0) in rw e (zeroed-Holds 0)
from_slice-Holds r l (x ∷ xs) h = copied-Holds r l x xs h

take-Holds : (bytes : Bytes) (b : SecureBuffer) → Holds bytes b → take b.size b.pages ≡ bytes
take-Holds bytes b h =
    rw (h.pages_eq, h.size_eq) (take-append (length bytes) bytes (replicate h.padding 0) refl)

pub as_slice-Holds : (bytes : Bytes) (b : SecureBuffer) → Holds bytes b → as_slice b ≡ some bytes
unfolding as_slice
as_slice-Holds bytes b h = rw (h.open_pages) (ap some (take-Holds bytes b h))

-- A buffer made from a slice reads back as that slice (one zero byte for the empty one), its `len`
-- is the length of what it reads as, and `is_empty` is false of it, also for the empty slice.
pub from_slice_content :
    (r l : Bool) (bytes : Bytes) {b : SecureBuffer}
    → from_slice r l bytes ≡ some b
    → (as_slice b ≡ some (stored bytes)) × (len b ≡ length (stored bytes)) × (is_empty b ≡ false)
unfolding is_empty
from_slice_content r l bytes {b} h =
    let held = from_slice-Holds r l bytes h in
    (as_slice-Holds (stored bytes) b held, held.size_eq, ground arith)

-- `Drop` of an open buffer hands back pages that hold zeros alone.
pub drop_buffer_wipes :
    (bytes : Bytes) (b : SecureBuffer)
    → Holds bytes b
    → drop_buffer b ≡ some (replicate (page_bytes (length bytes)) 0)
unfolding drop_buffer
drop_buffer_wipes bytes b h =
    rw (h.open_pages, h.pages_eq, h.size_eq, zero_prefix-append, zero_prefix-replicate, h.total)

-- `Clone` of an open buffer, when the allocation succeeds, is an open buffer with the same bytes.
clone-Holds :
    (r l : Bool) (bytes : Bytes) (b : SecureBuffer) {c : SecureBuffer}
    → Holds bytes b
    → clone r l b ≡ some c
    → Holds bytes c
unfolding clone
clone-Holds r l [] b h e = absurd (omega (arith, h.nonempty, h.size_eq))
clone-Holds r l (x ∷ xs) b {c} h e =
    let reads : as_slice b ≡ some (x ∷ xs) = as_slice-Holds (x ∷ xs) b h in
    let made : cloned (new r l (suc (length xs))) (some (x ∷ xs)) ≡ some c =
      rw (reads, h.size_eq) at e in
    let same : c ≡ copy_in (x ∷ xs) (zeroed (suc (length xs))) =
      ground (arith, new_cases r l (length xs)) in
    rw same (copy_in-Holds (x ∷ xs) (zeroed (suc (length xs))) (omega arith) refl refl refl)
