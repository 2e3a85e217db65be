-- ===== src/Base/Updates.antt =====
-- Laws of `find_first`, `update_first` and `retain`.
use mathlib.Core.Path.{◌≡◌, refl, ap}
use mathlib.Core.List.{List, [], ◌∷◌, ◌++◌}
use mathlib.Core.Bool.{Bool, true, false}
use mathlib.Core.Option.{Option, none, some}
use mathlib.Core.Logic.{inl, inr}
use native.Mathlib.Omega.{arith}
use passx.Base.Tests.{is_some, if◌then◌else◌, Bool-cases}
use passx.Base.Lists.{any, find_first, update_first, retain, All, length}

module _ {ℓ} {A : Type ℓ} where
  abbrev pub option_map : (A → A) → Option A → Option A
  option_map f none = none
  option_map f (some a) = some (f a)

  -- The element that an update finds is the one that it changed.
  pub find_first-update_first_self :
      (p : A → Bool) (f : A → A) (xs : List A)
      → ((x : A) → p (f x) ≡ p x)
      → find_first p (update_first p f xs) ≡ option_map f (find_first p xs)
  find_first-update_first_self p f [] same = refl
  find_first-update_first_self p f (x ∷ xs) same = elim (Bool-cases (p x)) [
    | inl hit ↦ rw (hit, same x, hit)
    | inr miss ↦ rw (miss, miss) (find_first-update_first_self p f xs same)
  ]

  -- An update of elements that another search passes over is not seen by that search.
  pub find_first-update_first_other :
      (p q : A → Bool) (f : A → A) (xs : List A)
      → ((x : A) → p x ≡ true → q x ≡ false)
      → ((x : A) → p x ≡ true → q (f x) ≡ false)
      → find_first q (update_first p f xs) ≡ find_first q xs
  find_first-update_first_other p q f [] before after = refl
  find_first-update_first_other p q f (x ∷ xs) before after = elim (Bool-cases (p x)) [
    | inl hit ↦ rw (hit, before x hit, after x hit)
    | inr miss ↦
        rw miss (
          ap (λ r. if q x then some x else r) (find_first-update_first_other p q f xs before after))
  ]

  pub find_first-retain-none :
      (p q : A → Bool) (xs : List A)
      → ((x : A) → p x ≡ true → q x ≡ false)
      → find_first p (retain q xs) ≡ none
  find_first-retain-none p q [] h = refl
  find_first-retain-none p q (x ∷ xs) h = elim (Bool-cases (q x)) [
    | inl kept ↦ elim (Bool-cases (p x)) [
      | inl hit ↦ cc (h x hit)
      | inr miss ↦ rw (kept, miss) (find_first-retain-none p q xs h)
    ]
    | inr gone ↦ rw gone (find_first-retain-none p q xs h)
  ]

  pub find_first-retain_same :
      (p q : A → Bool) (xs : List A)
      → ((x : A) → p x ≡ true → q x ≡ true)
      → find_first p (retain q xs) ≡ find_first p xs
  find_first-retain_same p q [] h = refl
  find_first-retain_same p q (x ∷ xs) h = elim (Bool-cases (p x)) [
    | inl hit ↦ rw (hit, h x hit, hit)
    | inr miss ↦ elim (Bool-cases (q x)) [
      | inl kept ↦ rw (kept, miss) (find_first-retain_same p q xs h)
      | inr gone ↦ rw (gone, miss) (find_first-retain_same p q xs h)
    ]
  ]

  pub length-update_first :
      (p : A → Bool) (f : A → A) (xs : List A) → length (update_first p f xs) ≡ length xs
  length-update_first p f [] = refl
  length-update_first p f (x ∷ xs) = ground (arith, length-update_first p f xs)

  pub All-append {κ} : (P : A → Type κ) (xs ys : List A) → All P xs → All P ys → All P (xs ++ ys)
  All-append P [] ys h k = k
  All-append P (x ∷ xs) ys h k = (h.0, All-append P xs ys h.1 k)

  pub All-update_first {κ} :
      (P : A → Type κ) (p : A → Bool) (f : A → A) (xs : List A)
      → ((x : A) → P x → P (f x))
      → All P xs
      → All P (update_first p f xs)
  All-update_first P p f [] keep h = h
  All-update_first P p f (x ∷ xs) keep h = elim (Bool-cases (p x)) [
    | inl hit ↦ rw hit (keep x h.0, h.1)
    | inr miss ↦ rw miss (h.0, All-update_first P p f xs keep h.1)
  ]

  pub All-retain {κ} :
      (P : A → Type κ) (p : A → Bool) (xs : List A) → All P xs → All P (retain p xs)
  All-retain P p [] h = h
  All-retain P p (x ∷ xs) h = elim (Bool-cases (p x)) [
    | inl hit ↦ rw hit (h.0, All-retain P p xs h.1)
    | inr miss ↦ rw miss (All-retain P p xs h.1)
  ]

  pub find_first-retain_of_none :
      (p q : A → Bool) (xs : List A) → find_first p xs ≡ none → find_first p (retain q xs) ≡ none
  find_first-retain_of_none p q [] h = refl
  find_first-retain_of_none p q (x ∷ xs) h = elim (Bool-cases (p x)) [
    | inl hit ↦ absurd (ground arith)
    | inr miss ↦ elim (Bool-cases (q x)) [
      | inl kept ↦ rw (kept, miss) (find_first-retain_of_none p q xs (rw miss at h))
      | inr gone ↦ rw gone (find_first-retain_of_none p q xs (rw miss at h))
    ]
  ]

  -- An update that makes another test hold of what it finds gives that test a hit.
  pub find_first-update_first_makes :
      (p q : A → Bool) (f : A → A) (xs : List A) {t : A}
      → find_first p xs ≡ some t
      → q (f t) ≡ true
      → is_some (find_first q (update_first p f xs)) ≡ true
  find_first-update_first_makes p q f [] found holds = cc
  find_first-update_first_makes p q f (x ∷ xs) {t} found holds = elim (Bool-cases (p x)) [
    | inl hit ↦
        let same : x ≡ t = ground arith in
        let made : q (f x) ≡ true = rw same holds in rw (hit, made)
    | inr miss ↦ elim (Bool-cases (q x)) [
      | inl here ↦ rw (miss, here)
      | inr later ↦
          rw (miss, later) (find_first-update_first_makes p q f xs (rw miss at found) holds)
    ]
  ]

  pub any-append : (p : A → Bool) (xs ys : List A) → any p xs ≡ true → any p (xs ++ ys) ≡ true
  any-append p (x ∷ xs) ys h = ground (arith, any-append p xs ys)
  any-append p [] ys h = cc

  pub any-append_right : (p : A → Bool) (xs ys : List A) → any p ys ≡ true → any p (xs ++ ys) ≡ true
  any-append_right p [] ys h = h
  any-append_right p (x ∷ xs) ys h = ground (arith, any-append_right p xs ys)
