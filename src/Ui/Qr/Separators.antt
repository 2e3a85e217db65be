-- ===== src/Ui/Qr/Separators.antt =====
-- The separators of an address, and what a percent-encoder makes of them.
use passx.Base.{
  ==_iff, All, Bool, Bool-cases, [], any, arith, false, inl, inr, refl, some, subst, true, ℕ, ◌%◌,
  ◌++◌, ◌/◌, ◌<◌, ◌==◌, ◌∷◌, ◌≡◌,
}
use passx.Ui.Qr.{Chars, split_once, split_first}
use passx.Ui.Qr.Decode.{hex_char, encode_char, percent_encode, IsAscii}

abbrev pub has : ℕ → Chars → Bool
has c cs = any (λ x. x == c) cs

pub split_once-append :
    (c : ℕ) (xs ys : Chars) → has c xs ≡ false → split_once c (xs ++ (c ∷ ys)) ≡ some (xs, ys)
split_once-append c [] ys free = let same : (c == c) ≡ true = ground arith in rw same refl
split_once-append c (x ∷ xs) ys free =
    let here : (x == c) ≡ false = ground arith in
    let later : has c xs ≡ false = ground arith in rw (here, split_once-append c xs ys later) refl

pub split_first-append :
    (c : ℕ) (xs ys : Chars)
    → has c xs ≡ false
    → split_first c (xs ++ (c ∷ ys)) ≡ (xs, (split_first c ys).0 ∷ (split_first c ys).1)
split_first-append c [] ys free = let same : (c == c) ≡ true = ground arith in rw same refl
split_first-append c (x ∷ xs) ys free =
    let here : (x == c) ≡ false = ground arith in
    let later : has c xs ≡ false = ground arith in rw (here, split_first-append c xs ys later) refl

pub split_first_none : (c : ℕ) (xs : Chars) → has c xs ≡ false → split_first c xs ≡ (xs, [])
split_first_none c [] free = refl
split_first_none c (x ∷ xs) free =
    let here : (x == c) ≡ false = ground arith in
    let later : has c xs ≡ false = ground arith in rw (here, split_first_none c xs later) refl

pub has-append :
    (c : ℕ) (xs ys : Chars) → has c xs ≡ false → has c ys ≡ false → has c (xs ++ ys) ≡ false
has-append c [] ys h k = k
has-append c (x ∷ xs) ys h k = ground (arith, has-append c xs ys)

-- A separator that an encoder escapes, and that escapes are not made of.
pub record Separates (keep : ℕ → Bool) (d : ℕ) : Type 0 where
  pub escapes_it : keep d ≡ false
  pub not_percent : (b'%' == d) ≡ false
  pub not_hex : (n : ℕ) → n < 16 → (hex_char n == d) ≡ false

has-encode_char :
    (keep : ℕ → Bool) (d c : ℕ) → Separates keep d → c < 256 → has d (encode_char keep c) ≡ false
has-encode_char keep d c s small = elim (Bool-cases (keep c)) [
  | inl kept ↦ elim (Bool-cases (c == d)) [
    | inl same ↦
        let e : c ≡ d = (==_iff c d).0 same in
        let clash : keep d ≡ true = subst (λ x. keep x ≡ true) e kept in
        absurd (ground (arith, s.escapes_it))
    | inr other ↦ rw (kept, other) refl
  ]
  | inr dropped ↦
      rw
        (dropped, s.not_percent, s.not_hex (c / 16) (omega arith), s.not_hex (c % 16) (omega arith))
        refl
]

pub has-percent_encode :
    (keep : ℕ → Bool) (d : ℕ) (cs : Chars)
    → Separates keep d
    → All IsAscii cs
    → has d (percent_encode keep cs) ≡ false
unfolding percent_encode
has-percent_encode keep d [] s small = refl
has-percent_encode keep d (c ∷ cs) s small =
    has-append d (encode_char keep c) (percent_encode keep cs)
      (has-encode_char keep d c s (omega (arith, small.0))) (has-percent_encode keep d cs s small.1)
