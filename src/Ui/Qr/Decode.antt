-- ===== src/Ui/Qr/Decode.antt =====
-- `url_decode` of src/ui/bridge/qr_scanner.rs on what a percent-encoder writes.
use passx.Base.{
  ==_iff, All, Bool, Bool-cases, [], ap, arith, false, if◌then◌else◌, inl, inr, ltb, refl, some,
  subst, true, ℕ, ◌%◌, ◌++◌, ◌+◌, ◌-◌, ◌/◌, ◌<◌, ◌==◌, ◌∙◌, ◌∷◌, ◌≡◌,
}
use passx.Ui.Qr.{Chars, hex_digit, hex_byte, escaped, unescaped, url_decode}

abbrev pub hex_char : ℕ → ℕ
hex_char n = if ltb n 10 then b'0' + n else b'A' + (n - 10)

abbrev pub encode_char : (ℕ → Bool) → ℕ → Chars
encode_char keep c = if keep c then c ∷ [] else b'%' ∷ hex_char (c / 16) ∷ hex_char (c % 16) ∷ []

-- What a percent-encoder writes of ASCII: the characters that `keep` says as they are, the others with
-- the two digits of their one byte. (A wider character has more bytes in UTF-8.)
unfoldable pub percent_encode : (ℕ → Bool) → Chars → Chars
percent_encode keep [] = []
percent_encode keep (c ∷ cs) = encode_char keep c ++ percent_encode keep cs

-- One that escapes at least the two characters that `url_decode` changes.
pub record Escapes (keep : ℕ → Bool) : Type 0 where
  pub escapes_percent : keep b'%' ≡ false
  pub escapes_plus : keep b'+' ≡ false

abbrev pub IsAscii : ℕ → Type 0
IsAscii c = c < 128

hex_digit-hex_char : (n : ℕ) → n < 16 → hex_digit (hex_char n) ≡ some n
unfolding hex_digit
hex_digit-hex_char n h = ground arith

hex_byte-hex_char : (c : ℕ) → c < 256 → hex_byte (hex_char (c / 16)) (hex_char (c % 16)) ≡ some c
unfolding hex_byte
hex_byte-hex_char c h =
    rw
      (
        hex_byte,
        hex_digit-hex_char (c / 16) (omega arith),
        hex_digit-hex_char (c % 16) (omega arith),
      )
      (ap some (omega arith))

pub url_decode_plain :
    (c : ℕ) (rest : Chars)
    → (c == b'%') ≡ false
    → url_decode (c ∷ rest) ≡ unescaped c ∷ url_decode rest
unfolding url_decode
url_decode_plain c [] plain = refl
url_decode_plain c (a ∷ []) plain = rw (plain, url_decode) refl
url_decode_plain c (a ∷ b ∷ rest) plain = rw (plain, url_decode) refl

url_decode_escape :
    (a b : ℕ) (rest : Chars) {byte : ℕ}
    → hex_byte a b ≡ some byte
    → url_decode (b'%' ∷ a ∷ b ∷ rest) ≡ byte ∷ url_decode rest
unfolding url_decode escaped
url_decode_escape a b rest h = rw (escaped, h) refl

differs : (keep : ℕ → Bool) (c d : ℕ) → keep c ≡ true → keep d ≡ false → (c == d) ≡ false
differs keep c d kept dropped = elim (Bool-cases (c == d)) [
  | inl same ↦
      let e : c ≡ d = (==_iff c d).0 same in
      let clash : keep d ≡ true = subst (λ x. keep x ≡ true) e kept in cc
  | inr other ↦ other
]

pub url_decode-percent_encode :
    (keep : ℕ → Bool) (cs rest : Chars)
    → Escapes keep
    → All IsAscii cs
    → url_decode (percent_encode keep cs ++ rest) ≡ cs ++ url_decode rest
unfolding percent_encode
url_decode-percent_encode keep [] rest e small = refl
url_decode-percent_encode keep (c ∷ cs) rest e small = elim (Bool-cases (keep c)) [
  | inl kept ↦
      let plain : (c == b'%') ≡ false = differs keep c b'%' kept e.escapes_percent in
      let same : unescaped c ≡ c = rw (differs keep c b'+' kept e.escapes_plus) refl in
      rw kept (
        url_decode_plain c (percent_encode keep cs ++ rest) plain
        ∙ (ap (λ x. x ∷ url_decode (percent_encode keep cs ++ rest)) same
            ∙ ap (◌∷◌ c) (url_decode-percent_encode keep cs rest e small.1)))
  | inr not_kept ↦ rw not_kept (
      url_decode_escape (hex_char (c / 16)) (hex_char (c % 16)) (percent_encode keep cs ++ rest)
        (hex_byte-hex_char c (omega (arith, small.0)))
      ∙ ap (◌∷◌ c) (url_decode-percent_encode keep cs rest e small.1))
]
