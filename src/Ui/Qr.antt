-- ===== src/Ui/Qr.antt =====
-- `parse_otpauth_uri` and `url_decode` of src/ui/bridge/qr_scanner.rs. Here a text is the list of its
-- characters, as `url_decode` goes by characters; the other functions cut a text at ASCII characters
-- only.
pub mod Decode
pub mod Separators
pub mod Parse
pub mod Scan
use passx.Base.{
  Bool, List, Option, [], bytes_eq, false, if◌then◌else◌, leb, ltb, none, not, retain, some, true,
  ℕ, ◌&&◌, ◌*◌, ◌++◌, ◌+◌, ◌-◌, ◌==◌, ◌||◌, ◌∷◌,
}

abbrev pub Chars : Type 0
Chars = List ℕ

pub record QrResult : Type 0 where
  pub account : Chars
  pub secret : Chars
  pub issuer : Chars

-- The bytes of a character in UTF-8.
abbrev pub len_utf8 : ℕ → ℕ
len_utf8 c = if ltb c 128 then 1 else if ltb c 2048 then 2 else if ltb c 65536 then 3 else 4

unfoldable pub hex_digit : ℕ → Option ℕ
hex_digit c =
    if leb b'0' c && leb c b'9'
    then some (c - b'0')
    else if leb b'a' c && leb c b'f'
    then some (c - b'a' + 10)
    else if leb b'A' c && leb c b'F'
    then some (c - b'A' + 10)
    else none

-- `u8::from_str_radix(_, 16)` on two characters: a sign `+` may come first.
unfoldable pub hex_byte : ℕ → ℕ → Option ℕ
unfolding hex_digit
hex_byte a b = elim (hex_digit a) [
  | some high ↦ elim (hex_digit b) [ some low ↦ some (16 * high + low) | none ↦ none ]
  | none ↦ if a == b'+' then hex_digit b else none
]

-- What `%` and the two characters after it stand for. They have two bytes when both are ASCII.
unfoldable pub escaped : ℕ → ℕ → Chars
unfolding hex_byte
escaped a b = elim (hex_byte a b) [ some byte ↦ byte ∷ [] | none ↦ b'%' ∷ a ∷ b ∷ [] ]

abbrev pub unescaped : ℕ → ℕ
unescaped c = if c == b'+' then b' ' else c

-- An escape that the text ends in is kept as it stands.
unfoldable pub url_decode : Chars → Chars
unfolding escaped
url_decode [] = []
url_decode (c ∷ []) = unescaped c ∷ []
url_decode (c ∷ a ∷ []) = elim (c == b'%') [
  | true ↦ c ∷ a ∷ []
  | false ↦ unescaped c ∷ url_decode (a ∷ [])
]
url_decode (c ∷ a ∷ b ∷ rest) = elim (c == b'%') [
  | true ↦ escaped a b ++ url_decode rest
  | false ↦ unescaped c ∷ url_decode (a ∷ b ∷ rest)
]

-- The case of the characters beyond ASCII is not in the source.
pub record Unicode : Type 0 where
  pub wide_upper : ℕ → Chars
  pub to_lowercase : Chars → Chars

-- The characters with the property White_Space.
abbrev pub is_whitespace : ℕ → Bool
is_whitespace c =
    (leb 9 c && leb c 13)
    || (c == 32
        || (c == 133
            || (c == 160
                || (c == 5760
                    || ((leb 8192 c && leb c 8202)
                        || (c == 8232
                            || (c == 8233 || (c == 8239 || (c == 8287 || c == 12288)))))))))

abbrev pub trim_start : Chars → Chars
trim_start [] = []
trim_start (c ∷ cs) = elim (is_whitespace c) [ true ↦ trim_start cs | false ↦ c ∷ cs ]

abbrev trim_end : Chars → Chars
trim_end [] = []
trim_end (c ∷ cs) = elim (trim_end cs) [
  | [] ↦ if is_whitespace c then [] else c ∷ []
  | d ∷ ds ↦ c ∷ d ∷ ds
]

unfoldable pub trim : Chars → Chars
trim cs = trim_end (trim_start cs)

abbrev pub is_empty_chars : Chars → Bool
is_empty_chars [] = true
is_empty_chars (c ∷ cs) = false

-- `find(c)`, with the text before and after it.
abbrev pub split_once : ℕ → Chars → Option (Chars × Chars)
split_once c [] = none
split_once c (x ∷ xs) =
    let rest = split_once c xs in
    if x == c
    then some ([], xs)
    else elim rest [ none ↦ none | some (before, after) ↦ some (x ∷ before, after) ]

-- `split(c)`: the first part, and those after it.
abbrev pub split_first : ℕ → Chars → Chars × List Chars
split_first c [] = ([], [])
split_first c (x ∷ xs) =
    let rest = split_first c xs in if x == c then ([], rest.0 ∷ rest.1) else (x ∷ rest.0, rest.1)

-- `strip_prefix`.
abbrev pub strip_prefix : Chars → Chars → Option Chars
strip_prefix [] cs = some cs
strip_prefix (p ∷ ps) [] = none
strip_prefix (p ∷ ps) (c ∷ cs) = if p == c then strip_prefix ps cs else none

-- "otpauth://totp/", "otpauth://hotp/", "secret", "issuer"
abbrev otpauth : Chars → Chars
otpauth kind = b'o' ∷ b't' ∷ b'p' ∷ b'a' ∷ b'u' ∷ b't' ∷ b'h' ∷ b':' ∷ b'/' ∷ b'/' ∷ kind

abbrev pub totp_scheme : Chars
totp_scheme = otpauth (b't' ∷ b'o' ∷ b't' ∷ b'p' ∷ b'/' ∷ [])

abbrev pub hotp_scheme : Chars
hotp_scheme = otpauth (b'h' ∷ b'o' ∷ b't' ∷ b'p' ∷ b'/' ∷ [])

abbrev pub secret_key : Chars
secret_key = b's' ∷ b'e' ∷ b'c' ∷ b'r' ∷ b'e' ∷ b't' ∷ []

abbrev pub issuer_key : Chars
issuer_key = b'i' ∷ b's' ∷ b's' ∷ b'u' ∷ b'e' ∷ b'r' ∷ []

module _ (u : Unicode) where
  abbrev pub to_uppercase : Chars → Chars
  to_uppercase [] = []
  to_uppercase (c ∷ cs) =
      (if ltb c 128 then (if leb b'a' c && leb c b'z' then c - 32 else c) ∷ [] else u.wide_upper c)
      ++ to_uppercase cs

  -- `replace(' ', "").replace('-', "").to_uppercase()`
  unfoldable pub cleaned : Chars → Chars
  cleaned cs = to_uppercase (retain (λ c. not (c == b'-')) (retain (λ c. not (c == b' ')) cs))

  abbrev pub raw_secret : Chars → Option QrResult
  raw_secret uri = elim (cleaned uri) [
    | [] ↦ none
    | c ∷ cs ↦ some (record { account = []; secret = c ∷ cs; issuer = [] })
  ]

  -- The label: its issuer, which is empty without a colon, and its account.
  unfoldable pub parse_label : Chars → Chars × Chars
  unfolding url_decode trim
  parse_label label_part = elim (split_once b':' (url_decode label_part)) [
    | none ↦ ([], trim (url_decode label_part))
    | some (before, after) ↦ (trim before, trim after)
  ]

  -- One parameter, into the secret and the issuer so far.
  unfoldable pub parse_param : Chars → Chars × Chars → Chars × Chars
  unfolding url_decode cleaned
  parse_param param (secret, issuer) = elim (split_once b'=' param) [
    | none ↦ (secret, issuer)
    | some (key, value) ↦
        if bytes_eq (u.to_lowercase key) secret_key
        then (cleaned (url_decode value), issuer)
        else if bytes_eq (u.to_lowercase key) issuer_key
        then (secret, url_decode value)
        else (secret, issuer)
  ]

  abbrev pub parse_params : List Chars → Chars × Chars → Chars × Chars
  parse_params [] found = found
  parse_params (p ∷ ps) found = parse_params ps (parse_param p found)

  abbrev pub parse_query : Chars → Chars × Chars
  parse_query query_part =
      let parts = split_first b'&' query_part in parse_params (parts.0 ∷ parts.1) ([], [])

  abbrev pub parse_parts : Chars → Chars → Option QrResult
  parse_parts label_part query_part =
      let label = parse_label label_part in
      let query = parse_query query_part in
      if is_empty_chars query.0
      then none
      else some (record {
        account = label.1;
        secret = query.0;
        issuer = if is_empty_chars query.1 then label.0 else query.1;
      })

  abbrev pub parse_rest : Chars → Option QrResult
  parse_rest without_scheme = elim (split_once b'?' without_scheme) [
    | none ↦ parse_parts without_scheme []
    | some (label_part, query_part) ↦ parse_parts label_part query_part
  ]

  unfoldable pub parse_otpauth_uri : Chars → Option QrResult
  unfolding parse_label parse_param cleaned
  parse_otpauth_uri uri = elim (strip_prefix totp_scheme uri) [
    | some rest ↦ parse_rest rest
    | none ↦ elim (strip_prefix hotp_scheme uri) [
      | some rest ↦ parse_rest rest
      | none ↦ raw_secret uri
    ]
  ]
