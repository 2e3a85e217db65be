-- ===== src/Ui/Qr/Parse.antt =====
-- `parse_otpauth_uri` of src/ui/bridge/qr_scanner.rs on the addresses that issuers print.
use passx.Base.{
  All, Bool, Option, [], any, ap, append-nil, arith, bytes_eq, false, if◌then◌else◌, leb, ltb, none,
  not, refl, some, sym, ℕ, ◌&&◌, ◌++◌, ◌<◌, ◌||◌, ◌∙◌, ◌∷◌, ◌≡◌,
}
use passx.Ui.Qr.{
  QrResult, parse_params, parse_parts, parse_otpauth_uri, parse_query, is_empty_chars, cleaned,
  issuer_key, secret_key, parse_label, parse_param, totp_scheme, trim, Chars, Unicode, url_decode,
  split_once,
}
use passx.Ui.Qr.Separators.{
  has, split_once-append, split_first-append, split_first_none, has-append, has-percent_encode,
  Separates,
}
use passx.Ui.Qr.Decode.{
  percent_encode, Escapes, IsAscii, url_decode-percent_encode, url_decode_plain,
}

-- A lower-case ASCII character, or one without case.
abbrev pub IsLowerAscii : ℕ → Type 0
IsLowerAscii c = (c < 128) × ((leb b'A' c && leb c b'Z') ≡ false)

-- The documentation of `str::to_lowercase`.
pub record UnicodeLaws (u : Unicode) : Type 0 where
  pub lowercase_lower : (cs : Chars) → All IsLowerAscii cs → u.to_lowercase cs ≡ cs

decoded :
    (keep : ℕ → Bool) (cs : Chars)
    → Escapes keep
    → All IsAscii cs
    → url_decode (percent_encode keep cs) ≡ cs
unfolding url_decode
decoded keep cs e small =
    ap url_decode (sym (append-nil (percent_encode keep cs)))
    ∙ (url_decode-percent_encode keep cs [] e small ∙ append-nil cs)

is_upper_or_wide : ℕ → Bool
is_upper_or_wide c = not (ltb c 128) || (leb b'A' c && leb c b'Z')

All-IsLowerAscii : (cs : Chars) → any is_upper_or_wide cs ≡ false → All IsLowerAscii cs
unfolding is_upper_or_wide
All-IsLowerAscii [] h = tt
All-IsLowerAscii (c ∷ cs) h = ((ground arith, ground arith), All-IsLowerAscii cs (ground arith))

secret_key-lower : All IsLowerAscii secret_key
unfolding is_upper_or_wide
secret_key-lower = All-IsLowerAscii secret_key refl

issuer_key-lower : All IsLowerAscii issuer_key
unfolding is_upper_or_wide
issuer_key-lower = All-IsLowerAscii issuer_key refl

-- `otpauth://totp/ISSUER:ACCOUNT?secret=SECRET&issuer=ISSUER`
unfoldable pub otpauth_uri : (ℕ → Bool) → Chars → Chars → Chars → Chars
unfolding percent_encode
otpauth_uri keep issuer account secret =
    totp_scheme
    ++ ((percent_encode keep issuer ++ (b':' ∷ percent_encode keep account))
        ++ (b'?'
            ∷ ((secret_key ++ (b'=' ∷ percent_encode keep secret))
                ++ (b'&' ∷ (issuer_key ++ (b'=' ∷ percent_encode keep issuer))))))

-- What an address is printed from: ASCII characters, an account without spaces around it, a
-- secret that is clean already, and an issuer without a colon.
pub record IsPrintable (u : Unicode) (issuer account secret : Chars) : Type 0 where
  pub issuer_ascii : All IsAscii issuer
  pub account_ascii : All IsAscii account
  pub secret_ascii : All IsAscii secret
  pub no_colon : has b':' issuer ≡ false
  pub account_trimmed : trim account ≡ account
  pub secret_clean : cleaned u secret ≡ secret
  pub secret_there : is_empty_chars secret ≡ false

-- The encoder escapes what separates the parts of an address.
pub record IsEncoder (keep : ℕ → Bool) : Type 0 where
  pub escapes : Escapes keep
  pub query : Separates keep b'?'
  pub parameter : Separates keep b'&'

either_issuer : (issuer : Chars) → (if is_empty_chars issuer then trim issuer else issuer) ≡ issuer
unfolding trim
either_issuer [] = refl
either_issuer (c ∷ cs) = refl

module _ (u : Unicode) (laws : UnicodeLaws u) (keep : ℕ → Bool) (enc : IsEncoder keep) where
  label_lem :
      (issuer account : Chars)
      → All IsAscii issuer
      → All IsAscii account
      → has b':' issuer ≡ false
      → parse_label u (percent_encode keep issuer ++ (b':' ∷ percent_encode keep account))
        ≡ (trim issuer, trim account)
  unfolding parse_label
  label_lem issuer account is as' free =
      let text = issuer ++ (b':' ∷ account) in
      let e : url_decode (percent_encode keep issuer ++ (b':' ∷ percent_encode keep account))
          ≡ text =
        url_decode-percent_encode keep issuer (b':' ∷ percent_encode keep account) enc.escapes is
        ∙ ap (λ x. issuer ++ x)
            (url_decode_plain b':' (percent_encode keep account) refl
              ∙ ap (◌∷◌ b':') (decoded keep account enc.escapes as')) in
      ap
        (λ t. elim (split_once b':' t) as (λ x. Chars × Chars) [
          | none ↦ ([], trim t)
          | some (before, after) ↦ (trim before, trim after)
        ])
        e
      ∙ ap
          (λ o. elim o as (λ x. Chars × Chars) [
            | none ↦ ([], trim text)
            | some (before, after) ↦ (trim before, trim after)
          ])
          (split_once-append b':' issuer account free)

  param_secret :
      (value : Chars) (found : Chars × Chars)
      → All IsAscii value
      → parse_param u (secret_key ++ (b'=' ∷ percent_encode keep value)) found
        ≡ (cleaned u value, found.1)
  unfolding parse_param passx.Base.bytes_eq
  param_secret value found small =
      rw (laws.lowercase_lower secret_key secret_key-lower, decoded keep value enc.escapes small)
        refl

  param_issuer :
      (value : Chars) (found : Chars × Chars)
      → All IsAscii value
      → parse_param u (issuer_key ++ (b'=' ∷ percent_encode keep value)) found ≡ (found.0, value)
  unfolding parse_param passx.Base.bytes_eq
  param_issuer value found small =
      rw (laws.lowercase_lower issuer_key issuer_key-lower, decoded keep value enc.escapes small)
        refl

  query_lem :
      (issuer secret : Chars)
      → All IsAscii issuer
      → All IsAscii secret
      → parse_query u (
          (secret_key ++ (b'=' ∷ percent_encode keep secret))
          ++ (b'&' ∷ (issuer_key ++ (b'=' ∷ percent_encode keep issuer))))
        ≡ (cleaned u secret, issuer)
  query_lem issuer secret is ss =
      let first = secret_key ++ (b'=' ∷ percent_encode keep secret) in
      let second = issuer_key ++ (b'=' ∷ percent_encode keep issuer) in
      ap (λ t. parse_params u (t.0 ∷ t.1) ([], []))
        (split_first-append b'&' first second (has-percent_encode keep b'&' secret enc.parameter ss)
          ∙ ap (λ t. (first, t.0 ∷ t.1))
              (split_first_none b'&' second (has-percent_encode keep b'&' issuer enc.parameter is)))
      ∙ (ap (parse_param u second) (param_secret secret ([], []) ss)
          ∙ param_issuer issuer (cleaned u secret, []) is)

  parse_parts_lem :
      (label_part query_part account secret issuer : Chars)
      → parse_label u label_part ≡ (trim issuer, account)
      → parse_query u query_part ≡ (secret, issuer)
      → is_empty_chars secret ≡ false
      → parse_parts u label_part query_part
        ≡ some (record { account = account; secret = secret; issuer = issuer })
  parse_parts_lem label_part query_part account secret issuer hl hq there =
      rw (hl, hq, there)
        (ap (λ i. some (record { account = account; secret = secret; issuer = i }))
          (either_issuer issuer))

  -- An address whose parts are ASCII, printed with percent escapes, parses to the account, secret and
  -- issuer it was printed from.
  pub parse_otpauth_uri-otpauth_uri :
      (issuer account secret : Chars)
      → IsPrintable u issuer account secret
      → parse_otpauth_uri u (otpauth_uri keep issuer account secret)
        ≡ some (record { account = account; secret = secret; issuer = issuer })
  unfolding parse_otpauth_uri otpauth_uri
  parse_otpauth_uri-otpauth_uri issuer account secret pr =
      let label = percent_encode keep issuer ++ (b':' ∷ percent_encode keep account) in
      let query =
        (secret_key ++ (b'=' ∷ percent_encode keep secret))
        ++ (b'&' ∷ (issuer_key ++ (b'=' ∷ percent_encode keep issuer))) in
      let free : has b'?' label ≡ false =
        has-append b'?' (percent_encode keep issuer) (b':' ∷ percent_encode keep account)
          (has-percent_encode keep b'?' issuer enc.query pr.issuer_ascii)
          (has-percent_encode keep b'?' account enc.query pr.account_ascii) in
      ap
        (λ o. elim o as (λ x. Option QrResult) [
          | none ↦ parse_parts u (label ++ (b'?' ∷ query)) []
          | some (label_part, query_part) ↦ parse_parts u label_part query_part
        ])
        (split_once-append b'?' label query free)
      ∙ parse_parts_lem label query account secret issuer
          (label_lem issuer account pr.issuer_ascii pr.account_ascii pr.no_colon
            ∙ ap (λ a. (trim issuer, a)) pr.account_trimmed)
          (query_lem issuer secret pr.issuer_ascii pr.secret_ascii
            ∙ ap (λ c. (c, issuer)) pr.secret_clean)
          pr.secret_there
