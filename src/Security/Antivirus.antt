-- ===== src/Security/Antivirus.antt =====
-- src/security/antivirus.rs. What PowerShell prints is an argument. The crates csv and serde are the
-- record `Csv`; what they document of a field that the headers do not have is `CsvLaws`.
use passx.Base.{
  All, Bool, List, Option, Text, [], any, arith, bytes_eq, false, filter_map, if◌then◌else◌, leb,
  ltb, map, none, not, refl, some, true, ℕ, ◌%◌, ◌&&◌, ◌*◌, ◌+◌, ◌-◌, ◌/◌, ◌==◌, ◌^◌, ◌||◌, ◌∷◌,
  ◌≡◌,
}

pub record Csv : Type 0 where
  -- The headers of a text.
  pub headers : Text → List Text
  -- `deserialize` into a struct with these fields: the values of each row, or the error of the row.
  pub deserialize : List Text → Text → List (Option (List Text))

abbrev pub names : Text → List Text → Bool
names field fields = any (λ f. bytes_eq f field) fields

pub record CsvLaws (c : Csv) : Type 0 where
  -- A field that no header has is missing in every row.
  pub missing_field :
      (field : Text) (fields : List Text) (text : Text)
      → names field fields ≡ true
      → names field (c.headers text) ≡ false
      → All (λ row. row ≡ none) (c.deserialize fields text)

-- What `Command::output` gives, `none` for an error: whether the command succeeded, and its output as
-- `String::from_utf8_lossy` reads it.
pub record Output : Type 0 where
  pub success : Bool
  pub stdout : Text

-- "AMServiceEnabled", "RealTimeProtectionEnabled", "AntivirusEnabled", "displayName",
-- "productState", "display_name", "true"
abbrev pub am_service_enabled : Text
am_service_enabled =
    b'A' ∷ b'M' ∷ b'S' ∷ b'e' ∷ b'r' ∷ b'v' ∷ b'i' ∷ b'c' ∷ b'e' ∷ b'E' ∷ b'n' ∷ b'a' ∷ b'b' ∷ b'l'
    ∷ b'e' ∷ b'd' ∷ []

abbrev pub real_time_protection_enabled : Text
real_time_protection_enabled =
    b'R' ∷ b'e' ∷ b'a' ∷ b'l' ∷ b'T' ∷ b'i' ∷ b'm' ∷ b'e' ∷ b'P' ∷ b'r' ∷ b'o' ∷ b't' ∷ b'e' ∷ b'c'
    ∷ b't' ∷ b'i' ∷ b'o' ∷ b'n' ∷ b'E' ∷ b'n' ∷ b'a' ∷ b'b' ∷ b'l' ∷ b'e' ∷ b'd' ∷ []

abbrev pub antivirus_enabled : Text
antivirus_enabled =
    b'A' ∷ b'n' ∷ b't' ∷ b'i' ∷ b'v' ∷ b'i' ∷ b'r' ∷ b'u' ∷ b's' ∷ b'E' ∷ b'n' ∷ b'a' ∷ b'b' ∷ b'l'
    ∷ b'e' ∷ b'd' ∷ []

abbrev pub display_name : Text
display_name = b'd' ∷ b'i' ∷ b's' ∷ b'p' ∷ b'l' ∷ b'a' ∷ b'y' ∷ b'N' ∷ b'a' ∷ b'm' ∷ b'e' ∷ []

abbrev product_state : Text
product_state =
    b'p' ∷ b'r' ∷ b'o' ∷ b'd' ∷ b'u' ∷ b'c' ∷ b't' ∷ b'S' ∷ b't' ∷ b'a' ∷ b't' ∷ b'e' ∷ []

-- The name of the field of `NameOnly`, which has no other one for serde.
abbrev pub name_only : Text
name_only = b'd' ∷ b'i' ∷ b's' ∷ b'p' ∷ b'l' ∷ b'a' ∷ b'y' ∷ b'_' ∷ b'n' ∷ b'a' ∷ b'm' ∷ b'e' ∷ []

abbrev pub true_text : Text
true_text = b't' ∷ b'r' ∷ b'u' ∷ b'e' ∷ []

abbrev to_ascii_lowercase : ℕ → ℕ
to_ascii_lowercase c = if leb b'A' c && leb c b'Z' then c + 32 else c

unfoldable pub eq_ignore_ascii_case : Text → Text → Bool
eq_ignore_ascii_case a b = bytes_eq (map to_ascii_lowercase a) (map to_ascii_lowercase b)

-- `str::parse::<u32>`: digits after a plus sign or none, below 2^32.
abbrev parse_digits : ℕ → Text → Option ℕ
parse_digits n [] = some n
parse_digits n (c ∷ cs) =
    let rest = parse_digits (n * 10 + (c - b'0')) cs in
    if not (leb b'0' c && leb c b'9')
    then none
    else if ltb (n * 10 + (c - b'0')) (2 ^ 32)
    then rest
    else none

unfoldable pub parse_u32 : Text → Option ℕ
parse_u32 [] = none
parse_u32 (c ∷ []) = if c == b'+' then none else parse_digits 0 (c ∷ [])
parse_u32 (c ∷ d ∷ cs) = if c == b'+' then parse_digits 0 (d ∷ cs) else parse_digits 0 (c ∷ d ∷ cs)

-- The three fields say that Defender runs.
abbrev is_healthy : Option (List Text) → Bool
is_healthy (some (service ∷ real_time ∷ antivirus ∷ [])) =
    eq_ignore_ascii_case service true_text
    && (eq_ignore_ascii_case real_time true_text && eq_ignore_ascii_case antivirus true_text)
is_healthy _ = false

-- `product_state & 0x10000`
abbrev is_running : Option (List Text) → Bool
is_running (some (shown_name ∷ state ∷ [])) = elim (parse_u32 state) [
  | none ↦ false
  | some n ↦ not ((n / 65536) % 2 == 0)
]
is_running _ = false

pub data Alert : Type 0 where
  none_detected : Alert
  not_active : List Text → Alert

module _ (c : Csv) where
  abbrev rows_of : List Text → Option Output → List (Option (List Text))
  rows_of fields none = []
  rows_of fields (some out) = if out.success then c.deserialize fields out.stdout else []

  unfoldable pub check_windows_defender_deep : Option Output → Bool
  unfolding eq_ignore_ascii_case
  check_windows_defender_deep output =
      any is_healthy (
        rows_of (am_service_enabled ∷ real_time_protection_enabled ∷ antivirus_enabled ∷ []) output)

  unfoldable pub check_other_antiviruses_running : Option Output → Bool
  unfolding parse_u32
  check_other_antiviruses_running output =
      any is_running (rows_of (display_name ∷ product_state ∷ []) output)

  abbrev first_field : Option (List Text) → Option Text
  first_field (some (value ∷ [])) = some value
  first_field _ = none

  -- It does not look at the exit status.
  unfoldable pub get_detected_av_names : Option Output → List Text
  get_detected_av_names none = []
  get_detected_av_names (some out) =
      filter_map first_field (c.deserialize (name_only ∷ []) out.stdout)

  abbrev alert_for : List Text → Alert
  alert_for [] = none_detected
  alert_for (name ∷ rest) = not_active (name ∷ rest)

  -- The alert after which the process exits with 1; `none` when it goes on. The third query is made
  -- only then.
  unfoldable pub check_antivirus_availability :
      Option Output → Option Output → Option Output → Option Alert
  unfolding check_windows_defender_deep check_other_antiviruses_running get_detected_av_names
  check_antivirus_availability defender others products =
      if check_windows_defender_deep defender
      then none
      else if check_other_antiviruses_running others
      then none
      else some (alert_for (get_detected_av_names products))

  module _ (laws : CsvLaws c) where
    none_named :
        (rows : List (Option (List Text)))
        → All (λ row. row ≡ none) rows
        → filter_map first_field rows ≡ []
    none_named [] h = refl
    none_named (row ∷ rows) h = rw (h.0) (none_named rows h.1)

    get_detected_av_names-empty :
        (out : Output)
        → c.headers out.stdout ≡ display_name ∷ []
        → get_detected_av_names (some out) ≡ []
    unfolding get_detected_av_names bytes_eq
    get_detected_av_names-empty out printed =
        none_named (c.deserialize (name_only ∷ []) out.stdout)
          (laws.missing_field name_only (name_only ∷ []) out.stdout refl (rw printed refl))

    -- The products are listed under the header "displayName", so the alert never names any of them:
    -- without an active antivirus the process ends with the alert that none was detected, whichever
    -- products there are.
    pub check_antivirus_availability_unnamed :
        (defender others : Option Output) (products : Output)
        → c.headers products.stdout ≡ display_name ∷ []
        → check_antivirus_availability defender others (some products) ≡ (
            if check_windows_defender_deep defender || check_other_antiviruses_running others
            then none
            else some none_detected)
    unfolding check_antivirus_availability
    check_antivirus_availability_unnamed defender others products printed =
        ground (arith, get_detected_av_names-empty products printed)
