-- ===== src/Tests/Launches.antt =====
-- Starts of the program: its checks, and its window.
use passx.Base.{
  Bool, Bool-cases, List, Text, [], ap, arith, bytes_eq, bytes_eq→eq, false, if◌then◌else◌, inl,
  inr, length, map, none, refl, replicate, some, true, ◌&&◌, ◌++◌, ◌+◌, ◌||◌, ◌∷◌, ◌≡◌, ◌≢◌, ◌⊎◌,
}
use passx.Ui.Qr.{split_first}
use passx.Security.{already_exists, refused, new_mutex}
use passx.Security.Antivirus.{
  Csv, CsvLaws, Output, names, display_name, am_service_enabled, real_time_protection_enabled,
  antivirus_enabled, true_text, none_detected, check_windows_defender_deep,
  check_other_antiviruses_running, check_antivirus_availability, eq_ignore_ascii_case,
  check_antivirus_availability_unnamed,
}
use passx.Runtime.{Executable}
use passx.Runtime.Integrity.{says_revoked}
use passx.Startup.{Machine, main}
use passx.Startup.Signed.{IsSigned, main_opens}
use passx.Tests.Copies.{first_byte, untrimmed, program, answer}

-- A text is its headers with commas between them, and has one row, which says "true" throughout.
abbrev headers : Text → List Text
headers text = let parts = split_first b',' text in parts.0 ∷ parts.1

abbrev covered : List Text → List Text → Bool
covered [] hs = true
covered (f ∷ fs) hs = names f hs && covered fs hs

abbrev one_row : Csv
one_row = record {
  headers = headers;
  deserialize = λ fields text.
      (if covered fields (headers text) then some (map (λ f. true_text) fields) else none) ∷ [];
}

names_same : (f g : Text) (hs : List Text) → bytes_eq f g ≡ true → names f hs ≡ names g hs
names_same f g hs same = ap (λ x. names x hs) (bytes_eq→eq f g same)

uncovered :
    (field : Text) (fields hs : List Text)
    → names field fields ≡ true
    → names field hs ≡ false
    → covered fields hs ≡ false
uncovered field [] hs listed missing = cc
uncovered field (f ∷ fs) hs listed missing = elim (Bool-cases (bytes_eq f field)) [
  | inl same ↦ rw (names_same f field hs same, missing) refl
  | inr other ↦ ground (arith, uncovered field fs hs)
]

one_row-CsvLaws : CsvLaws one_row
one_row-CsvLaws = record {
  missing_field = λ field fields text listed missing.
      (rw (uncovered field fields (headers text) listed missing) refl, tt);
}

abbrev listed_products : Output
listed_products = record { success = true; stdout = display_name }

check_antivirus_availability_unnamed_example :
    check_antivirus_availability one_row none none (some listed_products) ≡ (
      if check_windows_defender_deep one_row none || check_other_antiviruses_running one_row none
      then none
      else some none_detected)
check_antivirus_availability_unnamed_example =
    check_antivirus_availability_unnamed one_row one_row-CsvLaws none none listed_products refl

abbrev status : Output
status = record {
  success = true;
  stdout =
      am_service_enabled ++ (b',' ∷ (real_time_protection_enabled ++ (b',' ∷ antivirus_enabled)));
}

abbrev healthy : Machine
healthy = record {
  is_admin = true;
  relaunch_as_admin = false;
  defender = some status;
  others = none;
  products = none;
  global_mutex = new_mutex;
  local_mutex = new_mutex;
  is_release = true;
  debugger_present = false;
  executable =
      some (record { size = some (length program + 64); content = program ++ replicate 64 77 });
  response = answer;
  tpm_available = true;
}

main_opens_example :
    (healthy.is_admin ≡ true)
    × (check_antivirus_availability one_row (some status) none none ≡ none)
    × ((new_mutex ≡ new_mutex) ⊎ ((new_mutex ≡ refused) × (new_mutex ≢ already_exists)))
    × ((exe : Executable) × (healthy.executable ≡ some exe) × IsSigned first_byte untrimmed exe)
    × (says_revoked untrimmed answer ≡ false)
    × (true ≡ true)
unfolding main eq_ignore_ascii_case bytes_eq
main_opens_example = main_opens first_byte untrimmed one_row healthy refl
