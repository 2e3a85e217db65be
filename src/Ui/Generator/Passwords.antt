-- ===== src/Ui/Generator/Passwords.antt =====
-- What `on_generate_password` of src/ui/bridge/entries.rs answers.
use passx.Base.{
  ==_iff, All, Bool, Bool-cases, Option, Text, [], any, ap, arith, false, if◌then◌else◌, inl, inr,
  leb, length, ltb, none, not, refl, some, subst, suc, true, zero, ℕ, ◌&&◌, ◌<◌, ◌==◌, ◌^◌, ◌||◌,
  ◌∙◌, ◌∷◌, ◌≡◌,
}
use passx.Vault.Format.{Vault}
use passx.Ui.State.{AppState}
use passx.Ui.Generator.{
  charset, nth, pick, as_usize, on_generate_password, on_generate_password_from_settings,
  on_get_generator_settings, default_settings,
}

abbrev pub IsOf : Text → ℕ → Type 0
IsOf cs c = any (λ x. x == c) cs ≡ true

-- The letters, the digits and the punctuation of ASCII.
abbrev between : ℕ → ℕ → ℕ → Bool
between low high c = leb low c && leb c high

abbrev pub is_upper : ℕ → Bool
is_upper c = between 65 90 c

abbrev pub is_lower : ℕ → Bool
is_lower c = between 97 122 c

abbrev pub is_digit : ℕ → Bool
is_digit c = between 48 57 c

abbrev pub is_symbol : ℕ → Bool
is_symbol c = between 33 126 c && not (is_upper c || (is_lower c || is_digit c))

-- What each switch of the window asks for, and what is meant without any.
abbrev pub asked_for : Bool → Bool → Bool → Bool → ℕ → Bool
asked_for u l n s c =
    if u || (l || (n || s))
    then (u && is_upper c) || ((l && is_lower c) || ((n && is_digit c) || (s && is_symbol c)))
    else is_lower c || is_digit c

-- A password of `n` characters that `wanted` holds of.
pub record IsPassword (wanted : ℕ → Bool) (n : ℕ) (password : Text) : Type 0 where
  pub has_length : length password ≡ n
  pub has_chars : All (λ c. wanted c ≡ true) password

-- One of `n` characters out of `cs`.
record IsDrawn (cs : Text) (n : ℕ) (password : Text) : Type 0 where
  drawn_length : length password ≡ n
  drawn_chars : All (IsOf cs) password

-- The documentation of `gen_range(0..n)`: the answer lies in the range.
abbrev pub InRange : (ℕ → ℕ → ℕ) → Type 0
InRange gen_range = (k n : ℕ) → 0 < n → gen_range k n < n

nth_lem : (n : ℕ) (cs : Text) → n < length cs → (c : ℕ) × (nth n cs ≡ some c) × IsOf cs c
nth_lem n [] h = absurd (omega arith)
nth_lem zero (c ∷ cs) h = (c, refl, ground arith)
nth_lem (suc n) (c ∷ cs) h =
    let (d, found, member) = nth_lem n cs (omega arith) in (d, found, ground arith)

pick_step :
    (gen_range : ℕ → ℕ → ℕ) (cs : Text) (k n : ℕ) {c : ℕ} {rest : Text}
    → nth (gen_range k (length cs)) cs ≡ some c
    → pick gen_range cs (suc k) n ≡ some rest
    → pick gen_range cs k (suc n) ≡ some (c ∷ rest)
unfolding pick
pick_step gen_range cs k n found picked = rw (pick, found, picked) refl

as_usize_lem : (len : ℕ) → len < 2 ^ 31 → as_usize len ≡ len
unfolding as_usize
as_usize_lem len small = ground arith

pick_lem :
    (gen_range : ℕ → ℕ → ℕ) (cs : Text) (k n : ℕ)
    → InRange gen_range
    → 0 < length cs
    → (password : Text) × (pick gen_range cs k n ≡ some password) × IsDrawn cs n password
unfolding pick
pick_lem gen_range cs k zero range full =
    ([], refl, record { drawn_length = refl; drawn_chars = tt })
pick_lem gen_range cs k (suc n) range full =
    let (c, found, member) = nth_lem (gen_range k (length cs)) cs (range k (length cs) full) in
    let (rest, picked, sound) = pick_lem gen_range cs (suc k) n range full in
    (
      c ∷ rest,
      pick_step gen_range cs k n found picked,
      record {
        drawn_length = ap suc sound.drawn_length;
        drawn_chars = (member, sound.drawn_chars);
      },
    )

charset_nonempty : (u l n s : Bool) → 0 < length (charset u l n s)
unfolding charset
charset_nonempty true l n s = omega arith
charset_nonempty false true n s = omega arith
charset_nonempty false false true s = omega arith
charset_nonempty false false false true = omega arith
charset_nonempty false false false false = omega arith

abbrev all_of : (ℕ → Bool) → Text → Bool
all_of wanted [] = true
all_of wanted (c ∷ cs) = wanted c && all_of wanted cs

charset-asked_for : (u l n s : Bool) → all_of (asked_for u l n s) (charset u l n s) ≡ true
unfolding charset
charset-asked_for true true true true = refl
charset-asked_for true true true false = refl
charset-asked_for true true false true = refl
charset-asked_for true true false false = refl
charset-asked_for true false true true = refl
charset-asked_for true false true false = refl
charset-asked_for true false false true = refl
charset-asked_for true false false false = refl
charset-asked_for false true true true = refl
charset-asked_for false true true false = refl
charset-asked_for false true false true = refl
charset-asked_for false true false false = refl
charset-asked_for false false true true = refl
charset-asked_for false false true false = refl
charset-asked_for false false false true = refl
charset-asked_for false false false false = refl

all_of-IsOf :
    (wanted : ℕ → Bool) (cs : Text) (c : ℕ) → all_of wanted cs ≡ true → IsOf cs c → wanted c ≡ true
all_of-IsOf wanted [] c every member = absurd (ground arith)
all_of-IsOf wanted (d ∷ cs) c every member = elim (Bool-cases (d == c)) [
  | inl same ↦
      let e : d ≡ c = (==_iff d c).0 same in
      let first : wanted d ≡ true = ground arith in subst (λ x. wanted x ≡ true) e first
  | inr other ↦ all_of-IsOf wanted cs c (ground arith) (ground arith)
]

picked_wanted :
    (wanted : ℕ → Bool) (cs password : Text)
    → all_of wanted cs ≡ true
    → All (IsOf cs) password
    → All (λ c. wanted c ≡ true) password
picked_wanted wanted cs [] every members = tt
picked_wanted wanted cs (c ∷ password) every members =
    (all_of-IsOf wanted cs c every members.0, picked_wanted wanted cs password every members.1)

-- When the generator of random numbers answers within the range that it is asked for, a length that
-- is not negative gives a password of that length, in which every character is of a kind that was
-- asked for: upper-case letters, lower-case letters, digits, punctuation; or a lower-case letter or a
-- digit when no kind was.
pub on_generate_password-IsPassword :
    (gen_range : ℕ → ℕ → ℕ) (len : ℕ) (u l n s : Bool)
    → InRange gen_range
    → len < 2 ^ 31
    → (password : Text) × (on_generate_password gen_range len u l n s ≡ some password)
      × IsPassword (asked_for u l n s) len password
unfolding on_generate_password
on_generate_password-IsPassword gen_range len u l n s range small =
    let same = as_usize_lem len small in
    let (password, picked, sound) =
      pick_lem gen_range (charset u l n s) 0 len range (charset_nonempty u l n s) in
    let fits : ltb len (2 ^ 63) ≡ true = ground arith in
    (
      password,
      ap
            (λ m. elim (ltb m (2 ^ 63)) as (λ b. Option Text) [
              | true ↦ pick gen_range (charset u l n s) 0 m
              | false ↦ none
            ])
            same
          ∙ (ap
                (λ b. elim b as (λ b. Option Text) [
                  | true ↦ pick gen_range (charset u l n s) 0 len
                  | false ↦ none
                ])
                fits
              ∙ picked),
      record {
        has_length = sound.drawn_length;
        has_chars =
            picked_wanted (asked_for u l n s) (charset u l n s) password (charset-asked_for u l n s)
              sound.drawn_chars;
      },
    )

-- With a stored length of zero the window is told the default settings, of 16 characters, while the
-- passwords that are generated from the settings are empty.
zero_length_settings :
    (gen_range : ℕ → ℕ → ℕ) (state : AppState) (v : Vault)
    → state.vault ≡ some v
    → v.generator_settings.length ≡ 0
    → (on_get_generator_settings state ≡ default_settings)
      × (on_generate_password_from_settings gen_range state ≡ some [])
unfolding on_get_generator_settings on_generate_password_from_settings on_generate_password pick
    as_usize
zero_length_settings gen_range state v opened empty =
    (rw (opened, empty) refl, rw (opened, empty) refl)
