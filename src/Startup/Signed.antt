-- ===== src/Startup/Signed.antt =====
-- What the window of src/main.rs being opened says of the machine.
use passx.Base.{
  Bool, Bool-cases, Bytes, Option, Option-cases, Text, ap, arith, drop, false, inl, inr, is_some,
  leb, length, length-take, ltb, none, not, refl, some, sym, take, take-append-drop, true, ℕ, ◌&&◌,
  ◌++◌, ◌-◌, ◌∙◌, ◌≡◌, ◌≢◌, ◌⊎◌,
}
use passx.Security.{Mutex, refused, already_exists, new_mutex, ensure_single_instance}
use passx.Security.Antivirus.{Csv, check_antivirus_availability}
use passx.Runtime.{
  Signing, Executable, Response, public_key_bytes, check_signature, read_exact,
  verify_self_integrity,
}
use passx.Runtime.Integrity.{says_revoked, check_signature_lem}
use passx.Startup.{opens, Machine, main, after_integrity}

some_injective {ℓ} : {A : Type ℓ} {x y : A} → some x ≡ some y → x ≡ y
some_injective h = cc

none_of {ℓ} : {A : Type ℓ} (o : Option A) → is_some o ≡ false → o ≡ none
none_of none h = refl
none_of (some a) h = cc

read_exact_inv :
    (n : ℕ) (bytes xs ys : Bytes)
    → read_exact n bytes ≡ some (xs, ys)
    → (bytes ≡ xs ++ ys) × (length xs ≡ n)
read_exact_inv n bytes xs ys h = elim (Bool-cases (leb n (length bytes))) [
  | inr few ↦ absurd (ground arith)
  | inl enough ↦
      let both : (take n bytes, drop n bytes) ≡ (xs, ys) = some_injective (rw enough at h) in
      (
        sym (take-append-drop n bytes) ∙ ap (λ q. q.0 ++ q.1) both,
        ap length (sym (ap (λ q. q.0) both)) ∙ length-take n bytes (ground arith),
      )
]

ensure_single_instance-true :
    (global_mutex local_mutex : Mutex)
    → ensure_single_instance global_mutex local_mutex ≡ true
    → (global_mutex ≡ new_mutex) ⊎ ((global_mutex ≡ refused) × (local_mutex ≢ already_exists))
unfolding ensure_single_instance
ensure_single_instance-true new_mutex local_mutex h = inl refl
ensure_single_instance-true already_exists local_mutex h = absurd (ground arith)
ensure_single_instance-true refused already_exists h = absurd (ground arith)
ensure_single_instance-true refused new_mutex h = inr (refl, λ e. cc)
ensure_single_instance-true refused refused h = inr (refl, λ e. cc)

module _ (s : Signing) (trim : Text → Text) where
  check_signature-true :
      (response : Response) (signed sig : Bytes)
      → check_signature s trim response signed sig ≡ some true
      → (key : s.Key) × (s.verifying_key public_key_bytes ≡ some key)
        × (s.verify key signed sig ≡ true)
        × (says_revoked trim response ≡ false)
  check_signature-true response signed sig h =
      elim (Option-cases (s.verifying_key public_key_bytes)) [
        | inl bad ↦ absurd (ground arith)
        | inr (key, good) ↦
            let accepted : (s.verify key signed sig && not (says_revoked trim response)) ≡ true =
              some_injective (sym (check_signature_lem s trim response signed sig key good) ∙ h) in
            (key, good, ground arith, ground arith)
      ]

  -- The public key accepts 64 bytes of the executable for those before them.
  abbrev pub IsSigned : Executable → Type 0
  IsSigned exe =
      (signed : Bytes) × (sig : Bytes) × (after : Bytes) × (key : s.Key) × (exe.content
        ≡ signed ++ (sig ++ after))
      × (length sig ≡ 64)
      × (s.verifying_key public_key_bytes ≡ some key)
      × (s.verify key signed sig ≡ true)

  verify_self_integrity-IsSigned :
      (exe : Executable) (response : Response)
      → verify_self_integrity s trim (some exe) response ≡ some true
      → IsSigned exe × (says_revoked trim response ≡ false)
  unfolding verify_self_integrity
  verify_self_integrity-IsSigned exe response h = elim (Option-cases exe.size) [
    | inl unknown ↦ absurd (ground arith)
    | inr (size, known) ↦ elim (Bool-cases (ltb size 64)) [
      | inl short ↦ absurd (ground arith)
      | inr long ↦ elim (Option-cases (read_exact (size - 64) exe.content)) [
        | inl cut ↦ absurd (ground arith)
        | inr ((signed, rest), first) ↦ elim (Option-cases (read_exact 64 rest)) [
          | inl cut ↦ absurd (ground arith)
          | inr ((sig, after), second) ↦
              let checked : check_signature s trim response signed sig ≡ some true = ground arith in
              let (key, good, accepted, fresh) = check_signature-true response signed sig checked in
              let (whole, _) = read_exact_inv (size - 64) exe.content signed rest first in
              let (tail, measured) = read_exact_inv 64 rest sig after second in
              (
                (
                  signed,
                  sig,
                  after,
                  key,
                  whole ∙ ap (λ r. signed ++ r) tail,
                  measured,
                  good,
                  accepted,
                ),
                fresh,
              )
        ]
      ]
    ]
  ]

  after_integrity-opens :
      (c : Csv) (tpm_available : Bool) (x : Option Bool) {tpm : Bool}
      → after_integrity c s trim tpm_available x ≡ opens tpm
      → (x ≡ some true) × (tpm ≡ tpm_available)
  after_integrity-opens c tpm_available none h = cc
  after_integrity-opens c tpm_available (some false) h = cc
  after_integrity-opens c tpm_available (some true) h = (refl, cc)

  main_checks :
      (c : Csv) (m : Machine) {tpm : Bool}
      → main c s trim m ≡ opens tpm
      → (m.is_admin ≡ true)
        × (is_some (check_antivirus_availability c m.defender m.others m.products) ≡ false)
        × (ensure_single_instance m.global_mutex m.local_mutex ≡ true)
        × (after_integrity c s trim m.tpm_available
              (verify_self_integrity s trim m.executable m.response)
            ≡ opens tpm)
  unfolding main
  main_checks c m {tpm} h = ground arith

  executable-IsSigned :
      (file : Option Executable) (response : Response)
      → verify_self_integrity s trim file response ≡ some true
      → ((exe : Executable) × (file ≡ some exe) × IsSigned exe)
        × (says_revoked trim response ≡ false)
  unfolding verify_self_integrity
  executable-IsSigned none response h = cc
  executable-IsSigned (some exe) response h =
      let (signed, fresh) = verify_self_integrity-IsSigned exe response h in
      ((exe, refl, signed), fresh)

  -- When the window is opened, the process is an administrator's; the global mutex was new, or it could
  -- not be created and the local one was not there already; there was no alert about the antivirus; the
  -- executable could be opened and is signed; and GitHub did not answer that it is revoked. The window
  -- is told whether there is a TPM.
  pub main_opens :
      (c : Csv) (m : Machine) {tpm : Bool}
      → main c s trim m ≡ opens tpm
      → (m.is_admin ≡ true)
        × (check_antivirus_availability c m.defender m.others m.products ≡ none)
        × ((m.global_mutex ≡ new_mutex)
            ⊎ ((m.global_mutex ≡ refused) × (m.local_mutex ≢ already_exists)))
        × ((exe : Executable) × (m.executable ≡ some exe) × IsSigned exe)
        × (says_revoked trim m.response ≡ false)
        × (tpm ≡ m.tpm_available)
  main_opens c m {tpm} h =
      let (admin, quiet, alone, verdict) = main_checks c m h in
      let (valid, same_tpm) =
        after_integrity-opens c m.tpm_available
          (verify_self_integrity s trim m.executable m.response) verdict in
      let (signed, fresh) = executable-IsSigned m.executable m.response valid in
      (
        admin,
        none_of (check_antivirus_availability c m.defender m.others m.products) quiet,
        ensure_single_instance-true m.global_mutex m.local_mutex alone,
        signed,
        fresh,
        same_tpm,
      )
