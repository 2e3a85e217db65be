-- ===== src/Ui/Auth.antt =====
-- `authenticate_user` of src/ui/bridge/auth.rs, and the callbacks of src/ui/bridge/entries.rs that only
-- ask for it before an editor opens.
use passx.Base.{
  Bool, Bool-cases, Option, Text, ap, arith, false, if◌then◌else◌, inl, inr, none, refl, some, true,
  ℕ, ◌+◌, ◌≡◌, ◌⊎◌,
}

-- `UserConsentVerificationResult`
pub data Verification : Type 0 where
  verified device_not_present not_configured_for_user disabled_by_policy : Verification
  device_busy retries_exhausted canceled : Verification

unfoldable pub is_verified : Verification → Bool
is_verified verified = true
is_verified _ = false

-- What Windows answers: whether there is a factory, the two operations, each with its outcome.
pub record Consent : Type 0 where
  pub has_factory : Bool
  pub window_operation : Option (Option Verification)
  pub operation : Option (Option Verification)

abbrev verdict : Option Verification → Bool
verdict none = false
verdict (some result) = is_verified result

abbrev standard : Option (Option Verification) → Bool
standard none = false
standard (some outcome) = verdict outcome

abbrev interop : Option (Option Verification) → Option (Option Verification) → Bool
interop none fallback = standard fallback
interop (some outcome) fallback = verdict outcome

unfoldable pub authenticate_user : Consent → Bool
unfolding is_verified
authenticate_user c =
    if c.has_factory then interop c.window_operation c.operation else standard c.operation

is_verified-eq-true : (v : Verification) → is_verified v ≡ true → v ≡ verified
unfolding is_verified
is_verified-eq-true verified h = refl
is_verified-eq-true device_not_present h = absurd (ground arith)
is_verified-eq-true not_configured_for_user h = absurd (ground arith)
is_verified-eq-true disabled_by_policy h = absurd (ground arith)
is_verified-eq-true device_busy h = absurd (ground arith)
is_verified-eq-true retries_exhausted h = absurd (ground arith)
is_verified-eq-true canceled h = absurd (ground arith)

verdict-eq-true : (o : Option Verification) → verdict o ≡ true → o ≡ some verified
verdict-eq-true none h = absurd (ground arith)
verdict-eq-true (some v) h = ap some (is_verified-eq-true v h)

standard-eq-true : (o : Option (Option Verification)) → standard o ≡ true → o ≡ some (some verified)
standard-eq-true none h = absurd (ground arith)
standard-eq-true (some o) h = ap some (verdict-eq-true o h)

interop-eq-true :
    (o fallback : Option (Option Verification))
    → interop o fallback ≡ true
    → (o ≡ some (some verified)) ⊎ (fallback ≡ some (some verified))
interop-eq-true none fallback h = inr (standard-eq-true fallback h)
interop-eq-true (some o) fallback h = inl (ap some (verdict-eq-true o h))

-- Nobody is let through unless one of the two operations was carried out and answered `Verified`.
pub authenticate_user-verified :
    (c : Consent)
    → authenticate_user c ≡ true
    → (c.window_operation ≡ some (some verified)) ⊎ (c.operation ≡ some (some verified))
unfolding authenticate_user
authenticate_user-verified c h = elim (Bool-cases c.has_factory) [
  | inl there ↦ interop-eq-true c.window_operation c.operation (rw there at h)
  | inr missing ↦ inr (standard-eq-true c.operation (rw missing at h))
]

-- The identifiers and the counters by which the window learns that an editor may open. A counter is
-- below its bound of 2^31.
pub record Editors : Type 0 where
  pub auth_edit_id : Text
  pub auth_edit_tick : ℕ
  pub auth_totp_id : Text
  pub auth_totp_tick : ℕ

unfoldable pub on_request_edit_entry : Consent → Text → Editors → Editors
unfolding authenticate_user
on_request_edit_entry c id w =
    if authenticate_user c
    then record w { auth_edit_id = id; auth_edit_tick = w.auth_edit_tick + 1 }
    else w

unfoldable pub on_request_edit_totp : Consent → Text → Editors → Editors
unfolding authenticate_user
on_request_edit_totp c id w =
    if authenticate_user c
    then record w { auth_totp_id = id; auth_totp_tick = w.auth_totp_tick + 1 }
    else w
