-- ===== src/Tpm/Nonce.antt =====
-- src/tpm/nonce.rs. The TPM is the record `Counter` of what the crate tss-esapi answers; what the TPM
-- documents of a counter in its non-volatile memory is `CounterLaws`.
use passx.Base.{
  Result, Bool, Bool-cases, Bytes, Option, Option-cases, [], ap, arith, err, if◌then◌else◌, inl,
  inr, length, ltb, none, not, ok, refl, some, subst, suc, sym, take, ℕ, ◌%◌, ◌*◌, ◌+◌, ◌/◌, ◌<◌,
  ◌^◌, ◌∙◌, ◌∷◌, ◌≡◌,
}

pub data NonceError : Type 0 where
  counter_read_failed counter_increment_failed initialization_failed tpm_unavailable : NonceError

pub record TpmNonce : Type 0 where
  pub index : ℕ

pub record Counter : Type 1 where
  pub State : Type 0
  -- `NvIndex::try_from` of a `u32`
  pub is_nv_index : ℕ → Bool
  -- `TctiNameConf::from_environment_variable` and `Context::new`
  pub has_context : Bool
  pub nv_read : State → ℕ → Option Bytes
  pub nv_increment : State → ℕ → Option State

-- `u64::from_be_bytes`, after the bytes that are read already.
abbrev of_be_bytes : ℕ → Bytes → ℕ
of_be_bytes n [] = n
of_be_bytes n (b ∷ bs) = of_be_bytes (n * 256 + b) bs

unfoldable pub from_be_bytes : Bytes → ℕ
from_be_bytes bytes = of_be_bytes 0 bytes

-- `u64::to_be_bytes`
abbrev pub to_be_bytes : ℕ → Bytes
to_be_bytes n =
    (n / 2 ^ 56) % 256
    ∷ (n / 2 ^ 48) % 256
    ∷ (n / 2 ^ 40) % 256
    ∷ (n / 2 ^ 32) % 256
    ∷ (n / 2 ^ 24) % 256
    ∷ (n / 2 ^ 16) % 256
    ∷ (n / 2 ^ 8) % 256
    ∷ n % 256
    ∷ []

from_be_bytes-to_be_bytes : (n : ℕ) → n < 2 ^ 64 → from_be_bytes (to_be_bytes n) ≡ n
unfolding from_be_bytes
from_be_bytes-to_be_bytes n fits = omega arith

pub record CounterLaws (c : Counter) : Type 0 where
  pub value : c.State → ℕ → ℕ
  pub read_value :
      (s : c.State) (i : ℕ) {bytes : Bytes}
      → c.nv_read s i ≡ some bytes
      → bytes ≡ to_be_bytes (value s i)
  pub value_fits : (s : c.State) (i : ℕ) → value s i < 2 ^ 64
  pub value_next :
      (s s' : c.State) (i : ℕ) → c.nv_increment s i ≡ some s' → value s' i ≡ suc (value s i)

ok_injective : {x : Result NonceError ℕ} {j k : ℕ} → x ≡ ok j → x ≡ ok k → j ≡ k
ok_injective h i = cc

module _ (c : Counter) where
  unfoldable pub new_nonce : ℕ → Result NonceError TpmNonce
  new_nonce index_handle =
      if c.is_nv_index index_handle
      then ok (record { index = index_handle })
      else err initialization_failed

  unfoldable pub read : TpmNonce → c.State → Result NonceError ℕ
  unfolding from_be_bytes
  read n s = if not c.has_context then err tpm_unavailable else elim (c.nv_read s n.index) [
    | none ↦ err counter_read_failed
    | some bytes ↦
        if ltb (length bytes) 8 then err counter_read_failed else ok (from_be_bytes (take 8 bytes))
  ]

  -- Its result, and the state of the TPM.
  unfoldable pub increment : TpmNonce → c.State → Result NonceError (Unit {0}) × c.State
  increment n s =
      if not c.has_context then (err tpm_unavailable, s) else elim (c.nv_increment s n.index) [
        | none ↦ (err counter_increment_failed, s)
        | some s' ↦ (ok tt, s')
      ]

  module _ (laws : CounterLaws c) where
    read_value_lem :
        (n : TpmNonce) (s : c.State) {k : ℕ} → read n s ≡ ok k → k ≡ laws.value s n.index
    unfolding read
    read_value_lem n s {k} h = elim (Bool-cases c.has_context) [
      | inr missing ↦ absurd (ground arith)
      | inl there ↦ elim (Option-cases (c.nv_read s n.index)) [
        | inl failed ↦ absurd (ground arith)
        | inr (bytes, got) ↦
            let whole = laws.read_value s n.index got in
            let got_value : c.nv_read s n.index ≡ some (to_be_bytes (laws.value s n.index)) =
              got ∙ ap some whole in
            let found : read n s ≡ ok (from_be_bytes (to_be_bytes (laws.value s n.index))) =
              rw (there, got_value, read) refl in
            let exact =
              from_be_bytes-to_be_bytes (laws.value s n.index) (laws.value_fits s n.index) in
            ok_injective h (found ∙ ap ok exact)
      ]
    ]

    -- Each increment that succeeds moves the counter up by one: what can be read after it is one more
    -- than what could be read before.
    read-increment :
        (n : TpmNonce) (s : c.State) {before after : ℕ}
        → read n s ≡ ok before
        → (increment n s).0 ≡ ok tt
        → read n (increment n s).1 ≡ ok after
        → after ≡ suc before
    unfolding increment
    read-increment n s {before} {after} first done second = elim (Bool-cases c.has_context) [
      | inr missing ↦ absurd (ground arith)
      | inl there ↦ elim (Option-cases (c.nv_increment s n.index)) [
        | inl failed ↦ absurd (ground arith)
        | inr (s', next) ↦
            let moved : (increment n s).1 ≡ s' = rw (there, next, increment) refl in
            let now : read n s' ≡ ok after = subst (λ x. read n x ≡ ok after) moved second in
            read_value_lem n s' now
            ∙ (laws.value_next s s' n.index next ∙ ap suc (sym (read_value_lem n s first)))
      ]
    ]
