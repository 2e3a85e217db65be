-- ===== src/Memory/Guard/Seal.antt =====
-- `seal` and `unseal` of src/memory/guard.rs.
use passx.Base.{
  Bool, Bytes, Option, Option-cases, ap, arith, drop, drop_length, false, if◌then◌else◌, inl, inr,
  is_some, length, length-append, length-replicate, length-take, none, not, refl, replicate, some,
  sym, take, take-append, take-append-drop, true, ℕ, ◌%◌, ◌&&◌, ◌++◌, ◌+◌, ◌∙◌, ◌≡◌, ◌≤◌,
}
use passx.Memory.Guard.{
  protected, Protection, SecureBuffer, page_bytes, rounded_size, seal, unseal, as_slice, read_write,
  no_access, rewritten,
}
use passx.Memory.Guard.Content.{Holds}

-- `CryptProtectMemory` and `CryptUnprotectMemory` of one process: encryption in place keeps the
-- length, and decryption undoes it.
pub record Dpapi : Type 0 where
  pub protect : Bytes → Option Bytes
  pub unprotect : Bytes → Option Bytes
  pub keeps_length : (xs : Bytes) {ys : Bytes} → protect xs ≡ some ys → length ys ≡ length xs
  pub undoes : (xs : Bytes) {ys : Bytes} → protect xs ≡ some ys → unprotect ys ≡ some xs

-- The multiple of 16 bytes that is encrypted covers the secret, and never leaves the pages that
-- were committed for it.
pub rounded_size_within :
    (bytes : Bytes) (b : SecureBuffer)
    → Holds bytes b
    → (b.size ≤ rounded_size b.size)
      × (rounded_size b.size ≤ length b.pages)
      × (rounded_size b.size % 16 ≡ 0)
unfolding rounded_size page_bytes
rounded_size_within bytes b h =
    let e : length b.pages ≡ page_bytes (length bytes) =
      ap length h.pages_eq
      ∙ length-append bytes (replicate h.padding 0)
      ∙ ap (λ (k : ℕ). length bytes + k) (length-replicate {A = ℕ} h.padding 0)
      ∙ h.total in
    omega (arith, e, h.size_eq)

module _ (d : Dpapi) where
  opened :
      (b : SecureBuffer) (before : Protection) (n : ℕ) (ys : Bytes)
      → b.protection ≡ read_write
      → length ys ≡ n
      → d.unprotect ys ≡ some (take n b.pages)
      → rewritten read_write n
          (record b { pages = ys ++ drop n b.pages; protection = before })
          (d.unprotect (take n (ys ++ drop n b.pages)))
        ≡ some b
  opened b before n ys hp hl hu =
      rw
        (
          take-append n ys (drop n b.pages) hl,
          hu,
          drop_length n ys (drop n b.pages) hl,
          take-append-drop n b.pages,
        )
        (λ i. some (record b { pages = b.pages; protection = sym hp i }))

  -- The buffer after a seal that left `ys` in front.
  abbrev sealed_as : Bool → SecureBuffer → Bytes → SecureBuffer
  sealed_as hidden b ys = record b {
    pages = ys ++ drop (rounded_size b.size) b.pages;
    protection = protected hidden no_access read_write;
  }

  sealed_cases :
      (hidden shown : Bool) (b : SecureBuffer) (ys : Bytes)
      → b.protection ≡ read_write
      → length ys ≡ rounded_size b.size
      → d.unprotect ys ≡ some (take (rounded_size b.size) b.pages)
      → (is_some (as_slice (sealed_as hidden b ys)) ≡ not hidden)
        × (take (rounded_size b.size) (sealed_as hidden b ys).pages ≡ ys)
        × (unseal shown d.unprotect (sealed_as hidden b ys)
            ≡ (if hidden && not shown then none else some b))
  unfolding unseal as_slice
  sealed_cases hidden shown b ys hp hl hu =
      let n = rounded_size b.size in
      let front = take-append n ys (drop n b.pages) hl in
      elim hidden
        as (λ h.
          (is_some (as_slice (sealed_as h b ys)) ≡ not h)
          × (take n (sealed_as h b ys).pages ≡ ys)
          × (unseal shown d.unprotect (sealed_as h b ys)
              ≡ (if h && not shown then none else some b))) [
                | true ↦ (
                  refl,
                  front,
                  elim shown
                      as (λ w.
                        unseal w d.unprotect (sealed_as true b ys)
                        ≡ (if not w then none else some b)) [
                          | true ↦ opened b no_access n ys hp hl hu
                          | false ↦ refl
                        ],
                )
                | false ↦ (
                  refl,
                  front,
                  elim shown as (λ w. unseal w d.unprotect (sealed_as false b ys) ≡ some b) [
                    | true ↦ opened b read_write n ys hp hl hu
                    | false ↦ opened b read_write n ys hp hl hu
                  ],
                )
              ]

  -- A buffer that was sealed can be read exactly when `VirtualProtect` failed; its rounded size holds
  -- what `CryptProtectMemory` made of it. `unseal` gives back the very buffer that was sealed, unless
  -- it was hidden and cannot be shown again, in which case it panics.
  pub unseal-seal :
      (hidden shown : Bool) (bytes : Bytes) (b : SecureBuffer) {s : SecureBuffer}
      → Holds bytes b
      → seal hidden d.protect b ≡ some s
      → (is_some (as_slice s) ≡ not hidden)
        × (d.protect (take (rounded_size b.size) b.pages)
            ≡ some (take (rounded_size b.size) s.pages))
        × (unseal shown d.unprotect s ≡ (if hidden && not shown then none else some b))
  unfolding seal unseal as_slice
  unseal-seal hidden shown bytes b {s} h e =
      let n = rounded_size b.size in
      elim (Option-cases (d.protect (take n b.pages))) [
        | inl failed ↦ absurd (ground (arith, h.open_pages))
        | inr (ys, done) ↦
            let long : length ys ≡ n =
              d.keeps_length (take n b.pages) done
              ∙ length-take n b.pages (rounded_size_within bytes b h).1 in
            let same : s ≡ sealed_as hidden b ys = ground (arith, h.open_pages) in
            let (seen, front, back) =
              sealed_cases hidden shown b ys h.open_pages long (d.undoes (take n b.pages) done) in
            (
              ap (λ x. is_some (as_slice x)) same ∙ seen,
              done ∙ ap some (sym front) ∙ ap (λ x. some (take n x.pages)) (sym same),
              ap (unseal shown d.unprotect) same ∙ back,
            )
      ]
