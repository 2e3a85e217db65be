-- ===== src/Vault/FileLock.antt =====
-- src/vault/file_lock.rs. The calls of Windows are the record `Windows`: `none` is a call that fails
-- without a code that is looked at, and a path is the bytes that the call is given.
use passx.Base.{
  Result, Option, Text, [], any, err, if◌then◌else◌, none, ok, some, ℕ, ◌++◌, ◌+◌, ◌==◌, ◌^◌, ◌∷◌,
}

pub data IoError : Type 0 where
  invalid_input : IoError
  raw_os_error : ℕ → IoError

pub data Disposition : Type 0 where
  create_new open_existing : Disposition

-- GENERIC_READ, GENERIC_WRITE
abbrev pub generic_read : ℕ
generic_read = 2 ^ 31

abbrev pub generic_write : ℕ
generic_write = 2 ^ 30

abbrev pub file_share_none : ℕ
file_share_none = 0

-- DACL_SECURITY_INFORMATION, PROTECTED_DACL_SECURITY_INFORMATION
abbrev pub dacl_security_information : ℕ
dacl_security_information = 4

abbrev pub protected_dacl_security_information : ℕ
protected_dacl_security_information = 2 ^ 31

pub record Windows : Type 1 where
  pub State : Type 0
  pub Handle : Type 0
  pub Descriptor : Type 0
  pub Sid : Type 0
  -- The path, the access, the sharing and the disposition.
  pub create_file : State → Text → ℕ → ℕ → Disposition → Result ℕ Handle × State
  pub convert_sddl : Text → Result ℕ Descriptor
  pub set_file_security : State → Text → ℕ → Descriptor → Result ℕ (Unit {0}) × State
  pub open_process_token : State → Result ℕ Handle × State
  -- The size that the first call asks for, and what the second call answers to a buffer of that size.
  pub token_user_size : State → Handle → ℕ
  pub token_user : State → Handle → ℕ → Result ℕ Sid
  pub close_handle : State → Handle → State
  pub convert_sid : Sid → Result ℕ Text

-- `CString::new`
unfoldable pub c_string : Text → Option Text
c_string text = if any (λ b. b == 0) text then none else some text

abbrev pub raw_error : {A : Type 0} → Result ℕ A → Result IoError A
raw_error (ok a) = ok a
raw_error (err code) = err (raw_os_error code)

-- "D:P(A;;GA;;;SY)(A;;GA;;;BA)", and "D:(A;;GA;;;" before the SID.
abbrev allow_all : Text
allow_all = b'(' ∷ b'A' ∷ b';' ∷ b';' ∷ b'G' ∷ b'A' ∷ b';' ∷ b';' ∷ b';' ∷ []

abbrev pub strict_sddl : Text
strict_sddl =
    b'D'
    ∷ b':'
    ∷ b'P'
    ∷ (allow_all ++ (b'S' ∷ b'Y' ∷ b')' ∷ (allow_all ++ (b'B' ∷ b'A' ∷ b')' ∷ []))))

abbrev pub user_sddl : Text → Text
user_sddl sid = b'D' ∷ b':' ∷ (allow_all ++ (sid ++ (b')' ∷ [])))

module _ (w : Windows) where
  -- The token stays open when the second call fails.
  unfoldable pub get_current_user_sid : w.State → Result IoError Text × w.State
  get_current_user_sid s =
      let r = w.open_process_token s in
      elim r.0 [
        | err code ↦ (err (raw_os_error code), r.1)
        | ok token ↦ elim (w.token_user r.1 token (w.token_user_size r.1 token)) [
          | err code ↦ (err (raw_os_error code), r.1)
          | ok sid ↦ (raw_error (w.convert_sid sid), w.close_handle r.1 token)
        ]
      ]

  unfoldable pub open_exclusive : Text → w.State → Result IoError w.Handle × w.State
  unfolding c_string
  open_exclusive path s = elim (c_string path) [
    | none ↦ (err invalid_input, s)
    | some c_path ↦
        let r =
          w.create_file s c_path (generic_read + generic_write) file_share_none open_existing in
        (raw_error r.0, r.1)
  ]

  unfoldable pub create_exclusive : Text → w.State → Result IoError w.Handle × w.State
  unfolding c_string
  create_exclusive path s = elim (c_string path) [
    | none ↦ (err invalid_input, s)
    | some c_path ↦
        let r = w.create_file s c_path (generic_read + generic_write) file_share_none create_new in
        (raw_error r.0, r.1)
  ]

  -- From the security descriptor on, in both functions.
  abbrev set_acls : Text → Text → ℕ → w.State → Result IoError (Unit {0}) × w.State
  set_acls sddl c_path info s = elim (w.convert_sddl sddl) [
    | err code ↦ (err (raw_os_error code), s)
    | ok sd ↦ let r = w.set_file_security s c_path info sd in (raw_error r.0, r.1)
  ]

  unfoldable pub apply_strict_acls : Text → w.State → Result IoError (Unit {0}) × w.State
  unfolding c_string
  apply_strict_acls path s = elim (c_string path) [
    | none ↦ (err invalid_input, s)
    | some c_path ↦
        set_acls strict_sddl c_path
          (dacl_security_information + protected_dacl_security_information) s
  ]

  -- `none` is a panic: the SID in the text is not looked at for zero bytes before `unwrap`.
  unfoldable pub remove_strict_acls : Text → w.State → Option (Result IoError (Unit {0}) × w.State)
  unfolding c_string get_current_user_sid
  remove_strict_acls path s =
      let r = get_current_user_sid s in
      elim r.0 [
        | err e ↦ some (err e, r.1)
        | ok sid ↦ elim (c_string (user_sddl sid)) [
          | none ↦ none
          | some sddl ↦ elim (c_string path) [
            | none ↦ some (err invalid_input, r.1)
            | some c_path ↦ some (set_acls sddl c_path dacl_security_information r.1)
          ]
        ]
      ]
