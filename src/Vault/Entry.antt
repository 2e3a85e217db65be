-- ===== src/Vault/Entry.antt =====
-- src/vault/entry.rs. A secret is the bytes that its buffer derefs to; the random identifier
-- (`hex::encode` of 16 random bytes) and the clock readings are arguments. A timestamp counts the
-- seconds since the epoch.
use passx.Base.{length, ◌<◌, Bool, Bytes, Option, Text, [], false, none, some, true, unwrap_or, ℕ}
use passx.Memory.Guard.View.{secure_copy}

pub record AccountEntry : Type 0 where
  pub id : Text
  pub title : Text
  pub username : Text
  pub password : Bytes
  pub url : Text
  pub notes : Bytes
  pub deleted : Bool
  pub folder : Option Text
  pub icon_data : Option Text
  pub created_at : ℕ
  pub updated_at : ℕ

pub record TotpEntry : Type 0 where
  pub id : Text
  pub issuer : Text
  pub account_name : Text
  pub secret : Bytes
  pub linked_account_id : Option Text
  pub deleted : Bool
  pub icon_data : Option Text
  pub created_at : ℕ
  pub updated_at : ℕ

-- What a constructor draws from its surroundings: the allocations, the identifier and the two
-- readings of the clock.
pub record Fresh : Type 0 where
  pub alloc : ℕ → Bool
  pub id : Text
  pub created : ℕ
  pub updated : ℕ

-- `SecureBuffer::new(0)`: an allocation of one byte, which reads as a zero byte.
unfoldable pub empty_buffer : (ℕ → Bool) → Option Bytes
unfolding secure_copy
empty_buffer alloc = secure_copy alloc []

unfoldable pub new_account : Fresh → Text → Text → Bytes → Option Text → Option AccountEntry
unfolding empty_buffer
new_account f title username password url = elim (secure_copy f.alloc password) [
  | none ↦ none
  | some password_buf ↦ elim (empty_buffer f.alloc) [
    | none ↦ none
    | some notes_buf ↦ some (record {
      id = f.id;
      title = title;
      username = username;
      password = password_buf;
      url = unwrap_or [] url;
      notes = notes_buf;
      deleted = false;
      folder = none;
      icon_data = none;
      created_at = f.created;
      updated_at = f.updated;
    })
  ]
]

unfoldable pub update_password : (ℕ → Bool) → ℕ → Bytes → AccountEntry → AccountEntry × Bool
update_password alloc now new_password e = elim (secure_copy alloc new_password) [
  | none ↦ (e, false)
  | some buf ↦ (record e { password = buf; updated_at = now }, true)
]

unfoldable pub new_totp : Fresh → Text → Text → Bytes → Option Text → Option TotpEntry
new_totp f issuer account_name secret linked_account_id = elim (secure_copy f.alloc secret) [
  | none ↦ none
  | some secret_buf ↦ some (record {
    id = f.id;
    issuer = issuer;
    account_name = account_name;
    secret = secret_buf;
    linked_account_id = linked_account_id;
    deleted = false;
    icon_data = none;
    created_at = f.created;
    updated_at = f.updated;
  })
]

-- A `SecureBuffer` has at least one byte.
pub record HasBuffers (e : AccountEntry) : Type 0 where
  pub password_nonempty : 0 < length e.password
  pub notes_nonempty : 0 < length e.notes

abbrev pub HasSecret : TotpEntry → Type 0
HasSecret t = 0 < length t.secret
