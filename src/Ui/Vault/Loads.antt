-- ===== src/Ui/Vault/Loads.antt =====
-- The callbacks of src/ui/bridge/vault.rs when no other one runs in between: memory and file.
use passx.Base.{
  Bool, Bytes, Option, Text, ap, arith, bytes_eq_refl, none, ok, refl, some, true, ℕ, ◌<◌, ◌^◌, ◌∙◌,
  ◌∷◌, ◌≡◌,
}
use passx.Crypto.Cipher.RoundTrip.{secure_copy_all}
use passx.Vault.Format.{Platform, Vault}
use passx.Vault.Format.Load.{load_vault_from_reader}
use passx.Vault.Format.RoundTrip.{load_vault-save_vault}
use passx.Vault.Format.Wrap.{IsStored, PlatformLaws}
use passx.Vault.Format.Save.{IsDraws}
use passx.Ui.State.{AppState, SaveIo, rewrite_file, saved, write_file}
use passx.Ui.Vault.{
  Taken, take_resources, Outcome, save_outside, finish_change_password, optional_pass, kept_pass,
  accepts_old, on_change_master_password,
}

-- An open vault whose file is held by the exclusive handle.
pub record Held (s : AppState) (v : Vault) (key : Bytes) (file : Text) : Type 0 where
  pub has_vault : s.vault ≡ some v
  pub has_key : s.key ≡ some key
  pub has_file : s.vault_file ≡ some file

-- What a callback holds while the vault of `Held` is saved.
abbrev pub taken : AppState → Vault → Bytes → Text → Taken
taken s v key file = record {
  vault = v;
  file = some file;
  key = key;
  password = s.password;
  path = s.vault_path;
}

module _ (p : Platform) (io : SaveIo) where
  take_resources_lem :
      (s : AppState) (v : Vault) (key : Bytes) (file : Text)
      → Held s v key file
      → take_resources s ≡ some (taken s v key file, record s { vault_file = none })
  unfolding take_resources
  take_resources_lem s v key file h = ground (arith, h.has_vault, h.has_key, h.has_file)

  save_outside-eq-ok :
      (disk : Text → Option Bytes) (s : AppState) (v w : Vault) (key : Bytes) (file : Text)
      (pass : Option Bytes)
      → let o = save_outside p io disk (taken s v key file) w pass in
        o.result ≡ ok tt
        → ((saved p io w key v.mode pass).0 ≡ ok tt)
          × (o.file ≡ some file)
          × (o.disk file ≡ some (saved p io w key v.mode pass).1.written)
  unfolding save_outside rewrite_file write_file
  save_outside-eq-ok disk s v w key file pass h = ground (arith, bytes_eq_refl file)

  on_change_master_password_lem :
      (lossy : Bytes → Text) (alloc : ℕ → Bool) (old new_pass : Text) (s : AppState)
      (disk : Text → Option Bytes) (v : Vault) (key : Bytes) (file : Text)
      → Held s v key file
      → accepts_old lossy old s ≡ true
      → let o = save_outside p io disk (taken s v key file) v (optional_pass new_pass) in
        on_change_master_password p io lossy alloc old new_pass (s, disk)
        ≡ (finish_change_password alloc new_pass o (record s { vault_file = none }), o.disk)
  unfolding on_change_master_password
  on_change_master_password_lem lossy alloc old new_pass s disk v key file h accepted =
      ground (arith, take_resources_lem s v key file h)

  finish_change_password_lem :
      (alloc : ℕ → Bool) (new_pass : Text) (o : Outcome) (s : AppState) {v : Vault} {f : Text}
      → s.vault ≡ some v
      → o.result ≡ ok tt
      → o.file ≡ some f
      → let s' = finish_change_password alloc new_pass o s in
        (s'.vault ≡ some v) × (s'.password ≡ kept_pass alloc new_pass) × (s'.vault_file ≡ some f)
  unfolding finish_change_password
  finish_change_password_lem alloc new_pass o s hv hr hf = ground arith

  module _ (laws : PlatformLaws p) (alloc' : ℕ → ℕ → Bool)
      (free : (i n : ℕ) → alloc' i n ≡ true) where
    -- A change of the master password to one that is not empty, with the right old one, when the
    -- save and every write of it succeed and nothing comes in between: the vault stays open, the new
    -- password is the one in memory, the handle is back, and the file that it is open on loads under
    -- the new password to the same vault and key.
    pub on_change_master_password-loads :
        (lossy : Bytes → Text) (alloc : ℕ → Bool) (old : Text) (c : ℕ) (cs : Text) (s : AppState)
        (disk : Text → Option Bytes) (v : Vault) (key : Bytes) (file : Text)
        → Held s v key file
        → accepts_old lossy old s ≡ true
        → IsDraws io.draws
        → IsStored v
        → v.sequence_number < 2 ^ 64
        → ((k : ℕ) → io.accept k ≡ none)
        → ((n : ℕ) → alloc n ≡ true)
        → (save_outside p io disk (taken s v key file) v (some (c ∷ cs))).result ≡ ok tt
        → let r = on_change_master_password p io lossy alloc old (c ∷ cs) (s, disk) in
          (r.0.vault ≡ some v)
          × (r.0.password ≡ some (c ∷ cs))
          × (r.0.vault_file ≡ some file)
          × (load_vault_from_reader p alloc' (r.1 file) (some (c ∷ cs)) ≡ ok (v, key, v.mode))
    on_change_master_password-loads lossy alloc old c cs s disk v key file h accepted draws sound
          fits all copies done =
        let o = save_outside p io disk (taken s v key file) v (some (c ∷ cs)) in
        let (wrote, held, content) = save_outside-eq-ok disk s v v key file (some (c ∷ cs)) done in
        let (open_still, pass, handle) =
          finish_change_password_lem alloc (c ∷ cs) o (record s { vault_file = none }) h.has_vault
            done held in
        rw (on_change_master_password_lem lossy alloc old (c ∷ cs) s disk v key file h accepted) (
          open_still,
          pass ∙ secure_copy_all alloc (c ∷ cs) copies,
          handle,
          ap (λ f. load_vault_from_reader p alloc' f (some (c ∷ cs))) content
              ∙ load_vault-save_vault p laws io.alloc alloc' free io.accept io.draws v key v.mode
                  (some (c ∷ cs)) draws sound refl fits all wrote,
        )
