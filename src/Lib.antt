-- ===== src/Lib.antt =====
-- The PASSX password manager (src/): its secret memory, its cryptography, its vault file, and the
-- callbacks of its window.
--
-- Memory/Guard: src/memory/secure_alloc.rs and src/memory/guard.rs. `SecureBuffer` is its committed
-- pages, its size and their protection; the outcome of each Windows call is an argument, and `none`
-- stands for a null pointer, a panic or an access violation. Memory/Guard/View gives the rest of
-- the development the content of a buffer (`secure_copy`) in place of its pages; Memory/Guard/Serde
-- has what serde reads and writes.
-- Crypto: src/crypto/cipher.rs, kdf.rs, recovery.rs (`derive_key_from_phrase`) and mod.rs. The
-- crates chacha20poly1305, hkdf, argon2 and bip39 are the record `Primitives`, what they document
-- of an AEAD is `AeadLaws`. Random bytes are arguments.
-- Tpm/Sealing: src/tpm/sealing.rs, over the record `Ncrypt` of the Windows key store, whose
-- documented behaviour is `NcryptLaws`. Tpm/Nonce: src/tpm/nonce.rs, over the record `Counter`.
-- Vault/Entry, Vault/Format: src/vault/entry.rs and src/vault/format.rs. Format has the data types
-- and constants, Save `save_vault_to_writer` and Load `load_vault_from_reader`, each in its stages;
-- Layout and RoundTrip relate the two, Stages has their steps.
-- The serialization of a `Vault` by bincode is a pair of functions of the record `Platform`, with
-- their round trip in `PlatformLaws`, for vaults in which no buffer is empty (`IsStored`), as an
-- empty buffer comes back as one zero byte.
-- Ui/State: src/ui/bridge/state.rs and `save_vault_state` of src/ui/bridge/entries.rs, over a disk
-- that maps paths to contents. The exclusive handle of a vault is the path of the file that it is
-- open on: what is written through it reaches the disk, and stays there when it is closed. Ui/Model:
-- src/ui/bridge/model.rs.
-- Ui/Entries: what each callback of src/ui/bridge/entries.rs changes in the vault under the lock;
-- Ui/Entries/Handlers: the callbacks as whole, with their guards, the copies of key and password,
-- the save, and the window.
-- Ui/Vault: src/ui/bridge/vault.rs, the lock, the master password and the mirrors. A callback there
-- holds the file handle outside the lock, so it is two steps, which Ui/Vault/Finish separates.
-- Ui/Vault/Creates has the callbacks that choose and create vaults, Ui/Vault/Sync the one that
-- writes the mirrors, Ui/Vault/Late what happens when another vault is opened meanwhile. Ui/Unlock:
-- `on_attempt_unlock` of the same file, for paths that the ANSI call of the exclusive opening reads
-- as std::fs does.
-- Vault/Manager, Vault/Mirror: src/vault/manager.rs and src/vault/mirror.rs, over the same disk;
-- the field `ansi` of the record `Places` is the path that CreateFileA reads in the bytes of one.
-- Vault/Manager/Listing has the directory. Vault/FileLock: src/vault/file_lock.rs, over the record
-- `Windows` of the calls; the rest of the development takes the outcome of an exclusive opening as
-- an argument.
-- Ui/Transfer: src/ui/bridge/import_export.rs, with the crates csv and serde_json as the record
-- `Codec`; Ui/Transfer/Dialogs has the callbacks of src/ui/bridge/entries.rs around it.
-- Ui/Qr: src/ui/bridge/qr_scanner.rs. There a text is the list of its characters, as the decoder of
-- percent escapes goes by characters; Ui/Qr/Scan has the three scans and their callbacks.
-- Ui/Generator: the password generator of src/ui/bridge/entries.rs, and the thread that saves its
-- settings. Ui/Details: the details and codes of one entry; Ui/Copies: the copies to the clipboard;
-- Ui/Refresh: the thread that makes the rows every second; Ui/Auth: src/ui/bridge/auth.rs.
-- Ui/Background: src/ui/bridge/search.rs and src/ui/bridge/icons.rs.
-- Session: src/session. The threads that share a session are a sequence of turns, as are the beats
-- and readings of the watchdog. Security: the decisions of src/security/anti_injection.rs and of
-- the monitor in src/security/mod.rs over what Windows answers of each thread, also to an attempt to
-- terminate it through a handle with given rights.
-- Startup: src/main.rs, over the checks of Security, Security/Antivirus (src/security/antivirus.rs)
-- and Runtime; Startup/Updates: src/update.rs. Security/Hardening has what src/security/mod.rs,
-- src/security/admin.rs and src/runtime/sandbox.rs ask of Windows at the start. Ui/Prefs:
-- src/ui/prefs.rs and its uses in src/ui/bridge/mod.rs.
-- Ui/Runs: the callbacks of src/ui/bridge as steps of one relation over the state and the disk, and
-- the successful edits among them next to the changes of the vault alone.
-- Clipboard: src/io/clipboard.rs, the copies and the threads that clear them. Runtime:
-- src/runtime/integrity.rs and update.rs, over the parts of a file and of a loaded module;
-- Runtime/Probes has the decisions of src/runtime/invariants.rs and src/memory/virtualization.rs,
-- and Security/Probed the monitor over them.
-- Vault/Operations: src/vault/operations.rs. Base has what all parts share, Tests the concrete
-- runs.
--
-- Bytes are natural numbers, a text is its bytes, and the fixed-width fields of the file and the
-- 64-bit sequence number have their bounds written out, the sequence number with its wrap-around.
-- An allocation is a function from the number of the call and the size to whether it succeeds; a
-- write is a function from the number of the call to how many bytes it still wrote if it fails.
-- There is no fuel: every loop runs over a list or a number. A thread of Ui/Entries/Handlers is one
-- step: what other threads do while it waits for the lock again is not in the model.
--
-- Not modelled: the Windows calls themselves, the cryptographic crates, bincode, the decoding of
-- pictures, the window (src/ui/components, screens, tabs), and the crate that downloads updates.
pub mod Base
pub mod Memory
pub mod Clipboard
pub mod Crypto
pub mod Startup
pub mod Session
pub mod Tpm
pub mod Vault
pub mod Runtime
pub mod Security
pub mod Ui
mod Tests
