-- ===== src/Backup.antt =====
-- src/backup.rs and src/recovery.rs: the backup of the local database, and its recovery. The client of the
-- remote backup, the files and the runtime are parameters; a file is its bytes.
pub mod Recovered
mod Examples
use lipa_lightning_lib.Prelude.{
  ℕ, String, Bool, true, false, Option, none, some, List, [], ◌∷◌, Result, ok, err, panic,
  invalid_input, permanent_failure, runtime_error, or_err, length, ◌==◌, if◌then◌else◌,
}
use lipa_lightning_lib.Prelude.Exec.{Exec, pure, fail, lift, ensure, ◌>>=◌, ◌>>◌}
use lipa_lightning_lib.Errors.{RuntimeErrorCode, LibError}
use lipa_lightning_lib.SymmetricEncryption.{Bytes, Aes, encrypt, decrypt}
use lipa_lightning_lib.KeyDerivation.{
  Bip32, KeyPair, derive_persistence_encryption_key, derive_auth_keys,
}

-- the `Backup` of the crate `squirrel`
pub record RemoteBackup : Type 0 where
  pub encrypted_backup : Bytes
  pub schema_name : String
  pub schema_version : String

abbrev pub complete_db_schema : String
complete_db_schema = "COMPLETE_DB"

pub data RecoverError : Type 0 where
  object_not_found other : RecoverError

-- the files of a device, the uploads that were made from anywhere, the newest first, and the random bytes
-- that come next
pub record Device : Type 0 where
  pub local_db : Option Bytes
  pub local_backup_db : Option Bytes
  pub uploads : List RemoteBackup
  pub random : List (Option Bytes)

-- What the backup service answers, after the uploads made so far; and how the write of the database fails,
-- if it does, with what it leaves in the file: `fs::write` creates or empties the file before it writes.
pub record BackupService : Type 0 where
  pub answer_create_backup : List RemoteBackup → Bool
  pub answer_recover_backup : String → List RemoteBackup → Result RecoverError RemoteBackup
  pub write_failure : Option (Option Bytes)

abbrev pub On : Type 0 → Type 0
On A = Exec Device LibError A

-- `generate_random_bytes`
unfoldable pub draw : List (Option Bytes) → Option Bytes
draw [] = none
draw (r ∷ rest) = r

unfoldable pub rest_of : List (Option Bytes) → List (Option Bytes)
rest_of [] = []
rest_of (r ∷ rest) = rest

-- a service that keeps no upload that it refuses
unfoldable pub create_backup : BackupService → RemoteBackup → On (Unit {0})
create_backup service b d =
    if service.answer_create_backup (b ∷ d.uploads)
    then (ok tt, record d { uploads = b ∷ d.uploads })
    else (err permanent_failure, d)

unfoldable pub written : Option (Option Bytes) → Bytes → On (Unit {0})
written none bytes d = (ok tt, record d { local_db = some bytes })
written (some left) bytes d = (err permanent_failure, record d { local_db = left })

unfoldable pub write_local_db : BackupService → Bytes → On (Unit {0})
unfolding written
write_local_db service bytes = written service.write_failure bytes

module _ (aes : Aes) (service : BackupService) (key : Bytes) where
  unfoldable pub encrypt_local_db : Bytes → On Bytes
  unfolding draw rest_of
  encrypt_local_db bytes d =
      (encrypt aes (draw d.random) bytes key, record d { random = rest_of d.random })

  -- `BackupManager::backup`
  unfoldable pub backup : On (Unit {0})
  unfolding encrypt_local_db create_backup
  backup d =
      (do
        local_db ← lift (or_err d.local_backup_db permanent_failure)
        encrypted_local_db ← encrypt_local_db local_db
        create_backup service (record {
          encrypted_backup = encrypted_local_db;
          schema_name = complete_db_schema;
          schema_version = "0";
        }))
        d

  -- the `match` on what the service answers, and what follows
  unfoldable pub recover_from : Bool → Result RecoverError RemoteBackup → On (Unit {0})
  unfolding write_local_db
  recover_from allow_external_recovery (ok b) = do
    local_db ← lift (decrypt aes b.encrypted_backup key)
    write_local_db service local_db
  recover_from allow_external_recovery (err object_not_found) =
      ensure allow_external_recovery (runtime_error RuntimeErrorCode.backup_not_found)
  recover_from allow_external_recovery (err other) =
      fail (runtime_error RuntimeErrorCode.backup_service_unavailable)
  recover_from allow_external_recovery panic = lift panic

  -- `BackupManager::recover`
  unfoldable pub recover : Bool → On (Unit {0})
  unfolding recover_from
  recover allow_external_recovery d =
      recover_from allow_external_recovery
        (service.answer_recover_backup complete_db_schema d.uploads) d

unfoldable pub is_absent : Option Bytes → Bool
is_absent none = true
is_absent (some bytes) = false

-- `recover_lightning_node`, with how the logger, the authentication and the runtime start
unfoldable pub recover_lightning_node :
    Aes
    → Bip32
    → BackupService
    → Result LibError (Unit {0})
    → (KeyPair → Result LibError (Unit {0}))
    → Result LibError (Unit {0})
    → Bytes
    → Bool
    → On (Unit {0})
unfolding is_absent
recover_lightning_node aes bip32 service init_logger build_auth new_runtime seed
      allow_external_recovery d =
    (do
      lift init_logger
      ensure (is_absent d.local_db) permanent_failure
      ensure (length seed == 64) invalid_input
      auth_keys ← lift (derive_auth_keys bip32 seed)
      lift (build_auth auth_keys)
      key ← lift (derive_persistence_encryption_key bip32 seed)
      lift new_runtime
      recover aes service key allow_external_recovery)
      d
