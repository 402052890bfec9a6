-- ===== src/Backup/Examples.antt =====
-- A backup and its recovery, with a cipher that marks what it encrypts.
use lipa_lightning_lib.Backup.{written}
use lipa_lightning_lib.Backup.{write_local_db}
use lipa_lightning_lib.Backup.{recover_from}
use lipa_lightning_lib.KeyDerivation.{derive_auth_keys, derive_persistence_encryption_key, Bip32}
use lipa_lightning_lib.Backup.Recovered.{
  AnswersNewest, IsWritten, recovery_keeps_db, recover-backup,
}
use lipa_lightning_lib.Prelude.{
  sym, ap, ◌++◌, ◌<◌, true, false, ◌≡◌, refl, arith, Option, none, some, List, [], ◌∷◌, Result, ok,
  err, is_ok, ◌⊎◌, inl, length,
}
use lipa_lightning_lib.Backup.{
  LibError, RemoteBackup, RecoverError, object_not_found, Device, BackupService, On, backup,
  recover, recover_lightning_node, is_absent,
}
use lipa_lightning_lib.SymmetricEncryption.{Bytes, Aes, nonce_length, encrypt, decrypt}
use lipa_lightning_lib.SymmetricEncryption.RoundTrip.{IsAes, decrypt-encrypt}

abbrev opened : Bytes → Option Bytes
opened [] = none
opened (t ∷ plain) = some plain

abbrev zeros : Bytes
zeros = 0 ∷ 0 ∷ 0 ∷ 0 ∷ 0 ∷ 0 ∷ 0 ∷ 0 ∷ []

abbrev hash : Bytes
hash = zeros ++ zeros ++ zeros ++ zeros

abbrev nonce : Bytes
nonce = 1 ∷ 2 ∷ 3 ∷ 4 ∷ zeros

abbrev value_or : Bytes → Option Bytes → Bytes
value_or d none = d
value_or d (some n) = n

abbrev aes : Aes
aes = record {
  cipher_encrypt = λ key nonce plain. some (0 ∷ plain);
  cipher_decrypt = λ key nonce ciphertext. opened ciphertext;
  sha256 = λ text. hash;
}

opened_lem :
    (plain : Bytes) {ciphertext : Bytes}
    → some (0 ∷ plain) ≡ some ciphertext
    → opened ciphertext ≡ some plain
opened_lem plain {ciphertext = []} h = cc
opened_lem plain {ciphertext = t ∷ rest} h = cc

longer_lem :
    (plain : Bytes) {ciphertext : Bytes}
    → some (0 ∷ plain) ≡ some ciphertext
    → 0 < length ciphertext
longer_lem plain {ciphertext = []} h = cc
longer_lem plain {ciphertext = t ∷ rest} h = omega arith

aes-IsAes : IsAes aes
aes-IsAes = record {
  decrypts = λ key nonce plain h. opened_lem plain h;
  tagged = λ key nonce plain h. longer_lem plain h;
  length-sha256 = λ text. refl;
}

abbrev key : Bytes
key = hash

abbrev database : Bytes
database = 7 ∷ 8 ∷ []

nonce_length_lem : (n : Bytes) → some nonce ≡ some n → length n ≡ nonce_length
nonce_length_lem n h = ap (λ o. length (value_or (zeros) o)) (sym h)

decrypt-encrypt_example : decrypt aes (0 ∷ 7 ∷ 8 ∷ nonce) key ≡ ok database
unfolding encrypt
decrypt-encrypt_example =
    decrypt-encrypt aes aes-IsAes key database (some nonce) nonce_length_lem (inl refl)

abbrev newest : List RemoteBackup → Result RecoverError RemoteBackup
newest [] = err object_not_found
newest (b ∷ rest) = ok b

abbrev service : BackupService
service = record {
  answer_create_backup = λ uploads. true;
  answer_recover_backup = λ schema uploads. newest uploads;
  write_failure = none;
}

abbrev device : Device
device = record {
  local_db = some (9 ∷ []);
  local_backup_db = some database;
  uploads = [];
  random = some nonce ∷ [];
}

abbrev new_device : Device
new_device = record {
  local_db = none;
  local_backup_db = none;
  uploads = (backup aes service key device).1.uploads;
  random = [];
}

recover-backup_example :
    recover aes service key false new_device
    ≡ (ok tt, record new_device { local_db = some database })
unfolding backup AnswersNewest encrypt
recover-backup_example =
    recover-backup aes aes-IsAes service key device new_device false nonce_length_lem
      (λ b rest h. refl) refl refl refl

abbrev bip32 : Bip32
bip32 = record {
  new_master = λ seed. some seed;
  path_from_str = λ path. some path;
  derive_priv = λ k path. some k;
  secret_bytes = λ k. hash;
  public_key_of = λ k. k;
}

abbrev started : Result LibError (Unit {0})
started = ok tt

-- a service whose device is out of space
abbrev full_service : BackupService
full_service = record service { write_failure = some (some []) }

abbrev recovered : On (Unit {0})
recovered =
    recover_lightning_node aes bip32 full_service started (λ keys. started) started (hash ++ hash)
      false

recovery_keeps_db_example :
    ((recovered new_device).1.local_db ≡ none)
    ⊎ ((is_absent none ≡ true)
        × IsWritten aes full_service bip32
            (hash ++ hash)
            new_device
            (recovered new_device).0
            (recovered new_device).1.local_db)
recovery_keeps_db_example =
    recovery_keeps_db aes full_service bip32 (hash ++ hash) started (λ keys. started) started false
      new_device

-- A recovery whose write fails leaves an empty database, and a further recovery is refused.
emptied :
    ((recovered new_device).1.local_db ≡ some [])
    × (is_ok (recovered (recovered new_device).1).0 ≡ false)
unfolding recover_lightning_node derive_auth_keys derive_persistence_encryption_key recover
    recover_from write_local_db written backup encrypt decrypt
emptied = (refl, refl)
