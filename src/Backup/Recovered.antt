-- ===== src/Backup/Recovered.antt =====
-- What a recovery of the local database leaves on the device.
use lipa_lightning_lib.Prelude.{
  length, permanent_failure, invalid_input, ◌==◌, Bool, true, false, ◌≡◌, refl, sym, ap, ◌∙◌, ◌⊎◌,
  inl, inr, Option, none, some, List, ◌∷◌, Result, ok, err, panic, or_err, or_err-ok, Bool-cases,
}
use lipa_lightning_lib.Prelude.Exec.{lift, ensure, ◌>>=◌, >>=-ok}
use lipa_lightning_lib.Errors.{LibError}
use lipa_lightning_lib.SymmetricEncryption.{Bytes, Aes, nonce_length, encrypt, decrypt}
use lipa_lightning_lib.SymmetricEncryption.RoundTrip.{IsAes, decrypt-encrypt}
use lipa_lightning_lib.KeyDerivation.{
  Bip32, KeyPair, derive_auth_keys, derive_persistence_encryption_key,
}
use lipa_lightning_lib.Backup.{
  RemoteBackup, complete_db_schema, RecoverError, object_not_found, other, Device, BackupService,
  On, create_backup, written, write_local_db, draw, rest_of, encrypt_local_db, backup, recover_from,
  recover, is_absent, recover_lightning_node,
}

-- What a recovery leaves of the local database: it is as it was, or `R` holds of the result and of what is in
-- the file.
record Leaves (R : Device → Result LibError (Unit {0}) → Option Bytes → Type 0) (m : On (Unit {0}))
    : Type 0 where
  at : (d : Device) → ((m d).1.local_db ≡ d.local_db) ⊎ R d (m d).0 (m d).1.local_db

module _ (R : Device → Result LibError (Unit {0}) → Option Bytes → Type 0) where
  Leaves-continue :
      {A : Type 0} (r : Result LibError A) (f : A → On (Unit {0})) (d : Device)
      → ((a : A) → r ≡ ok a → Leaves R (f a))
      → (((lift r >>= f) d).1.local_db ≡ d.local_db)
        ⊎ R d ((lift r >>= f) d).0 ((lift r >>= f) d).1.local_db
  Leaves-continue (ok a) f d hf = (hf a refl).at d
  Leaves-continue (err e) f d hf = inl refl
  Leaves-continue panic f d hf = inl refl

  Leaves-lift :
      {A : Type 0} (r : Result LibError A) (f : A → On (Unit {0}))
      → ((a : A) → r ≡ ok a → Leaves R (f a))
      → Leaves R (lift r >>= f)
  Leaves-lift r f hf = record { at = λ d. Leaves-continue r f d hf }

  Leaves-ensure :
      (b : Bool) (e : LibError) (k : On (Unit {0})) → Leaves R k → Leaves R (ensure b e >>= λ _. k)
  Leaves-ensure true e k hk = hk
  Leaves-ensure false e k hk = record { at = λ d. inl refl }

refused_keeps :
    (r : Result LibError (Unit {0})) (b : Bool) (e : LibError) (k : On (Unit {0})) (d : Device)
    → b ≡ false
    → ((lift r >>= λ _. ensure b e >>= λ _. k) d).1.local_db ≡ d.local_db
refused_keeps (ok u) true e k d h = cc
refused_keeps (ok u) false e k d h = refl
refused_keeps (err f) b e k d h = refl
refused_keeps panic b e k d h = refl

-- The file has the newest upload that the service answers, decrypted, and the recovery succeeds, or the
-- write of it failed, and so does the recovery.
abbrev pub IsWritten :
    Aes
    → BackupService
    → Bip32
    → Bytes
    → Device
    → Result LibError (Unit {0})
    → Option Bytes
    → Type 0
IsWritten aes service bip32 seed d r db =
    (key : Bytes) × (b : RemoteBackup) × (plain : Bytes) × (derive_persistence_encryption_key bip32
        seed
      ≡ ok key)
    × (service.answer_recover_backup complete_db_schema d.uploads ≡ ok b)
    × (decrypt aes b.encrypted_backup key ≡ ok plain)
    × (((r ≡ ok tt) × (db ≡ some plain))
        ⊎ ((r ≡ err permanent_failure) × (service.write_failure ≡ some db)))

module _ (aes : Aes) (service : BackupService) (bip32 : Bip32) (seed : Bytes) where
  written-cases :
      (o : Option (Option Bytes)) (bytes : Bytes) (d : Device)
      → (((written o bytes d).0 ≡ ok tt) × ((written o bytes d).1.local_db ≡ some bytes))
        ⊎ (((written o bytes d).0 ≡ err permanent_failure)
            × (o ≡ some (written o bytes d).1.local_db))
  unfolding written
  written-cases none bytes d = inl (refl, refl)
  written-cases (some left) bytes d = inr (refl, refl)

  module _ (key : Bytes) (own : derive_persistence_encryption_key bip32 seed ≡ ok key) where
    -- what the service has answered for the uploads of a device
    Answered :
        Result RecoverError RemoteBackup
        → Device
        → Result LibError (Unit {0})
        → Option Bytes
        → Type 0
    Answered r d out db =
        service.answer_recover_backup complete_db_schema d.uploads ≡ r
        → IsWritten aes service bip32 seed d out db

    Leaves-recover_from :
        (allow : Bool) (r : Result RecoverError RemoteBackup)
        → Leaves (Answered r) (recover_from aes service key allow r)
    unfolding recover_from write_local_db Answered
    Leaves-recover_from allow (ok b) =
        Leaves-lift (Answered (ok b)) (decrypt aes b.encrypted_backup key) _ λ plain opened.
          record {
            at = λ d. inr λ answered.
                (key, b, plain, own, answered, opened, written-cases service.write_failure plain d);
          }
    Leaves-recover_from true (err object_not_found) = record { at = λ d. inl refl }
    Leaves-recover_from false (err object_not_found) = record { at = λ d. inl refl }
    Leaves-recover_from allow (err other) = record { at = λ d. inl refl }
    Leaves-recover_from allow panic = record { at = λ d. inl refl }

    Leaves-recover :
        (allow : Bool) → Leaves (IsWritten aes service bip32 seed) (recover aes service key allow)
    unfolding recover Answered
    Leaves-recover allow = record {
      at = λ d.
          elim ((Leaves-recover_from allow
              (service.answer_recover_backup complete_db_schema d.uploads)).at
            d) [ inl same ↦ inl same | inr h ↦ inr (h refl) ];
    }

  module _ (init_logger : Result LibError (Unit {0}))
      (build_auth : KeyPair → Result LibError (Unit {0})) (new_runtime : Result LibError (Unit {0}))
      (allow : Bool) where
    recover_lightning_node-Leaves :
        (d : Device)
        → Leaves (IsWritten aes service bip32 seed) (
            lift init_logger >>= λ _. ensure (is_absent d.local_db) permanent_failure >>= λ _.
            ensure (length seed == 64) invalid_input >>= λ _.
            lift (derive_auth_keys bip32 seed) >>= λ auth_keys. lift (build_auth auth_keys) >>= λ _.
            lift (derive_persistence_encryption_key bip32 seed) >>= λ key.
            lift new_runtime >>= λ _. recover aes service key allow)
    recover_lightning_node-Leaves d =
        let R = IsWritten aes service bip32 seed in
        Leaves-lift R init_logger _ λ _ _.
          Leaves-ensure R (is_absent d.local_db) permanent_failure _ (
            Leaves-ensure R (length seed == 64) invalid_input _ (
              Leaves-lift R (derive_auth_keys bip32 seed) _ λ keys _.
                Leaves-lift R (build_auth keys) _ λ _ _.
                  Leaves-lift R (derive_persistence_encryption_key bip32 seed) _
                    λ key own. Leaves-lift R new_runtime _ λ _ _. Leaves-recover key own allow))

    -- A recovery leaves the local database as it was, or there was none before, and the service
    -- answered with a backup that the key of the seed decrypts: then either the recovery succeeds and
    -- the database is what was decrypted, or it fails since the write of the file fails, and the
    -- database is what the failed write leaves in the file.
    pub recovery_keeps_db :
        (d : Device)
        → ((recover_lightning_node aes bip32 service init_logger build_auth new_runtime seed allow
              d).1.local_db
            ≡ d.local_db)
          ⊎ ((is_absent d.local_db ≡ true)
              × IsWritten aes service bip32 seed d
                  (recover_lightning_node aes bip32 service init_logger build_auth new_runtime seed
                    allow d).0
                  (recover_lightning_node aes bip32 service init_logger build_auth new_runtime seed
                    allow d).1.local_db)
    unfolding recover_lightning_node
    recovery_keeps_db d = elim (Bool-cases (is_absent d.local_db)) [
      | inl absent ↦ (elim ((recover_lightning_node-Leaves d).at d) [
        | inl same ↦ inl same
        | inr w ↦ inr (absent, w)
      ])
      | inr present ↦
          inl (refused_keeps init_logger (is_absent d.local_db) permanent_failure _ d present)
    ]

-- What the service promises of an upload under this schema: it answers the newest.
unfoldable pub AnswersNewest : BackupService → Type 0
AnswersNewest service =
    (b : RemoteBackup) (rest : List RemoteBackup)
    → b.schema_name ≡ complete_db_schema
    → service.answer_recover_backup complete_db_schema (b ∷ rest) ≡ ok b

module _ (aes : Aes) (laws : IsAes aes) (service : BackupService) (key : Bytes) where
  stored : Bytes → RemoteBackup
  stored sealed = record {
    encrypted_backup = sealed;
    schema_name = complete_db_schema;
    schema_version = "0";
  }

  create_backup-ok :
      (b : RemoteBackup) (d : Device)
      → (create_backup service b d).0 ≡ ok tt
      → (create_backup service b d).1.uploads ≡ b ∷ d.uploads
  unfolding create_backup
  create_backup-ok b d h = elim (Bool-cases (service.answer_create_backup (b ∷ d.uploads))) [
    | inl e ↦ rw e refl
    | inr e ↦ (let k = rw e at h in cc)
  ]

  backup-uploaded :
      (d : Device)
      → (backup aes service key d).0 ≡ ok tt
      → (plain : Bytes) × (sealed : Bytes) × (d.local_backup_db ≡ some plain)
        × (encrypt aes (draw d.random) plain key ≡ ok sealed)
        × ((backup aes service key d).1.uploads ≡ stored sealed ∷ d.uploads)
  unfolding backup encrypt_local_db draw rest_of stored
  backup-uploaded d h =
      let d' = record d { random = rest_of d.random } in
      let (plain, was, h', first) =
        >>=-ok (lift (or_err d.local_backup_db permanent_failure))
          (λ plain. encrypt_local_db aes service key plain >>= λ sealed.
            create_backup service (stored sealed))
          d h in
      let (sealed, e, h2, second) =
        >>=-ok (encrypt_local_db aes service key plain)
          (λ sealed. create_backup service (stored sealed)) d h' in
      (
        plain,
        sealed,
        or_err-ok d.local_backup_db permanent_failure was,
        e,
        ap (λ r. r.1.uploads) (first ∙ second) ∙ create_backup-ok (stored sealed) d' h2,
      )

  recover-stored :
      (sealed plain : Bytes) (allow : Bool) (d : Device)
      → service.write_failure ≡ none
      → decrypt aes sealed key ≡ ok plain
      → recover_from aes service key allow (ok (stored sealed)) d
        ≡ (ok tt, record d { local_db = some plain })
  unfolding recover_from write_local_db written stored
  recover-stored sealed plain allow d w h = rw (h, w) refl

  -- After a backup that succeeds, a recovery on any device that reaches the service succeeds and gives the
  -- database that was backed up, and changes no other file, if random nonces have 12 bytes, the service
  -- answers the newest upload and the file can be written.
  pub recover-backup :
      (d fresh : Device) (allow : Bool)
      → ((nonce : Bytes) → draw d.random ≡ some nonce → length nonce ≡ nonce_length)
      → AnswersNewest service
      → service.write_failure ≡ none
      → (backup aes service key d).0 ≡ ok tt
      → fresh.uploads ≡ (backup aes service key d).1.uploads
      → recover aes service key allow fresh ≡ (ok tt, record fresh { local_db = d.local_backup_db })
  unfolding recover AnswersNewest stored
  recover-backup d fresh allow drawn newest w h same =
      let (plain, sealed, was, encrypted, uploaded) = backup-uploaded d h in
      let there : fresh.uploads ≡ stored sealed ∷ d.uploads = same ∙ uploaded in
      ap
        (λ u.
          recover_from aes service key allow (service.answer_recover_backup complete_db_schema u)
            fresh)
        there
      ∙ ap (λ r. recover_from aes service key allow r fresh) (newest (stored sealed) d.uploads refl)
      ∙ recover-stored sealed plain allow fresh w
          (decrypt-encrypt aes laws key plain (draw d.random) drawn (inl encrypted))
      ∙ ap (λ o. (ok tt, record fresh { local_db = o })) (sym was)
