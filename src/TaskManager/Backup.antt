-- ===== src/TaskManager/Backup.antt =====
-- The backup task beside the code that changes the store.
use lipa_lightning_lib.Prelude.{
  ℕ, suc, [], Bool, true, false, ◌≡◌, refl, ap, ◌∙◌, sym, some, ok, err, permanent_failure,
  Bool-cases, inl, inr, ◌⊎◌,
}
use lipa_lightning_lib.Db.{Tables, FiatTopupSetupInfo}
use lipa_lightning_lib.Db.Connection.{
  DataStore, BackupStatus, complete, waiting_for_backup, statement, execute,
}
use lipa_lightning_lib.DataStore.Topups.{has_order, store_fiat_topup_info, clear_fiat_topup_info}
use lipa_lightning_lib.DataStore.Settings.{backup_db}
use lipa_lightning_lib.TaskManager.{
  Backups, idle, uploading, begin_backup, begin_marked, after_copy, end_backup,
}

abbrev pub begun : Backups → Backups
begun b = record b { store = (begin_backup b.store).0; phase = (begin_backup b.store).1 }

-- What an operation does that writes to the tables other than the setup of the fiat topup: it marks the
-- store, and changes the tables.
abbrev pub changed : Tables → Backups → Backups
changed t b = record b {
  store = record (b.store) { tables = t; backup_status = waiting_for_backup };
}

abbrev pub with_store : DataStore → Backups → Backups
with_store s b = record b { store = s }

-- Runs of the task and of the other code in which no operation that marks the store runs during an upload.
-- The two operations on the fiat topup do not mark it, and run at any time.
pub data SerialRun (start : Backups) : Backups → Type 0 where
  here : SerialRun start start
  then_begin : (b : Backups) → SerialRun start b → b.phase ≡ idle → SerialRun start (begun b)
  then_end :
      (uploaded : Bool) (b : Backups)
      → SerialRun start b
      → b.phase ≡ uploading
      → SerialRun start (end_backup uploaded b)
  then_change :
      (t : Tables) (b : Backups)
      → SerialRun start b
      → b.phase ≡ idle
      → SerialRun start (changed t b)
  then_store_topup :
      (now : ℕ) (info : FiatTopupSetupInfo) (b : Backups)
      → SerialRun start b
      → SerialRun start (with_store (store_fiat_topup_info now info b.store).1 b)
  then_clear_topup :
      (b : Backups)
      → SerialRun start b
      → SerialRun start (with_store (clear_fiat_topup_info b.store).1 b)

-- the tables without the setup of the fiat topup
abbrev pub but_topup : Tables → Tables
but_topup t = record t { fiat_topup_info = [] }

-- Nothing waits without being marked, and what is uploaded is what the store has, but for the setup of the
-- fiat topup.
abbrev pub IsBackedUp : Backups → Type 0
IsBackedUp b =
    (b.store.backup_status ≡ complete
      → (u : Tables) × (b.remote ≡ some u) × (but_topup u ≡ but_topup b.store.tables))
    × (b.phase ≡ uploading → but_topup b.store.backup ≡ but_topup b.store.tables)

-- An operation that changes nothing of the store but the setup of the fiat topup.
abbrev TouchesTopup : DataStore → DataStore → Type 0
TouchesTopup s s' =
    (s'.backup_status ≡ s.backup_status)
    × (s'.backup ≡ s.backup)
    × (but_topup s'.tables ≡ but_topup s.tables)

execute-TouchesTopup :
    (run : Tables → Tables) (s : DataStore)
    → ((t : Tables) → but_topup (run t) ≡ but_topup t)
    → TouchesTopup s (execute permanent_failure run s).1
unfolding statement
execute-TouchesTopup run s h = elim (Bool-cases (s.fails s.executed)) [
  | inl e ↦ rw e (refl, refl, refl)
  | inr e ↦ rw e (refl, refl, h s.tables)
]

store-TouchesTopup :
    (now : ℕ) (info : FiatTopupSetupInfo) (s : DataStore)
    → TouchesTopup s (store_fiat_topup_info now info s).1
unfolding store_fiat_topup_info
store-TouchesTopup now info s =
    elim (Bool-cases (has_order info.order_id s.tables.fiat_topup_info)) [
      | inl e ↦ rw e (refl, refl, refl)
      | inr e ↦ rw e (execute-TouchesTopup _ s (λ t. refl))
    ]

clear-TouchesTopup : (s : DataStore) → TouchesTopup s (clear_fiat_topup_info s).1
unfolding clear_fiat_topup_info
clear-TouchesTopup s = execute-TouchesTopup _ s (λ t. refl)

touched-IsBackedUp :
    (s : DataStore) (b : Backups)
    → TouchesTopup b.store s
    → IsBackedUp b
    → IsBackedUp (with_store s b)
touched-IsBackedUp s b (status, copy, same) (h, k) = (
  λ e. let (u, there, equal) = h (sym status ∙ e) in (u, there, equal ∙ sym same),
  λ p. ap but_topup copy ∙ k p ∙ sym same,
)

status-cases : (x : BackupStatus) → (x ≡ complete) ⊎ (x ≡ waiting_for_backup)
status-cases complete = inl refl
status-cases waiting_for_backup = inr refl

begin-complete : (s : DataStore) → s.backup_status ≡ complete → begin_backup s ≡ (s, idle)
unfolding begin_backup begin_marked
begin-complete s e = rw (e, begin_backup, begin_marked) refl

backup_db-failed :
    (s : DataStore)
    → s.fails s.executed ≡ true
    → backup_db s ≡ (err permanent_failure, record s { executed = suc s.executed })
unfolding backup_db
backup_db-failed s f = rw (f, backup_db) refl

backup_db-copied :
    (s : DataStore)
    → s.fails s.executed ≡ false
    → backup_db s ≡ (ok tt, record s { backup = s.tables; executed = suc s.executed })
unfolding backup_db
backup_db-copied s f = rw (f, backup_db) refl

begin-failed :
    (s : DataStore)
    → s.backup_status ≡ waiting_for_backup
    → s.fails s.executed ≡ true
    → begin_backup s ≡ (record s { executed = suc s.executed }, idle)
unfolding begin_backup begin_marked after_copy
begin-failed s e f = ap (λ x. begin_marked x s) e ∙ ap after_copy (backup_db-failed s f)

begin-copied :
    (s : DataStore)
    → s.backup_status ≡ waiting_for_backup
    → s.fails s.executed ≡ false
    → begin_backup s ≡ (record s { backup = s.tables; executed = suc s.executed }, uploading)
unfolding begin_backup begin_marked after_copy
begin-copied s e f = ap (λ x. begin_marked x s) e ∙ ap after_copy (backup_db-copied s f)

begun-IsBackedUp : (b : Backups) → b.phase ≡ idle → IsBackedUp b → IsBackedUp (begun b)
begun-IsBackedUp b p (h, k) = elim (status-cases b.store.backup_status) [
  | inl e ↦ rw (begin-complete b.store e) (h, λ q. cc)
  | inr e ↦ elim (Bool-cases (b.store.fails b.store.executed)) [
    | inl f ↦ rw (begin-failed b.store e f) ((λ q. cc), λ q. cc)
    | inr f ↦ rw (begin-copied b.store e f) ((λ q. cc), λ q. refl)
  ]
]

ended-IsBackedUp :
    (u : Bool) (b : Backups) → b.phase ≡ uploading → IsBackedUp b → IsBackedUp (end_backup u b)
unfolding end_backup
ended-IsBackedUp true b p (h, k) = ((λ e. (b.store.backup, refl, k p)), λ e. k p)
ended-IsBackedUp false b p (h, k) = (h, λ e. k p)

kept : (start b : Backups) → IsBackedUp start → SerialRun start b → IsBackedUp b
kept start b h here = h
kept start _ h (then_begin b r p) = begun-IsBackedUp b p (kept start b h r)
kept start _ h (then_end u b r p) = ended-IsBackedUp u b p (kept start b h r)
kept start _ h (then_change t b r p) = ((λ e. cc), λ e. cc)
kept start _ h (then_store_topup now info b r) =
    touched-IsBackedUp (store_fiat_topup_info now info b.store).1 b
      (store-TouchesTopup now info b.store) (kept start b h r)
kept start _ h (then_clear_topup b r) =
    touched-IsBackedUp (clear_fiat_topup_info b.store).1 b (clear-TouchesTopup b.store)
      (kept start b h r)

-- In a run that starts with the invariant, in which no operation that marks the store runs during an upload,
-- a store that is marked as backed up has its tables in the remote storage, all but the setup of the fiat
-- topup, whose two operations do not mark the store and may run at any time.
pub complete_is_uploaded :
    (start b : Backups)
    → IsBackedUp start
    → SerialRun start b
    → b.store.backup_status ≡ complete
    → (u : Tables) × (b.remote ≡ some u) × (but_topup u ≡ but_topup b.store.tables)
complete_is_uploaded start b h run e = (kept start b h run).0 e

-- A run of the task on a store that waits for its backup, whose copy and upload succeed, leaves the
-- store marked as backed up, with its tables both in the local backup and in the remote storage; on
-- a store that is marked already, the task changes nothing.
pub backup_completes :
    (b : Backups)
    → b.store.fails b.store.executed ≡ false
    → b.phase ≡ idle
    → ((b.store.backup_status ≡ waiting_for_backup)
        × ((end_backup true (begun b)).store.backup_status ≡ complete)
        × ((end_backup true (begun b)).store.backup ≡ b.store.tables)
        × ((end_backup true (begun b)).remote ≡ some b.store.tables))
      ⊎ ((b.store.backup_status ≡ complete) × (begun b ≡ b))
unfolding end_backup
backup_completes b h p = elim (status-cases b.store.backup_status) [
  | inl e ↦ inr (e, rw (begin-complete b.store e) (ap (λ ph. record b { phase = ph }) (sym p)))
  | inr e ↦ inl (e, refl, rw (begin-copied b.store e h) refl, rw (begin-copied b.store e h) refl)
]
