-- ===== src/Db/Connection.antt =====
-- The SQLite connection of src/data_store.rs. Whether the n-th statement of a connection fails is
-- the field `fails`, of which nothing is assumed. A transaction that is dropped is rolled back.
pub mod Reliable
use lipa_lightning_lib.Prelude.{
  ◌≡◌, refl, arith, ℕ, suc, Bool, Result, ok, err, panic, if◌then◌else◌,
}
use lipa_lightning_lib.Prelude.Exec.{Exec}
use lipa_lightning_lib.Errors.{LibError}
use lipa_lightning_lib.Db.{Tables}

pub data BackupStatus : Type 0 where
  complete waiting_for_backup : BackupStatus

-- src/data_store.rs, `DataStore`, with the contents of its two databases
pub record DataStore : Type 0 where
  pub tables : Tables
  pub backup : Tables
  pub backup_status : BackupStatus
  pub executed : ℕ
  pub fails : ℕ → Bool

abbrev pub Store : Type 0 → Type 0
Store A = Exec DataStore LibError A

abbrev pub mark_for_backup : Store (Unit {0})
mark_for_backup s = (ok tt, record s { backup_status = waiting_for_backup })

-- One statement: it fails with `e`, or computes its rows and the new tables.
unfoldable pub statement : {A : Type 0} → LibError → (Tables → A × Tables) → Store A
statement e run s =
    if s.fails s.executed
    then (err e, record s { executed = suc s.executed })
    else (ok (run s.tables).0, record s { tables = (run s.tables).1; executed = suc s.executed })

abbrev pub execute : LibError → (Tables → Tables) → Store (Unit {0})
execute e run = statement e (λ t. (tt, run t))

abbrev pub query : {A : Type 0} → LibError → (Tables → A) → Store A
query e run = statement e (λ t. (run t, t))

-- the end of a transaction that began with the tables `t`
unfoldable pub settle :
    {A : Type 0} → Tables → Result LibError A × DataStore → Result LibError A × DataStore
settle t (ok a, s) = (ok a, s)
settle t (err e, s) = (err e, record s { tables = t })
settle t (panic, s) = (panic, record s { tables = t })

pub execute-ok :
    (e : LibError) (run : Tables → Tables) (s : DataStore)
    → (execute e run s).0 ≡ ok tt
    → (execute e run s).1.tables ≡ run s.tables
unfolding statement
execute-ok e run s h = ground arith

pub settle-ok :
    {A : Type 0} (t : Tables) (r : Result LibError A × DataStore) {a : A}
    → (settle t r).0 ≡ ok a
    → settle t r ≡ r
unfolding settle
settle-ok t (ok a, s) h = refl
settle-ok t (err e, s) h = cc
settle-ok t (panic, s) h = cc

pub settle-of_ok :
    {A : Type 0} (t : Tables) (r : Result LibError A × DataStore) {a : A}
    → r.0 ≡ ok a
    → settle t r ≡ r
unfolding settle
settle-of_ok t (ok a, s) h = refl
settle-of_ok t (err e, s) h = cc
settle-of_ok t (panic, s) h = cc
