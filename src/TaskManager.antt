-- ===== src/TaskManager.antt =====
-- src/task_manager.rs: the repeating tasks. A period is a number of seconds.
pub mod Backup
pub mod Health
mod Examples
use lipa_lightning_lib.Prelude.{
  ℕ, Bool, true, false, Option, none, some, List, [], ◌∷◌, ◌++◌, Result, ok, err, panic,
  if◌then◌else◌, cons_some, map_option,
}
use lipa_lightning_lib.Prelude.Exec.{pure, ◌>>=◌, ◌>>◌}
use lipa_lightning_lib.Errors.{LibError}
use lipa_lightning_lib.Config.{ExchangeRate}
use lipa_lightning_lib.Db.{Tables}
use lipa_lightning_lib.Db.Connection.{DataStore, Store, BackupStatus, complete, waiting_for_backup}
use lipa_lightning_lib.DataStore.{update_exchange_rate}
use lipa_lightning_lib.DataStore.Settings.{backup_db}
use lipa_lightning_lib.Sdk.{OpeningFeeParams}

pub record TaskPeriods : Type 0 where
  pub update_exchange_rates : Option ℕ
  pub sync_breez : Option ℕ
  pub update_lsp_fee : Option ℕ
  pub backup : Option ℕ
  pub health_status_check : Option ℕ

abbrev pub foreground_periods : TaskPeriods
foreground_periods = record {
  update_exchange_rates = some 60;
  sync_breez = some 600;
  update_lsp_fee = some 600;
  backup = some 30;
  health_status_check = some 70;
}

abbrev pub background_periods : TaskPeriods
background_periods = record {
  update_exchange_rates = none;
  sync_breez = some 1800;
  update_lsp_fee = none;
  backup = none;
  health_status_check = none;
}

-- a task that runs, by its period
pub data Task : Type 0 where
  exchange_rate_update breez_sync lsp_fee_update backup_local_db health_check : ℕ → Task

-- `restart` shuts down the tasks that run, and starts those that have a period.
unfoldable pub restart : TaskPeriods → List Task → List Task
restart p running = cons_some (map_option exchange_rate_update p.update_exchange_rates) (
    cons_some (map_option breez_sync p.sync_breez) (
      cons_some (map_option lsp_fee_update p.update_lsp_fee) (
        cons_some (map_option backup_local_db p.backup)
          (cons_some (map_option health_check p.health_status_check) []))))

-- `persist_exchange_rates`, which goes on after an error
unfoldable pub persist_exchange_rates : List ExchangeRate → DataStore → DataStore
persist_exchange_rates [] s = s
persist_exchange_rates (r ∷ rates) s = persist_exchange_rates rates (update_exchange_rate r s).1

-- One run of the exchange rate task, on the cache and the store: `none` is a failed query.
unfoldable pub update_exchange_rates :
    Option (List ExchangeRate) → List ExchangeRate × DataStore → List ExchangeRate × DataStore
update_exchange_rates none (cache, s) = (cache, s)
update_exchange_rates (some rates) (cache, s) = (rates, persist_exchange_rates rates s)

-- One run of the LSP fee task, on the two caches: what `lsp_info` gives, and of it the cheapest
-- parameters and those that are valid for 48 hours, each `none` where the SDK finds none.
unfoldable pub update_lsp_fee :
    Option (Option OpeningFeeParams × Option OpeningFeeParams)
    → Option OpeningFeeParams × Option OpeningFeeParams
    → Option OpeningFeeParams × Option OpeningFeeParams
update_lsp_fee none caches = caches
update_lsp_fee (some (none, none)) (cheaper, longer_valid) = (cheaper, longer_valid)
update_lsp_fee (some (some p, none)) (cheaper, longer_valid) = (some p, longer_valid)
update_lsp_fee (some (none, some q)) (cheaper, longer_valid) = (cheaper, some q)
update_lsp_fee (some (some p, some q)) (cheaper, longer_valid) = (some p, some q)

-- The SDK's `HealthCheckStatus`
pub data HealthStatus : Type 0 where
  operational maintenance service_disruption : HealthStatus

same_status : HealthStatus → HealthStatus → Bool
same_status operational operational = true
same_status maintenance maintenance = true
same_status service_disruption service_disruption = true
same_status x y = false

unfoldable pub is_known : Option HealthStatus → HealthStatus → Bool
unfolding same_status
is_known none new = false
is_known (some old) new = same_status old new

-- One run of the health check on the status that is kept: the new one, and the status that the
-- callback is told. `none` is a failed check.
unfoldable pub check_health :
    Option HealthStatus → Option HealthStatus → Option HealthStatus × Option HealthStatus
unfolding is_known same_status
check_health kept none = (kept, none)
check_health kept (some new) = if is_known kept new then (kept, none) else (some new, some new)

-- The backup task runs while other code uses the store. It waits between the copy into the local
-- backup file and the end of the upload.
pub data Phase : Type 0 where
  idle uploading : Phase

pub record Backups : Type 0 where
  pub store : DataStore
  pub remote : Option Tables
  pub phase : Phase

unfoldable pub after_copy : Result LibError (Unit {0}) × DataStore → DataStore × Phase
after_copy (ok _, s) = (s, uploading)
after_copy (err _, s) = (s, idle)
after_copy (panic, s) = (s, idle)

unfoldable pub begin_marked : BackupStatus → DataStore → DataStore × Phase
unfolding after_copy
begin_marked complete s = (s, idle)
begin_marked waiting_for_backup s = after_copy (backup_db s)

-- the first half of the task, up to the upload
unfoldable pub begin_backup : DataStore → DataStore × Phase
unfolding begin_marked
begin_backup s = begin_marked s.backup_status s

-- the end of the upload
unfoldable pub end_backup : Bool → Backups → Backups
end_backup true b = record {
  store = record (b.store) { backup_status = complete };
  remote = some b.store.backup;
  phase = idle;
}
end_backup false b = record b { phase = idle }
