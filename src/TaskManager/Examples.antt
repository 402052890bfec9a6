-- ===== src/TaskManager/Examples.antt =====
-- The theorems on the tasks at the sample store.
use lipa_lightning_lib.Prelude.{true, ◌≡◌, refl, Option, none, some, List, [], ◌∷◌}
use lipa_lightning_lib.Db.{Tables, FiatTopupSetupInfo, migrated}
use lipa_lightning_lib.Db.Connection.{complete, statement}
use lipa_lightning_lib.DataStore.Topups.{store_fiat_topup_info}
use lipa_lightning_lib.DataStore.Settings.{backup_db}
use lipa_lightning_lib.Sample.{sample_store, sample_rate}
use lipa_lightning_lib.TaskManager.{
  Backups, idle, uploading, HealthStatus, operational, maintenance, begin_backup, begin_marked,
  after_copy, end_backup,
}
use lipa_lightning_lib.TaskManager.Backup.{
  begun, changed, with_store, here, then_begin, then_end, then_store_topup, but_topup, IsBackedUp,
  complete_is_uploaded,
}

abbrev start : Backups
start = record { store = sample_store; remote = none; phase = idle }

start_IsBackedUp : IsBackedUp start
start_IsBackedUp = ((λ e. cc), λ e. cc)

abbrev uploaded : Backups
uploaded = end_backup true (begun start)

uploading_begun : (begun start).phase ≡ uploading
unfolding begin_backup begin_marked after_copy backup_db
uploading_begun = refl

abbrev sample_topup : FiatTopupSetupInfo
sample_topup = record {
  order_id = "order";
  debitor_iban = "";
  creditor_reference = "";
  creditor_iban = "";
  creditor_bank_name = "";
  creditor_bank_street = "";
  creditor_bank_postal_code = "";
  creditor_bank_town = "";
  creditor_bank_country = "";
  creditor_bank_bic = "";
  creditor_name = "lipa";
  creditor_street = "";
  creditor_postal_code = "";
  creditor_town = "";
  creditor_country = "CH";
  currency = "CHF";
}

abbrev topped_up : Backups
topped_up = with_store (store_fiat_topup_info 9 sample_topup uploaded.store).1 uploaded

topped_up_complete : topped_up.store.backup_status ≡ complete
unfolding end_backup store_fiat_topup_info statement begin_backup begin_marked after_copy backup_db
topped_up_complete = refl

complete_is_uploaded_example :
    (u : Tables) × (topped_up.remote ≡ some u) × (but_topup u ≡ but_topup topped_up.store.tables)
complete_is_uploaded_example =
    complete_is_uploaded start topped_up start_IsBackedUp
      (then_store_topup 9 sample_topup uploaded
        (then_end true (begun start) (then_begin start here refl) uploading_begun))
      topped_up_complete

-- The setup of a fiat topup that is stored after an upload is not in the remote storage, though the
-- store stays marked as backed up.
topup_is_not_uploaded :
    (topped_up.store.tables.fiat_topup_info ≡ record { created_at = 9; info = sample_topup } ∷ [])
    × (topped_up.remote ≡ some migrated)
unfolding end_backup store_fiat_topup_info statement begin_backup begin_marked after_copy backup_db
topup_is_not_uploaded = (refl, refl)

abbrev rated : Tables
rated = record migrated { rates = sample_rate ∷ [] }

-- A write during the upload: the store ends up marked as backed up, and the remote storage does not
-- have the write.
write_during_upload :
    ((end_backup true (changed rated (begun start))).store.backup_status ≡ complete)
    × ((end_backup true (changed rated (begun start))).store.tables.rates ≡ sample_rate ∷ [])
    × ((end_backup true (changed rated (begun start))).remote ≡ some migrated)
unfolding end_backup begin_backup begin_marked after_copy backup_db
write_during_upload = (refl, refl, refl)

abbrev checks : List (Option HealthStatus)
checks = some operational ∷ none ∷ some operational ∷ some maintenance ∷ []
