-- ===== src/DataStore/Examples.antt =====
-- The theorems on the data store at concrete stores.
use lipa_lightning_lib.Prelude.{
  ℕ, pos, Bool, true, false, ◌≡◌, ◌≢◌, refl, Option, none, some, [], ◌∷◌, ok, ◌==◌, if◌then◌else◌,
  str_eq, or_else, map_option, any, arith, Result,
}
use lipa_lightning_lib.Config.{UserPreferences, ExchangeRate}
use lipa_lightning_lib.Errors.{LibError}
use lipa_lightning_lib.Offer.{Offer, temporary_failure, no_route, from_offer_error, to_offer_error}
use lipa_lightning_lib.Db.{
  migrated, find_offer, insert_payment, insert_history, insert_offer, find_payment, find_history,
  update_note, replace_rate,
}
use lipa_lightning_lib.Db.Connection.{DataStore, waiting_for_backup, statement, settle}
use lipa_lightning_lib.DataStore.{
  LocalPaymentData, store_payment_info, retrieve_payment_info, select_payment_info, offer_of,
  update_personal_note, payment_row, offer_row, insert_rates, store_payment_rows,
  local_payment_data, insert_exchange_rate_snapshot, insert_offer_if_any, CreatedInvoice,
  update_exchange_rate, get_all_exchange_rates, store_created_invoice,
  retrieve_created_invoice_by_hash,
}
use lipa_lightning_lib.DataStore.Payments.{retrieve-store_payment_info, read_back, snapshot_rate}
use lipa_lightning_lib.DataStore.Invoices.{same_invoice, retrieve_created_invoices}
use lipa_lightning_lib.DataStore.Invoices.Listing.{retrieve_created_invoices-store_created_invoice}
use lipa_lightning_lib.DataStore.Atomicity.{store_payment_info_atomic, store_payment_info_total}
use lipa_lightning_lib.DataStore.Notes.{retrieve-update_personal_note, noted}

-- a store whose statements fail from the n-th on
abbrev fresh : (ℕ → Bool) → DataStore
fresh fails = record {
  tables = migrated;
  backup = migrated;
  backup_status = waiting_for_backup;
  executed = 0;
  fails = fails;
}

abbrev never : DataStore
never = fresh (λ _. false)

abbrev prefs : UserPreferences
prefs = record {
  fiat_currency = "EUR";
  timezone_config = record { timezone_id = "Bern"; timezone_utc_offset_secs = pos 3600 };
}

abbrev eur : ExchangeRate
eur = record { currency_code = "EUR"; rate = 4123; updated_at = 5 }

abbrev usd : ExchangeRate
usd = record { currency_code = "USD"; rate = 3950; updated_at = 5 }

abbrev offer : Offer
offer = record {
  id = "id";
  exchange_rate = eur;
  topup_value_minor_units = 10000;
  topup_value_sats = some 2500;
  exchange_fee_minor_units = 150;
  exchange_fee_rate_permyriad = 150;
  lightning_payout_fee = none;
  error = some (temporary_failure no_route);
}

abbrev expected : LocalPaymentData
expected = record {
  user_preferences = some prefs;
  exchange_rate = some eur;
  offer = some offer;
  personal_note = none;
  received_on = some "a@b.ch";
  received_lnurl_comment = none;
}

abbrev store_it : DataStore → Result LibError (Unit {0}) × DataStore
store_it = store_payment_info 77 "hash" prefs (usd ∷ eur ∷ []) (some offer) (some "a@b.ch") none

store_it_ok : (store_it never).0 ≡ ok tt
store_it_ok =
    store_payment_info_total 77 "hash" prefs (usd ∷ eur ∷ []) (some offer) (some "a@b.ch") none
      never (λ n. refl)

read_it_ok : (retrieve_payment_info "hash" (store_it never).1).0 ≡ ok (some expected)
unfolding retrieve_payment_info select_payment_info store_payment_info store_payment_rows
    insert_exchange_rate_snapshot insert_rates insert_offer_if_any insert_payment insert_history
    insert_offer statement settle payment_row offer_row local_payment_data find_payment find_history
    find_offer offer_of from_offer_error to_offer_error
read_it_ok = refl

retrieve-store_payment_info_example : ◌≡◌ {A = Option LocalPaymentData} (some expected) (
    some (record {
      user_preferences = some prefs;
      exchange_rate = snapshot_rate 77 "EUR" (usd ∷ eur ∷ []) [];
      offer = or_else (map_option read_back (some offer)) (offer_of (find_offer "hash" []));
      personal_note = none;
      received_on = some "a@b.ch";
      received_lnurl_comment = none;
    }))
retrieve-store_payment_info_example =
    retrieve-store_payment_info 77 "hash" prefs (usd ∷ eur ∷ []) (some offer) (some "a@b.ch") none
      never store_it_ok read_it_ok

-- the third statement, the insertion of the second rate, fails
abbrev third_fails : DataStore
third_fails = fresh (λ n. n == 2)

third_fails_err : (store_it third_fails).0 ≢ ok tt
unfolding store_payment_info store_payment_rows insert_exchange_rate_snapshot insert_rates
    insert_offer_if_any insert_history statement settle
third_fails_err e = cc e

store_payment_info_atomic_example : (store_it third_fails).1.tables ≡ migrated
store_payment_info_atomic_example =
    store_payment_info_atomic 77 "hash" prefs (usd ∷ eur ∷ []) (some offer) (some "a@b.ch") none
      third_fails third_fails_err

note_ok : (update_personal_note "hash" (some "rent") never).0 ≡ ok tt
unfolding update_personal_note statement
note_ok = refl

abbrev only_note : LocalPaymentData
only_note = noted (some "rent") none none

note_read :
    (retrieve_payment_info "hash" (update_personal_note "hash" (some "rent") never).1).0
    ≡ ok (some only_note)
unfolding update_personal_note retrieve_payment_info statement select_payment_info
    local_payment_data insert_payment find_payment find_history find_offer offer_of update_note
note_read = refl

retrieve-update_personal_note_example : ◌≡◌ {A = Option LocalPaymentData} (some only_note) (
    if str_eq "hash" "hash"
    then some (
        noted (some "rent") (offer_of (find_offer "hash" [])) (select_payment_info "hash" migrated))
    else select_payment_info "hash" migrated)
retrieve-update_personal_note_example =
    retrieve-update_personal_note "hash" "hash" (some "rent") never note_ok note_read

rate_updated : (update_exchange_rate eur never).0 ≡ ok tt
unfolding update_exchange_rate statement
rate_updated = refl

rate_read : (get_all_exchange_rates (update_exchange_rate eur never).1).0 ≡ ok (eur ∷ [])
unfolding update_exchange_rate get_all_exchange_rates statement replace_rate
rate_read = refl

abbrev created : CreatedInvoice
created = record { hash = "hash"; invoice = "lnbc"; channel_opening_fees = some 5 }

no_invoice : (retrieve_created_invoice_by_hash "hash" never).0 ≡ ok none
unfolding retrieve_created_invoice_by_hash statement
no_invoice = refl

invoice_stored : (store_created_invoice "hash" "lnbc" (some 5) 64 never).0 ≡ ok tt
unfolding store_created_invoice statement
invoice_stored = refl

invoice_read :
    (retrieve_created_invoice_by_hash "hash"
      (store_created_invoice "hash" "lnbc" (some 5) 64 never).1).0
    ≡ ok (some created)
unfolding retrieve_created_invoice_by_hash store_created_invoice statement
invoice_read = refl

unexpired_read :
    (retrieve_created_invoices 64 0 (store_created_invoice "hash" "lnbc" (some 5) 64 never).1).0
    ≡ ok (created ∷ [])
unfolding retrieve_created_invoices store_created_invoice statement
unexpired_read = refl

retrieve_created_invoices-store_created_invoice_example :
    any (same_invoice created) (created ∷ []) ≡ true
retrieve_created_invoices-store_created_invoice_example =
    retrieve_created_invoices-store_created_invoice "hash" "lnbc" (some 5) 64 64 0 never
      {rows = created ∷ []} (omega arith) invoice_stored unexpired_read
