-- ===== src/DataStore.antt =====
-- src/data_store.rs: each method is an action on the `DataStore`, one `statement` for each SQL
-- statement. `now` is the time of the system clock in seconds.
pub mod Stored
pub mod Payments
pub mod Atomicity
pub mod Notes
pub mod Settings
pub mod Rates
pub mod Addresses
pub mod Topups
pub mod Invoices
mod Examples
use lipa_lightning_lib.Prelude.{
  ℕ, zero, suc, ◌<◌, ℤ, String, Bool, true, false, not, Option, none, some, List, [], ◌∷◌, ◌++◌, ok,
  err, panic, permanent_failure, invalid_input, ltb, leb, str_eq, ◌==◌, if◌then◌else◌, filter, find,
  map, take,
}
use lipa_lightning_lib.Prelude.Exec.{pure, fail, lift, ◌>>=◌, ◌>>◌}
use lipa_lightning_lib.Config.{UserPreferences, ExchangeRate}
use lipa_lightning_lib.Errors.{LibError}
use lipa_lightning_lib.Offer.{Offer, from_offer_error, to_offer_error}
use lipa_lightning_lib.Db.{
  PaymentRow, HistoryRow, OfferRow, InvoiceRow, Tables, insert_payment, insert_history,
  insert_offer, replace_rate, update_note, has_payment, find_payment, find_history, find_offer,
  last,
}
use lipa_lightning_lib.Db.Connection.{
  DataStore, Store, mark_for_backup, statement, execute, query, settle,
}

pub record LocalPaymentData : Type 0 where
  pub user_preferences : Option UserPreferences
  pub exchange_rate : Option ExchangeRate
  pub offer : Option Offer
  pub personal_note : Option String
  pub received_on : Option String
  pub received_lnurl_comment : Option String

pub record CreatedInvoice : Type 0 where
  pub hash : String
  pub invoice : String
  pub channel_opening_fees : Option ℕ

-- the loop of `insert_exchange_rate_snapshot`
unfoldable pub insert_rates : ℕ → List ExchangeRate → Store (Unit {0})
insert_rates snapshot_id [] = pure tt
insert_rates snapshot_id (r ∷ rates) = do
  execute invalid_input (λ t. record t {
    history =
        insert_history
          (record {
            snapshot_id = snapshot_id;
            fiat_currency = r.currency_code;
            rate = r.rate;
            updated_at = r.updated_at;
          })
          t.history;
  })
  insert_rates snapshot_id rates

unfoldable pub insert_exchange_rate_snapshot : ℕ → List ExchangeRate → Store (Option ℕ)
insert_exchange_rate_snapshot now [] = pure none
insert_exchange_rate_snapshot now (r ∷ rates) = do insert_rates now (r ∷ rates); pure (some now)

unfoldable pub payment_row :
    String → UserPreferences → Option ℕ → Option String → Option String → PaymentRow
payment_row hash prefs snapshot_id received_on comment = record {
  hash = hash;
  timezone_id = some prefs.timezone_config.timezone_id;
  timezone_utc_offset_secs = some prefs.timezone_config.timezone_utc_offset_secs;
  fiat_currency = some prefs.fiat_currency;
  exchange_rates_history_snapshot_id = snapshot_id;
  personal_note = none;
  received_on = received_on;
  received_lnurl_comment = comment;
}

unfoldable pub offer_row : String → Offer → OfferRow
offer_row hash o = record {
  payment_hash = hash;
  pocket_id = some o.id;
  exchange_rate = o.exchange_rate;
  topup_value_minor_units = o.topup_value_minor_units;
  exchange_fee_minor_units = o.exchange_fee_minor_units;
  exchange_fee_rate_permyriad = o.exchange_fee_rate_permyriad;
  error = from_offer_error o.error;
  topup_value_sats = o.topup_value_sats;
}

unfoldable pub insert_offer_if_any : String → Option Offer → Store (Unit {0})
insert_offer_if_any hash none = pure tt
insert_offer_if_any hash (some o) =
    execute invalid_input (λ t. record t { offers = insert_offer (offer_row hash o) t.offers })

-- the statements between BEGIN and COMMIT
unfoldable pub store_payment_rows :
    ℕ
    → String
    → UserPreferences
    → List ExchangeRate
    → Option Offer
    → Option String
    → Option String
    → Store (Unit {0})
store_payment_rows now hash prefs rates offer received_on comment = do
  snapshot_id ← insert_exchange_rate_snapshot now rates
  execute permanent_failure (λ t. record t {
    payments = insert_payment (payment_row hash prefs snapshot_id received_on comment) t.payments;
  })
  insert_offer_if_any hash offer

unfoldable pub store_payment_info :
    ℕ
    → String
    → UserPreferences
    → List ExchangeRate
    → Option Offer
    → Option String
    → Option String
    → Store (Unit {0})
store_payment_info now hash prefs rates offer received_on comment = do
  mark_for_backup
  execute permanent_failure (λ t. t)
  λ s. settle s.tables (
      (do
        store_payment_rows now hash prefs rates offer received_on comment
        execute permanent_failure (λ t. t))
        s)

user_preferences_of : Option String → Option ℤ → Option String → Option UserPreferences
user_preferences_of (some id) (some offset) (some currency) = some (record {
  fiat_currency = currency;
  timezone_config = record { timezone_id = id; timezone_utc_offset_secs = offset };
})
user_preferences_of _ _ _ = none

exchange_rate_of : Option String → Option HistoryRow → Option ExchangeRate
exchange_rate_of (some currency) (some h) =
    some (record { currency_code = currency; rate = h.rate; updated_at = h.updated_at })
exchange_rate_of _ _ = none

offer_with_id : Option String → OfferRow → Option Offer
offer_with_id none r = none
offer_with_id (some id) r = some (record {
  id = id;
  exchange_rate = r.exchange_rate;
  topup_value_minor_units = r.topup_value_minor_units;
  topup_value_sats = r.topup_value_sats;
  exchange_fee_minor_units = r.exchange_fee_minor_units;
  exchange_fee_rate_permyriad = r.exchange_fee_rate_permyriad;
  lightning_payout_fee = none;
  error = to_offer_error r.error;
})

unfoldable pub offer_of : Option OfferRow → Option Offer
unfolding offer_with_id
offer_of none = none
offer_of (some r) = offer_with_id r.pocket_id r

-- `local_payment_data_from_row`, of the joined row
unfoldable pub local_payment_data : Tables → PaymentRow → LocalPaymentData
unfolding user_preferences_of exchange_rate_of
local_payment_data t p = record {
  user_preferences = user_preferences_of p.timezone_id p.timezone_utc_offset_secs p.fiat_currency;
  exchange_rate =
      exchange_rate_of p.fiat_currency
        (find_history p.exchange_rates_history_snapshot_id p.fiat_currency t.history);
  offer = offer_of (find_offer p.hash t.offers);
  personal_note = p.personal_note;
  received_on = p.received_on;
  received_lnurl_comment = p.received_lnurl_comment;
}

-- the SELECT of `retrieve_payment_info`
unfoldable pub select_payment_info : String → Tables → Option LocalPaymentData
select_payment_info hash t = elim (find_payment hash t.payments) [
  | none ↦ none
  | some p ↦ some (local_payment_data t p)
]

unfoldable pub retrieve_payment_info : String → Store (Option LocalPaymentData)
retrieve_payment_info hash = query permanent_failure (select_payment_info hash)

unfoldable pub store_created_invoice : String → String → Option ℕ → ℕ → Store (Unit {0})
store_created_invoice hash invoice fees expiry = do
  mark_for_backup
  execute permanent_failure (λ t. record t {
    invoices =
        t.invoices
        ++ record {
          hash = hash;
          invoice = invoice;
          channel_opening_fees = fees;
          invoice_expiry_timestamp = expiry;
        }
          ∷ [];
  })

created_invoice : InvoiceRow → CreatedInvoice
created_invoice r = record {
  hash = r.hash;
  invoice = r.invoice;
  channel_opening_fees = r.channel_opening_fees;
}

unfoldable pub retrieve_created_invoice_by_hash : String → Store (Option CreatedInvoice)
unfolding created_invoice
retrieve_created_invoice_by_hash hash = query permanent_failure (λ t.
    elim (find (λ (r : InvoiceRow). str_eq r.hash hash) t.invoices) [
      | none ↦ none
      | some r ↦ some (created_invoice r)
    ])

-- INSERT INTO payments (personal_note, hash): the other columns are NULL
abbrev pub bare_row : String → Option String → PaymentRow
bare_row hash note = record {
  hash = hash;
  timezone_id = none;
  timezone_utc_offset_secs = none;
  fiat_currency = none;
  exchange_rates_history_snapshot_id = none;
  personal_note = note;
  received_on = none;
  received_lnurl_comment = none;
}

unfoldable pub update_personal_note : String → Option String → Store (Unit {0})
update_personal_note hash note = do
  mark_for_backup
  found ←
      statement permanent_failure (λ t.
        (has_payment hash t.payments, record t { payments = update_note hash note t.payments }))
  if found
      then pure tt
      else execute permanent_failure
          (λ t. record t { payments = insert_payment (bare_row hash note) t.payments })

unfoldable pub update_exchange_rate : ExchangeRate → Store (Unit {0})
update_exchange_rate r = do
  mark_for_backup
  execute invalid_input (λ t. record t { rates = replace_rate r t.rates })

unfoldable pub get_all_exchange_rates : Store (List ExchangeRate)
get_all_exchange_rates = query permanent_failure (λ t. t.rates)
