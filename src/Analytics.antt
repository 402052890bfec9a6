-- ===== src/Analytics.antt =====
-- src/analytics.rs. The events, and their source, are types of the crate `parrot`; the client that
-- reports an event is left out: each operation gives the event that it reports. Times are seconds after
-- the Unix epoch, and `now` is the time of the system.
pub mod Reported
mod Examples
use lipa_lightning_lib.Prelude.{
  ℕ, String, Option, none, some, if◌then◌else◌, starts_with, map_option, or_else,
}
use lipa_lightning_lib.Config.{ExchangeRate, UserPreferences}
use lipa_lightning_lib.Amount.{Amount, to_msats}
use lipa_lightning_lib.Payment.{LnInvoice, InvoiceDetails}
use lipa_lightning_lib.SdkPayment.{SdkPayment, PaymentDetails, ln, closed, BreezEvent}
use lipa_lightning_lib.DataStore.Settings.{AnalyticsConfig, enabled, disabled}
use lipa_lightning_lib.Event.{
  Report, request_succeeded, pay_succeeded, pay_failed, report_event_for_analytics,
}

pub data PayFailureReason : Type 0 where
  no_route unknown : PayFailureReason

pub record PaymentMetadata (Source : Type 0) : Type 0 where
  pub source : Source
  pub process_started_at : ℕ

pub record PayInitiated (Source : Type 0) : Type 0 where
  pub payment_hash : String
  pub paid_amount_msat : ℕ
  pub requested_amount_msat : Option ℕ
  pub sats_per_user_currency : Option ℕ
  pub source : Source
  pub user_currency : String
  pub process_started_at : ℕ
  pub executed_at : ℕ

pub record RequestInitiated : Type 0 where
  pub payment_hash : String
  pub entered_amount_msat : Option ℕ
  pub sats_per_user_currency : Option ℕ
  pub user_currency : String
  pub request_currency : String
  pub created_at : ℕ

-- the `AnalyticsEvent` of an event of the SDK
pub data AnalyticsEvent : Type 0 where
  -- the payment hash, the fee in msats and the time
  pay_succeeded_event : String → ℕ → ℕ → AnalyticsEvent
  -- the payment hash, the reason and the time
  pay_failed_event : String → PayFailureReason → ℕ → AnalyticsEvent
  -- the payment hash, the amount and the fee of the channel in msats, and the time
  request_succeeded_event : String → ℕ → ℕ → ℕ → AnalyticsEvent

unfoldable pub map_error_to_failure_reason : String → PayFailureReason
map_error_to_failure_reason error =
    if starts_with "Route not found:" error then no_route else unknown

module _ {Source : Type 0} (preferences : UserPreferences) (now : ℕ) where
  initiated :
      InvoiceDetails
      → PaymentMetadata Source
      → Option ℕ
      → Option ℕ
      → Option ExchangeRate
      → Option (PayInitiated Source)
  initiated invoice_details metadata invoice_amount none exchange_rate = none
  initiated invoice_details metadata invoice_amount (some paid_amount_msat) exchange_rate =
      some (record {
        payment_hash = invoice_details.payment_hash;
        paid_amount_msat = paid_amount_msat;
        requested_amount_msat = invoice_amount;
        sats_per_user_currency = map_option (λ (e : ExchangeRate). e.rate) exchange_rate;
        source = metadata.source;
        user_currency = preferences.fiat_currency;
        process_started_at = metadata.process_started_at;
        executed_at = now;
      })

  unfoldable pub pay_initiated :
      AnalyticsConfig
      → InvoiceDetails
      → PaymentMetadata Source
      → Option ℕ
      → Option ExchangeRate
      → Option (PayInitiated Source)
  unfolding initiated
  pay_initiated disabled invoice_details metadata paid_amount exchange_rate = none
  pay_initiated enabled invoice_details metadata paid_amount exchange_rate =
      let invoice_amount = map_option to_msats invoice_details.amount in
      initiated invoice_details metadata invoice_amount (or_else paid_amount invoice_amount)
        exchange_rate

-- with the invoice of the response, and the currency of the metadata
unfoldable pub request_initiated :
    AnalyticsConfig
    → UserPreferences
    → ℕ
    → LnInvoice
    → Option ExchangeRate
    → String
    → Option RequestInitiated
request_initiated disabled preferences now ln_invoice exchange_rate request_currency = none
request_initiated enabled preferences now ln_invoice exchange_rate request_currency = some (record {
  payment_hash = ln_invoice.payment_hash;
  entered_amount_msat = ln_invoice.amount_msat;
  sats_per_user_currency = map_option (λ (e : ExchangeRate). e.rate) exchange_rate;
  user_currency = preferences.fiat_currency;
  request_currency = request_currency;
  created_at = now;
})

-- `pay_succeeded`, with the details of the payment
unfoldable pub pay_succeeded_of :
    AnalyticsConfig → SdkPayment → PaymentDetails → Option AnalyticsEvent
pay_succeeded_of disabled payment details = none
pay_succeeded_of enabled payment (ln d) =
    some (pay_succeeded_event d.payment_hash payment.fee_msat payment.payment_time)
pay_succeeded_of enabled payment (closed txid) = none

-- `pay_failed`, with the error and the invoice
unfoldable pub pay_failed_of : AnalyticsConfig → ℕ → String → LnInvoice → Option AnalyticsEvent
unfolding map_error_to_failure_reason
pay_failed_of disabled now error invoice = none
pay_failed_of enabled now error invoice =
    some (pay_failed_event invoice.payment_hash (map_error_to_failure_reason error) now)

-- `request_succeeded`
unfoldable pub request_succeeded_of :
    AnalyticsConfig → ℕ → String → Option SdkPayment → Option AnalyticsEvent
request_succeeded_of disabled now payment_hash payment = none
request_succeeded_of enabled now payment_hash none = none
request_succeeded_of enabled now payment_hash (some payment) =
    some (request_succeeded_event payment_hash payment.amount_msat payment.fee_msat now)

unfoldable pub intercept : AnalyticsConfig → ℕ → String → Report → Option AnalyticsEvent
unfolding pay_succeeded_of pay_failed_of request_succeeded_of
intercept config now error (request_succeeded payment_hash payment) =
    request_succeeded_of config now payment_hash payment
intercept config now error (pay_succeeded payment) = pay_succeeded_of config payment payment.details
intercept config now error (pay_failed invoice) = pay_failed_of config now error invoice

unfoldable pub intercept_report :
    AnalyticsConfig → ℕ → String → Option Report → Option AnalyticsEvent
unfolding intercept
intercept_report config now error none = none
intercept_report config now error (some r) = intercept config now error r

-- what an event of the SDK reports
unfoldable pub analytics_of : AnalyticsConfig → ℕ → String → BreezEvent → Option AnalyticsEvent
unfolding intercept_report
analytics_of config now error e = intercept_report config now error (report_event_for_analytics e)
