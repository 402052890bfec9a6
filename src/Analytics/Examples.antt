-- ===== src/Analytics/Examples.antt =====
-- A failed payment, as it is reported.
use lipa_lightning_lib.Prelude.{starts_with}
use lipa_lightning_lib.Event.{report_event_for_analytics}
use lipa_lightning_lib.Prelude.{◌≡◌, refl, none, some}
use lipa_lightning_lib.Payment.{LnInvoice}
use lipa_lightning_lib.SdkPayment.{BreezEvent}
use lipa_lightning_lib.DataStore.Settings.{enabled}
use lipa_lightning_lib.Event.{Callback, on_event}
use lipa_lightning_lib.Analytics.{pay_failed_event, no_route, analytics_of}
use lipa_lightning_lib.Analytics.Reported.{Tells, reports_are_told}

abbrev invoice : LnInvoice
invoice = record {
  bolt11 = "lnbc";
  payee_pubkey = "key";
  payment_hash = "hash";
  description = none;
  amount_msat = none;
  timestamp = 1;
  expiry = 60;
}

abbrev failure : BreezEvent
failure = BreezEvent.payment_failed (some invoice)

reported_lem :
    analytics_of enabled 7 "Route not found: no route" failure
    ≡ some (pay_failed_event "hash" no_route 7)
unfolding analytics_of report_event_for_analytics starts_with
reported_lem = refl

reports_are_told_example :
    (enabled ≡ enabled)
    × (c : Callback) × (on_event failure ≡ some c)
    × Tells c (pay_failed_event "hash" no_route 7)
reports_are_told_example =
    reports_are_told enabled 7 "Route not found: no route" failure reported_lem
