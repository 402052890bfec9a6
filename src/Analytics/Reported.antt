-- ===== src/Analytics/Reported.antt =====
-- What is reported of the events of the SDK, and what the application is told of them.
use mathlib.Core.Path.{subst}
use lipa_lightning_lib.Prelude.{ℕ, String, ◌≡◌, ◌≢◌, refl, Option, none, some}
use lipa_lightning_lib.SdkPayment.{SdkPayment, PaymentDetails, ln, closed, BreezEvent}
use lipa_lightning_lib.DataStore.Settings.{AnalyticsConfig, enabled, disabled}
use lipa_lightning_lib.Event.{
  Report, request_succeeded, pay_succeeded, pay_failed, Callback, payment_received, payment_failed,
  payment_sent, on_event, sent_callback, sent_report, report_event_for_analytics,
}
use lipa_lightning_lib.Analytics.{
  map_error_to_failure_reason, intercept_report, intercept, AnalyticsEvent, pay_succeeded_event,
  pay_failed_event, request_succeeded_event, pay_succeeded_of, analytics_of,
}

-- The callback tells the application the outcome that the event reports.
unfoldable pub Tells : Callback → AnalyticsEvent → Type 0
Tells (payment_received h) (request_succeeded_event hash amount fee time) = h ≡ hash
Tells (payment_sent h preimage) (pay_succeeded_event hash fee time) = h ≡ hash
Tells (payment_failed h) (pay_failed_event hash reason time) = h ≡ hash
Tells c e = ⊥

told :
    (e : BreezEvent) (c : Callback) (x : AnalyticsEvent) {a : AnalyticsEvent}
    → on_event e ≡ some c
    → Tells c x
    → some x ≡ some a
    → (d : Callback) × (on_event e ≡ some d) × Tells d a
told e c x {a} p t h = let same : x ≡ a = cc in (c, p, subst (Tells c) same t)

disabled_lem :
    (now : ℕ) (error : String) (r : Option Report) {a : AnalyticsEvent}
    → intercept_report disabled now error r ≢ some a
unfolding intercept_report intercept
disabled_lem now error none h = cc
disabled_lem now error (some (request_succeeded hash payment)) h = cc
disabled_lem now error (some (pay_succeeded payment)) h = cc
disabled_lem now error (some (pay_failed invoice)) h = cc

told_sent :
    (payment : SdkPayment) (d : PaymentDetails) {a : AnalyticsEvent}
    → payment.details ≡ d
    → pay_succeeded_of enabled payment d ≡ some a
    → (c : Callback) × (sent_callback d ≡ some c) × Tells c a
unfolding pay_succeeded_of sent_callback Tells
told_sent payment (ln d) {a} p h = (
  payment_sent d.payment_hash d.payment_preimage,
  refl,
  (let same : pay_succeeded_event d.payment_hash payment.fee_msat payment.payment_time ≡ a = cc in
      subst (Tells (payment_sent d.payment_hash d.payment_preimage)) same refl),
)
told_sent payment (closed txid) p h = cc

sent_lem :
    (now : ℕ) (error : String) (payment : SdkPayment) (d : PaymentDetails) {a : AnalyticsEvent}
    → intercept_report enabled now error (sent_report payment d) ≡ some a
    → (c : Callback) × (sent_callback payment.details ≡ some c) × Tells c a
unfolding intercept_report intercept sent_report
sent_lem now error payment (ln d) h = told_sent payment payment.details refl h
sent_lem now error payment (closed txid) h = cc

-- Analytics that are disabled report no event of the SDK; what is reported otherwise is the outcome of a
-- payment that the application is told as well, under the same payment hash.
pub reports_are_told :
    (config : AnalyticsConfig) (now : ℕ) (error : String) (e : BreezEvent) {a : AnalyticsEvent}
    → analytics_of config now error e ≡ some a
    → (config ≡ enabled) × (c : Callback) × (on_event e ≡ some c) × Tells c a
unfolding analytics_of on_event report_event_for_analytics sent_report sent_callback
    pay_succeeded_of Tells
reports_are_told disabled now error e h =
    absurd (disabled_lem now error (report_event_for_analytics e) h)
reports_are_told enabled now error BreezEvent.new_block h = cc
reports_are_told enabled now error BreezEvent.synced h = cc
reports_are_told enabled now error BreezEvent.backup_started h = cc
reports_are_told enabled now error BreezEvent.backup_succeeded h = cc
reports_are_told enabled now error BreezEvent.backup_failed h = cc
reports_are_told enabled now error (BreezEvent.swap_updated status id) h = cc
reports_are_told enabled now error (BreezEvent.reverse_swap_updated status id) h = cc
reports_are_told enabled now error (BreezEvent.invoice_paid hash none) h = cc
reports_are_told enabled now error (BreezEvent.invoice_paid hash (some payment)) h =
    let (c, p, t) =
      told (BreezEvent.invoice_paid hash (some payment)) (payment_received hash)
        (request_succeeded_event hash payment.amount_msat payment.fee_msat now) refl refl h in
    (refl, c, p, t)
reports_are_told enabled now error (BreezEvent.payment_succeed payment) h =
    let (c, p, t) = sent_lem now error payment payment.details h in (refl, c, p, t)
reports_are_told enabled now error (BreezEvent.payment_failed none) h = cc
reports_are_told enabled now error (BreezEvent.payment_failed (some invoice)) h =
    let (c, p, t) =
      told (BreezEvent.payment_failed (some invoice)) (payment_failed invoice.payment_hash)
        (pay_failed_event invoice.payment_hash (map_error_to_failure_reason error) now) refl refl
        h in
    (refl, c, p, t)
