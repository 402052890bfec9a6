-- ===== src/Event.antt =====
-- src/event.rs: which callback of the application, and which report to analytics, an event of the SDK
-- leads to.
use lipa_lightning_lib.Prelude.{String, Option, none, some, map_option}
use lipa_lightning_lib.Activity.{ReverseSwapStatus}
use lipa_lightning_lib.Payment.{LnInvoice}
use lipa_lightning_lib.SdkPayment.{SdkPayment, PaymentDetails, ln, closed, SwapStatus, BreezEvent}

-- the methods of `EventsCallback` in src/callbacks.rs that an event calls
pub data Callback : Type 0 where
  payment_received payment_failed swap_received : String → Callback
  reverse_swap_sent reverse_swap_settled reverse_swap_cancelled : String → Callback
  -- the payment hash and the preimage
  payment_sent : String → String → Callback
  synced : Callback

unfoldable pub sent_callback : PaymentDetails → Option Callback
sent_callback (ln d) = some (payment_sent d.payment_hash d.payment_preimage)
sent_callback (closed t) = none

unfoldable pub swap_callback : SwapStatus → String → Option Callback
swap_callback SwapStatus.completed payment_hash = some (swap_received payment_hash)
swap_callback SwapStatus.initial payment_hash = none
swap_callback SwapStatus.waiting_confirmation payment_hash = none
swap_callback SwapStatus.redeemable payment_hash = none
swap_callback SwapStatus.redeemed payment_hash = none
swap_callback SwapStatus.refundable payment_hash = none

unfoldable pub reverse_swap_callback : ReverseSwapStatus → String → Option Callback
reverse_swap_callback ReverseSwapStatus.completed_seen id = some (reverse_swap_sent id)
reverse_swap_callback ReverseSwapStatus.completed_confirmed id = some (reverse_swap_settled id)
reverse_swap_callback ReverseSwapStatus.cancelled id = some (reverse_swap_cancelled id)
reverse_swap_callback ReverseSwapStatus.initial id = none
reverse_swap_callback ReverseSwapStatus.in_progress id = none

-- `LipaEventListener::on_event`
unfoldable pub on_event : BreezEvent → Option Callback
unfolding sent_callback swap_callback reverse_swap_callback
on_event BreezEvent.new_block = none
on_event BreezEvent.backup_started = none
on_event BreezEvent.backup_succeeded = none
on_event BreezEvent.backup_failed = none
on_event BreezEvent.synced = some synced
on_event (BreezEvent.invoice_paid payment_hash payment) = some (payment_received payment_hash)
on_event (BreezEvent.payment_succeed payment) = sent_callback payment.details
on_event (BreezEvent.payment_failed invoice) =
    map_option (λ (i : LnInvoice). payment_failed i.payment_hash) invoice
on_event (BreezEvent.swap_updated status payment_hash) = swap_callback status payment_hash
on_event (BreezEvent.reverse_swap_updated status id) = reverse_swap_callback status id

-- what is reported to analytics
pub data Report : Type 0 where
  request_succeeded : String → Option SdkPayment → Report
  pay_succeeded : SdkPayment → Report
  pay_failed : LnInvoice → Report

unfoldable pub sent_report : SdkPayment → PaymentDetails → Option Report
sent_report payment (ln d) = some (pay_succeeded payment)
sent_report payment (closed t) = none

unfoldable pub report_event_for_analytics : BreezEvent → Option Report
unfolding sent_report
report_event_for_analytics (BreezEvent.invoice_paid payment_hash payment) =
    some (request_succeeded payment_hash payment)
report_event_for_analytics (BreezEvent.payment_succeed payment) =
    sent_report payment payment.details
report_event_for_analytics (BreezEvent.payment_failed invoice) = map_option pay_failed invoice
report_event_for_analytics BreezEvent.new_block = none
report_event_for_analytics BreezEvent.synced = none
report_event_for_analytics BreezEvent.backup_started = none
report_event_for_analytics BreezEvent.backup_succeeded = none
report_event_for_analytics BreezEvent.backup_failed = none
report_event_for_analytics (BreezEvent.swap_updated status payment_hash) = none
report_event_for_analytics (BreezEvent.reverse_swap_updated status id) = none
