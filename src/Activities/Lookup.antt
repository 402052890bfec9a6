-- ===== src/Activities/Lookup.antt =====
-- src/activities.rs: the activity of a payment hash or of a reverse swap, created invoices as payments,
-- and personal notes. `now` is the time of the system.
pub mod Found
use lipa_lightning_lib.Prelude.{
  ℕ, zero, String, Bool, false, Option, none, some, [], ◌∷◌, ok, err, panic, or_err, or_panic,
  cons_some, invalid_input, permanent_failure, ltb, str_eq, if◌then◌else◌, sub64, find, trim, List,
}
use lipa_lightning_lib.Prelude.Exec.{pure, fail, lift, ◌>>=◌}
use lipa_lightning_lib.Config.{with_timezone}
use lipa_lightning_lib.Amount.{as_sats, as_msats, to_amount_up, sats_to_amount_down}
use lipa_lightning_lib.Payment.{
  PaymentState, InvoiceDetails, from_ln_invoice, IncomingPaymentInfo, OutgoingPaymentInfo,
}
use lipa_lightning_lib.Payment.Conversion.{Parsers}
use lipa_lightning_lib.Activity.{Activity, incoming_payment}
use lipa_lightning_lib.SdkPayment.{SdkPayment, sent, PaymentDetails, ln, closed}
use lipa_lightning_lib.DataStore.{
  CreatedInvoice, retrieve_payment_info, retrieve_created_invoice_by_hash, update_personal_note,
}
use lipa_lightning_lib.Sdk.{Call, ask, on_store}
use lipa_lightning_lib.Support.{Support, Lib, amount_or_panic, node_unavailable}
use lipa_lightning_lib.Activities.{incoming_payment_of, outgoing_payment_of}
use lipa_lightning_lib.Activities.Conversion.{timezone_of, activity_from_breez_payment}

-- `filter_out_and_log_corrupted_activities` of src/lib.rs: an error is `none`
unfoldable pub unless_corrupted : {A : Type 0} → Lib A → Lib (Option A)
unless_corrupted m w =
    let (r, w') = m w in (elim r [ ok a ↦ ok (some a) | err _ ↦ ok none | panic ↦ panic ], w')

-- the activities of payments, without those whose data are corrupted
unfoldable pub valid_activities : Parsers → Support → List SdkPayment → Lib (List Activity)
valid_activities parsers sup [] = pure []
valid_activities parsers sup (p ∷ payments) = do
  a ← unless_corrupted (activity_from_breez_payment parsers sup p)
  rest ← valid_activities parsers sup payments
  pure (cons_some a rest)

unfoldable pub invoice_state : ℕ → InvoiceDetails → PaymentState
invoice_state now i =
    if ltb i.expiry_timestamp now then PaymentState.invoice_expired else PaymentState.created

unfoldable pub fees_or_zero : Option ℕ → ℕ
fees_or_zero none = zero
fees_or_zero (some fees) = fees

module _ (parsers : Parsers) (sup : Support) (now : ℕ) where
  unfoldable pub payment_from_created_invoice : CreatedInvoice → Lib IncomingPaymentInfo
  unfolding invoice_state fees_or_zero
  payment_from_created_invoice created = do
    invoice ← lift (or_err (parsers.parse_invoice created.invoice) permanent_failure)
    details ← lift (or_panic (from_ln_invoice invoice none))
    found ← on_store (retrieve_payment_info details.payment_hash)
    d ← lift (or_err found permanent_failure)
    invoice_details ← lift (or_panic (from_ln_invoice invoice d.exchange_rate))
    lsp_fees ←
        amount_or_panic
          (to_amount_up (as_msats (fees_or_zero created.channel_opening_fees)) d.exchange_rate)
    invoice_amount ← lift (or_err invoice_details.amount permanent_failure)
    requested_amount ←
        amount_or_panic (sats_to_amount_down (as_sats invoice_amount.sats) d.exchange_rate)
    amount ←
        amount_or_panic (
          sats_to_amount_down (as_sats (sub64 requested_amount.sats lsp_fees.sats)) d.exchange_rate)
    pure (record {
      payment_info = record {
        payment_state = invoice_state now details;
        hash = invoice_details.payment_hash;
        amount = amount;
        invoice_details = invoice_details;
        created_at =
            with_timezone invoice_details.creation_timestamp (timezone_of sup d.user_preferences);
        description = invoice_details.description;
        preimage = none;
        personal_note = d.personal_note;
      };
      requested_amount = requested_amount;
      lsp_fees = lsp_fees;
      received_on = none;
      received_lnurl_comment = none;
    })

  unfoldable pub created_activity : Option CreatedInvoice → Lib Activity
  unfolding payment_from_created_invoice
  created_activity none = fail invalid_input
  created_activity (some created) = do
    info ← payment_from_created_invoice created
    pure (incoming_payment info)

  unfoldable pub paid_or_created : String → Option SdkPayment → Lib Activity
  unfolding created_activity
  paid_or_created hash (some p) = activity_from_breez_payment parsers sup p
  paid_or_created hash none = do
    created ← on_store (retrieve_created_invoice_by_hash hash)
    created_activity created

  unfoldable pub get : String → Lib Activity
  unfolding paid_or_created
  get hash = do
    answer ← ask (Call.payment_by_hash hash) sup.sdk.answer_payment_by_hash
    payment ← lift (or_err answer node_unavailable)
    paid_or_created hash payment

  unfoldable pub get_incoming_payment : String → Lib IncomingPaymentInfo
  unfolding get
  get_incoming_payment hash = do a ← get hash; lift (incoming_payment_of a)

  unfoldable pub get_outgoing_payment : String → Lib OutgoingPaymentInfo
  unfolding get
  get_outgoing_payment hash = do a ← get hash; lift (outgoing_payment_of a)

unfoldable pub is_reverse_swap_of : String → PaymentDetails → Bool
is_reverse_swap_of id (closed txid) = false
is_reverse_swap_of id (ln d) = elim d.reverse_swap_info [ none ↦ false | some s ↦ str_eq s.id id ]

abbrev pub leeway_for_reverse_swaps : ℕ
leeway_for_reverse_swaps = 30

unfoldable pub converted : Parsers → Support → Option SdkPayment → Lib (Option Activity)
converted parsers sup none = pure none
converted parsers sup (some p) = do a ← activity_from_breez_payment parsers sup p; pure (some a)

unfoldable pub get_by_reverse_swap : Parsers → Support → String → Lib (Option Activity)
unfolding is_reverse_swap_of converted
get_by_reverse_swap parsers sup id = do
  answer ←
      ask (Call.list_payments (sent ∷ []) false (some leeway_for_reverse_swaps))
        sup.sdk.answer_list_payments
  payments ← lift (or_err answer node_unavailable)
  converted parsers sup (find (λ (p : SdkPayment). is_reverse_swap_of id p.details) payments)

unfoldable pub note_of : String → Option String
note_of text = if str_eq (trim text) "" then none else some (trim text)

unfoldable pub set_personal_note : String → String → Lib (Unit {0})
unfolding note_of
set_personal_note payment_hash text = on_store (update_personal_note payment_hash (note_of text))
