-- ===== src/Lightning/Bolt11.antt =====
-- src/lightning/bolt11.rs: invoices, created and paid. Analytics are left out.
pub mod Guards
use lipa_lightning_lib.Prelude.{
  ℕ, String, Bool, true, false, not, Option, none, some, ok, err, panic, permanent_failure,
  runtime_error, Error, or_err, str_eq, ◌==◌, if◌then◌else◌, add64, ◌≡◌, ◌≢◌, refl, eq_iff, arith,
  or_err-ok, List, ◌∷◌,
}
use lipa_lightning_lib.Prelude.Exec.{Exec, pure, lift, ensure, map_err_of, ◌>>=◌, ◌>>◌}
use lipa_lightning_lib.Errors.{PayErrorCode, SendPaymentError, map_send_payment_error}
use lipa_lightning_lib.Amount.{as_sats}
use lipa_lightning_lib.Payment.{InvoiceDetails, from_ln_invoice}
use lipa_lightning_lib.DataStore.{store_created_invoice}
use lipa_lightning_lib.Sdk.{OpeningFeeParams, NodeState, Call, World, ask, on_store}
use lipa_lightning_lib.Sdk.Broadcasts.{
  Quiet, quiet_rules, Quiet-on_store, Sends, Sends-after, Sends-ask, Sends-lift, Sends-ensure,
  Sends-then, Outcome,
}
use lipa_lightning_lib.Support.{
  Support, Lib, node_unavailable, get_exchange_rate, store_payment_info_of,
  report_send_payment_issue,
}

abbrev pub Pay : Type 0 → Type 0
Pay A = Exec World (Error PayErrorCode) A

unfoldable pub create : Support → ℕ → ℕ → Option OpeningFeeParams → String → Lib InvoiceDetails
create sup now amount_sat lsp_fee_params description = do
  answer ←
      ask (Call.receive_payment (as_sats amount_sat).msats description lsp_fee_params)
        sup.sdk.answer_receive_payment
  response ← lift (or_err answer node_unavailable)
  let invoice = response.ln_invoice
  on_store (store_payment_info_of sup now invoice.payment_hash none)
  map_err_of (λ _. permanent_failure)
      (on_store (
        store_created_invoice invoice.payment_hash invoice.bolt11 response.opening_fee_msat
          (add64 invoice.timestamp invoice.expiry)))
  lift (elim (from_ln_invoice invoice (get_exchange_rate sup)) [ none ↦ panic | some d ↦ ok d ])

-- the failures that are reported to the SDK
unfoldable pub is_reported : SendPaymentError → Bool
is_reported SendPaymentError.generic = true
is_reported SendPaymentError.payment_failed = true
is_reported SendPaymentError.payment_timeout = true
is_reported SendPaymentError.route_not_found = true
is_reported SendPaymentError.route_too_expensive = true
is_reported SendPaymentError.service_connectivity = true
is_reported SendPaymentError.already_paid = false
is_reported SendPaymentError.invalid_amount = false
is_reported SendPaymentError.invalid_invoice = false
is_reported SendPaymentError.invoice_expired = false
is_reported SendPaymentError.invalid_network = false

-- what follows the answer to `send_payment`
unfoldable pub after_send : String → Option SendPaymentError → Pay (Unit {0})
after_send hash none = pure tt
after_send hash (some e) = do
  if is_reported e then report_send_payment_issue hash else pure tt
  lift (err (map_send_payment_error e))

-- 0 stands for the amount of the invoice
unfoldable pub amount_to_send : ℕ → Option ℕ
amount_to_send amount_sat = if amount_sat == 0 then none else some (as_sats amount_sat).msats

unfoldable pub pay_open_amount : Support → ℕ → InvoiceDetails → ℕ → Pay (Unit {0})
unfolding after_send amount_to_send
pay_open_amount sup now details amount_sat = do
  on_store (store_payment_info_of sup now details.payment_hash none)
  answer ← ask Call.node_info sup.sdk.answer_node_info
  state ← lift (or_err answer (runtime_error PayErrorCode.node_unavailable))
  ensure (not (str_eq state.id details.payee_pub_key)) (runtime_error PayErrorCode.paying_to_self)
  result ←
      ask (Call.send_payment details.invoice (amount_to_send amount_sat))
        sup.sdk.answer_send_payment
  after_send details.payment_hash result

unfoldable pub pay : Support → ℕ → InvoiceDetails → Pay (Unit {0})
unfolding pay_open_amount
pay sup now details = pay_open_amount sup now details 0
