-- ===== src/Payment.antt =====
-- src/payment.rs and src/invoice_details.rs: payments and the details of invoices. Times are
-- seconds after the Unix epoch.
pub mod Conversion
use lipa_lightning_lib.Prelude.{ℕ, String, Bool, true, false, Option, none, some, add64}
use lipa_lightning_lib.Config.{ExchangeRate, TzTime}
use lipa_lightning_lib.Amount.{Amount, as_msats, to_amount_down}

pub data PaymentState : Type 0 where
  created succeeded failed retried invoice_expired : PaymentState

-- the SDK's `PaymentStatus`
pub data PaymentStatus : Type 0 where
  pending complete failed : PaymentStatus

unfoldable pub payment_state_of : PaymentStatus → PaymentState
payment_state_of PaymentStatus.pending = PaymentState.created
payment_state_of PaymentStatus.complete = PaymentState.succeeded
payment_state_of PaymentStatus.failed = PaymentState.failed

unfoldable pub is_pending_state : PaymentState → Bool
is_pending_state PaymentState.created = true
is_pending_state PaymentState.retried = true
is_pending_state PaymentState.succeeded = false
is_pending_state PaymentState.failed = false
is_pending_state PaymentState.invoice_expired = false

-- the SDK's `LNInvoice`
pub record LnInvoice : Type 0 where
  pub bolt11 : String
  pub payee_pubkey : String
  pub payment_hash : String
  pub description : Option String
  pub amount_msat : Option ℕ
  pub timestamp : ℕ
  pub expiry : ℕ

pub record InvoiceDetails : Type 0 where
  pub invoice : String
  pub amount : Option Amount
  pub description : String
  pub payment_hash : String
  pub payee_pub_key : String
  pub creation_timestamp : ℕ
  pub expiry_interval : ℕ
  pub expiry_timestamp : ℕ

unfoldable pub details_with : LnInvoice → Option Amount → InvoiceDetails
details_with i amount = record {
  invoice = i.bolt11;
  amount = amount;
  description = elim i.description [ none ↦ "" | some d ↦ d ];
  payment_hash = i.payment_hash;
  payee_pub_key = i.payee_pubkey;
  creation_timestamp = i.timestamp;
  expiry_interval = i.expiry;
  expiry_timestamp = add64 i.timestamp i.expiry;
}

-- `none` is the panic of the conversion with a rate of 0
unfoldable pub from_ln_invoice : LnInvoice → Option ExchangeRate → Option InvoiceDetails
unfolding details_with
from_ln_invoice i rate = elim i.amount_msat [
  | none ↦ some (details_with i none)
  | some a ↦ elim (to_amount_down (as_msats a) rate) [
    | none ↦ none
    | some amount ↦ some (details_with i (some amount))
  ]
]

pub record PaymentInfo : Type 0 where
  pub payment_state : PaymentState
  pub hash : String
  pub amount : Amount
  pub invoice_details : InvoiceDetails
  pub created_at : TzTime
  pub description : String
  pub preimage : Option String
  pub personal_note : Option String

pub data Recipient : Type 0 where
  lightning_address lnurl_pay_domain phone_number : String → Recipient
  unknown : Recipient

pub record IncomingPaymentInfo : Type 0 where
  pub payment_info : PaymentInfo
  pub requested_amount : Amount
  pub lsp_fees : Amount
  pub received_on : Option Recipient
  pub received_lnurl_comment : Option String

pub record OutgoingPaymentInfo : Type 0 where
  pub payment_info : PaymentInfo
  pub network_fees : Amount
  pub recipient : Recipient
  pub comment_for_recipient : Option String
