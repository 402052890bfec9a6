-- ===== src/Payment/Conversion.antt =====
-- src/payment.rs: the payments of the SDK as payments of the library. The parsers of an invoice and of
-- the JSON of LNURL metadata are parameters.
use lipa_lightning_lib.Prelude.{
  ℕ, String, Option, none, some, List, Result, ok, err, panic, or_err, or_panic, permanent_failure,
  str_eq, if◌then◌else◌, add64, map_option,
}
use lipa_lightning_lib.Prelude.Exec.{pure, lift, ◌>>=◌}
use lipa_lightning_lib.Config.{ExchangeRate, TzConfig, with_timezone}
use lipa_lightning_lib.Errors.{LibError}
use lipa_lightning_lib.Amount.{Amount, as_msats, to_amount_up, to_amount_down}
use lipa_lightning_lib.Payment.{
  LnInvoice, InvoiceDetails, from_ln_invoice, PaymentInfo, payment_state_of, Recipient,
  lightning_address, lnurl_pay_domain, phone_number, unknown, IncomingPaymentInfo,
  OutgoingPaymentInfo,
}
use lipa_lightning_lib.SdkPayment.{
  SdkPayment, PaymentType, sent, received, closed_channel, PaymentDetails, ln, closed,
  LnPaymentDetails,
}
use lipa_lightning_lib.Support.{Lib, amount_or_panic}
use lipa_lightning_lib.PhoneNumber.{lightning_address_to_phone_number}
use lipa_lightning_lib.Lightning.Lnurl.{MetadataItem, parse_metadata}

pub record Parsers : Type 0 where
  pub parse_invoice : String → Option LnInvoice
  pub items_of : String → Option (List MetadataItem)

unfoldable pub address_recipient : String → Option String → Recipient
address_recipient address none = lightning_address address
address_recipient address (some e164) = phone_number e164

-- `Recipient::from_lightning_address`
unfoldable pub from_lightning_address : String → String → Recipient
unfolding address_recipient
from_lightning_address address domain =
    address_recipient address (lightning_address_to_phone_number address domain)

unfoldable pub domain_recipient : Option String → Recipient
domain_recipient none = unknown
domain_recipient (some domain) = lnurl_pay_domain domain

-- `Recipient::from_ln_payment_details`
unfoldable pub from_ln_payment_details : LnPaymentDetails → String → Recipient
unfolding from_lightning_address domain_recipient
from_ln_payment_details d domain = elim d.ln_address [
  | some address ↦ from_lightning_address address domain
  | none ↦ domain_recipient d.lnurl_pay_domain
]

unfoldable pub ln_details : PaymentDetails → Result LibError LnPaymentDetails
ln_details (ln d) = ok d
ln_details (closed txid) = err permanent_failure

-- the time of an invoice for a payment that is received, and that of the payment for one that is sent
unfoldable pub time_of : SdkPayment → PaymentType → InvoiceDetails → Result LibError ℕ
time_of p sent invoice = ok p.payment_time
time_of p received invoice = ok invoice.creation_timestamp
time_of p closed_channel invoice = err permanent_failure

unfoldable pub amount_of : SdkPayment → PaymentType → Option ExchangeRate → Lib Amount
amount_of p sent rate =
    amount_or_panic (to_amount_up (as_msats (add64 p.amount_msat p.fee_msat)) rate)
amount_of p received rate = amount_or_panic (to_amount_down (as_msats p.amount_msat) rate)
amount_of p closed_channel rate = lift (err permanent_failure)

unfoldable pub description_of : Parsers → Option String → String → String
description_of parsers none default = default
description_of parsers (some metadata) default = elim (parse_metadata (parsers.items_of metadata)) [
  | ok d ↦ d.0
  | err e ↦ default
  | panic ↦ default
]

unfoldable pub preimage_of : String → Option String
preimage_of preimage = if str_eq preimage "" then none else some preimage

module _ (parsers : Parsers) (p : SdkPayment) (rate : Option ExchangeRate) (tz : TzConfig) where
  -- `PaymentInfo::new`
  unfoldable pub payment_info_of : Option String → Lib PaymentInfo
  unfolding ln_details time_of amount_of description_of preimage_of
  payment_info_of personal_note = do
    d ← lift (ln_details p.details)
    invoice ← lift (or_err (parsers.parse_invoice d.bolt11) permanent_failure)
    invoice_details ← lift (or_panic (from_ln_invoice invoice rate))
    time ← lift (time_of p p.payment_type invoice_details)
    amount ← amount_of p p.payment_type rate
    pure (record {
      payment_state = payment_state_of p.status;
      hash = d.payment_hash;
      amount = amount;
      invoice_details = invoice_details;
      created_at = with_timezone time tz;
      description = description_of parsers d.lnurl_metadata invoice_details.description;
      preimage = preimage_of d.payment_preimage;
      personal_note = personal_note;
    })

  -- `IncomingPaymentInfo::new`
  unfoldable pub incoming_payment_info_of :
      Option String → Option String → Option String → String → Lib IncomingPaymentInfo
  unfolding payment_info_of
  incoming_payment_info_of personal_note received_on received_lnurl_comment domain = do
    lsp_fees ← amount_or_panic (to_amount_up (as_msats p.fee_msat) rate)
    requested_amount ←
        amount_or_panic (to_amount_down (as_msats (add64 p.amount_msat p.fee_msat)) rate)
    payment_info ← payment_info_of personal_note
    pure (record {
      payment_info = payment_info;
      requested_amount = requested_amount;
      lsp_fees = lsp_fees;
      received_on = map_option (λ r. from_lightning_address r domain) received_on;
      received_lnurl_comment = received_lnurl_comment;
    })

  -- `OutgoingPaymentInfo::new`
  unfoldable pub outgoing_payment_info_of : Option String → String → Lib OutgoingPaymentInfo
  unfolding payment_info_of from_ln_payment_details
  outgoing_payment_info_of personal_note domain = do
    network_fees ← amount_or_panic (to_amount_up (as_msats p.fee_msat) rate)
    d ← lift (ln_details p.details)
    payment_info ← payment_info_of personal_note
    pure (record {
      payment_info = payment_info;
      network_fees = network_fees;
      recipient = from_ln_payment_details d domain;
      comment_for_recipient = d.lnurl_pay_comment;
    })
