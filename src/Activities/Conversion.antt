-- ===== src/Activities/Conversion.antt =====
-- src/activities.rs: the activities of the SDK's payments. The subtractions wrap around, as in a
-- release build.
pub mod Hashes
mod Examples
use lipa_lightning_lib.Prelude.{
  ℕ, String, Bool, true, false, Option, none, some, Result, ok, err, or_err, or_panic,
  invalid_input, permanent_failure, ltb, if◌then◌else◌, sub64, or_else,
}
use lipa_lightning_lib.Prelude.Exec.{Exec, pure, fail, lift, ◌>>=◌}
use lipa_lightning_lib.Config.{ExchangeRate, TzConfig, UserPreferences, with_timezone}
use lipa_lightning_lib.Errors.{LibError}
use lipa_lightning_lib.Amount.{
  Amount, Msats, as_sats, as_msats, to_amount_up, to_amount_down, sats_to_amount_up,
  sats_to_amount_down,
}
use lipa_lightning_lib.Offer.{Offer}
use lipa_lightning_lib.Payment.{
  PaymentState, PaymentStatus, InvoiceDetails, from_ln_invoice, IncomingPaymentInfo,
}
use lipa_lightning_lib.Payment.Conversion.{
  Parsers, incoming_payment_info_of, outgoing_payment_info_of,
}
use lipa_lightning_lib.Activity.{
  ChannelCloseState, Activity, incoming_payment, outgoing_payment, offer_claim, swap, reverse_swap,
  channel_close,
}
use lipa_lightning_lib.SdkPayment.{
  SdkPayment, PaymentType, sent, received, closed_channel, PaymentDetails, ln, closed,
  LnPaymentDetails, PaymentSwapInfo, PaymentReverseSwapInfo,
}
use lipa_lightning_lib.DataStore.{
  LocalPaymentData, CreatedInvoice, retrieve_payment_info, retrieve_created_invoice_by_hash,
}
use lipa_lightning_lib.Sdk.{Call, ask, on_store}
use lipa_lightning_lib.Support.{Support, Lib, amount_or_panic, node_unavailable, get_exchange_rate}

unfoldable pub timezone_of : Support → Option UserPreferences → TzConfig
timezone_of sup none = sup.user_preferences.timezone_config
timezone_of sup (some preferences) = preferences.timezone_config

-- the `match` on the local data, of which a payment may have none
unfoldable pub local_data_or_default : Support → Option LocalPaymentData → LocalPaymentData
local_data_or_default sup (some d) = record d {
  exchange_rate = or_else d.exchange_rate (get_exchange_rate sup);
}
local_data_or_default sup none = record {
  user_preferences = none;
  exchange_rate = get_exchange_rate sup;
  offer = none;
  personal_note = none;
  received_on = none;
  received_lnurl_comment = none;
}

-- `fill_payout_fee` of src/lib.rs
unfoldable pub fill_payout_fee : Offer → Msats → Option ExchangeRate → Lib Offer
fill_payout_fee offer requested_amount rate = elim offer.topup_value_sats [
  | none ↦ pure (record offer { lightning_payout_fee = none })
  | some v ↦ (do
    fee ←
        amount_or_panic
          (to_amount_up (as_msats (sub64 (as_sats v).msats requested_amount.msats)) rate)
    pure (record offer { lightning_payout_fee = some fee }))
]

module _ (parsers : Parsers) (sup : Support) (p : SdkPayment) where
  -- `IncomingPaymentInfo::new`, with the local data
  abbrev pub incoming_of : LocalPaymentData → Lib IncomingPaymentInfo
  incoming_of d =
      incoming_payment_info_of parsers p d.exchange_rate (timezone_of sup d.user_preferences)
        d.personal_note d.received_on d.received_lnurl_comment sup.lipa_lightning_domain

  unfoldable pub claim_activity : LocalPaymentData → Offer → Lib Activity
  unfolding fill_payout_fee
  claim_activity d offer = do
    info ← incoming_of d
    filled ← fill_payout_fee offer (as_msats info.requested_amount.sats) d.exchange_rate
    pure (offer_claim info filled)

  unfoldable pub swap_activity : LocalPaymentData → PaymentSwapInfo → Lib Activity
  swap_activity d s = do
    paid_amount ← amount_or_panic (to_amount_down (as_msats s.paid_msat) d.exchange_rate)
    info ← incoming_of d
    pure (
        swap (some info) (record {
          bitcoin_address = s.bitcoin_address;
          created_at = with_timezone s.created_at (timezone_of sup d.user_preferences);
          paid_amount = paid_amount;
        }))

  unfoldable pub reverse_swap_activity : LocalPaymentData → PaymentReverseSwapInfo → Lib Activity
  reverse_swap_activity d s = do
    paid ← amount_or_panic (sats_to_amount_up (as_sats s.onchain_amount_sat) d.exchange_rate)
    fees ← amount_or_panic (
        to_amount_up (as_msats (sub64 p.amount_msat (as_sats s.onchain_amount_sat).msats))
          d.exchange_rate)
    info ←
        outgoing_payment_info_of parsers p d.exchange_rate (timezone_of sup d.user_preferences)
          d.personal_note sup.lipa_lightning_domain
    pure (
        reverse_swap info (record {
          paid_onchain_amount = paid;
          swap_fees_amount = fees;
          claim_txid = s.claim_txid;
          status = s.status;
        }))

  unfoldable pub plain_activity : LocalPaymentData → PaymentType → Lib Activity
  plain_activity d received = do info ← incoming_of d; pure (incoming_payment info)
  plain_activity d sent = do
    info ←
        outgoing_payment_info_of parsers p d.exchange_rate (timezone_of sup d.user_preferences)
          d.personal_note sup.lipa_lightning_domain
    pure (outgoing_payment info)
  plain_activity d closed_channel = fail permanent_failure

  -- the chain of `if` in `activity_from_breez_ln_payment`
  unfoldable pub ln_activity :
      LocalPaymentData
      → Option Offer
      → Option PaymentSwapInfo
      → Option PaymentReverseSwapInfo
      → Lib Activity
  unfolding claim_activity swap_activity reverse_swap_activity plain_activity
  ln_activity d (some offer) s r = claim_activity d offer
  ln_activity d none (some s) r = swap_activity d s
  ln_activity d none none (some r) = reverse_swap_activity d r
  ln_activity d none none none = plain_activity d p.payment_type

  unfoldable pub activity_from_breez_ln_payment : LnPaymentDetails → Lib Activity
  unfolding ln_activity local_data_or_default
  activity_from_breez_ln_payment details = do
    found ← on_store (retrieve_payment_info details.payment_hash)
    let d = local_data_or_default sup found
    ln_activity d d.offer details.swap_info details.reverse_swap_info

  unfoldable pub close_activity : Amount → Option String → PaymentStatus → Lib Activity
  close_activity amount txid PaymentStatus.pending = pure (
      channel_close (record {
        amount = amount;
        state = ChannelCloseState.pending;
        closed_at = none;
        closing_tx_id = elim txid [ none ↦ "" | some id ↦ id ];
      }))
  close_activity amount txid PaymentStatus.complete = pure (
      channel_close (record {
        amount = amount;
        state = ChannelCloseState.confirmed;
        closed_at = some (with_timezone p.payment_time sup.user_preferences.timezone_config);
        closing_tx_id = elim txid [ none ↦ "" | some id ↦ id ];
      }))
  close_activity amount txid PaymentStatus.failed = fail permanent_failure

  unfoldable pub activity_from_breez_closed_channel_payment : Option String → Lib Activity
  unfolding close_activity
  activity_from_breez_closed_channel_payment txid = do
    amount ← amount_or_panic (to_amount_up (as_msats p.amount_msat) (get_exchange_rate sup))
    close_activity amount txid p.status

  unfoldable pub activity_of_details : PaymentDetails → Lib Activity
  unfolding activity_from_breez_ln_payment activity_from_breez_closed_channel_payment
  activity_of_details (ln details) = activity_from_breez_ln_payment details
  activity_of_details (closed txid) = activity_from_breez_closed_channel_payment txid

  unfoldable pub activity_from_breez_payment : Lib Activity
  unfolding activity_of_details
  activity_from_breez_payment = activity_of_details p.details
