-- ===== src/FiatTopup.antt =====
-- src/fiat_topup.rs: the topups that are offered, and the fee of a payout.
pub mod Offers
pub mod Setup
pub mod Collection
pub mod Uncompleted
mod Examples
use lipa_lightning_lib.Prelude.{
  ℕ, String, Bool, true, false, not, ◌&&◌, ◌||◌, Option, none, some, List, [], ◌∷◌, Result, ok, err,
  panic, invalid_input, permanent_failure, leb, str_eq, if◌then◌else◌, filter, filter_map, any,
  sub64, or_panic, or_err, map_option,
}
use lipa_lightning_lib.Prelude.Exec.{Exec, pure, lift, ensure, ◌>>=◌, ◌>>◌}
use lipa_lightning_lib.Config.{ExchangeRate}
use lipa_lightning_lib.Errors.{LibError}
use lipa_lightning_lib.Amount.{Amount, as_msats, to_amount_up, to_msats}
use lipa_lightning_lib.Offer.{Offer, OfferInfo, OfferStatus, TopupInfo}
use lipa_lightning_lib.Payment.{PaymentInfo, PaymentState}
use lipa_lightning_lib.Activity.{
  Activity, incoming_payment, outgoing_payment, offer_claim, swap, reverse_swap, channel_close,
  get_payment_info,
}
use lipa_lightning_lib.Support.{Support, Lib, amount_or_panic, get_exchange_rate}

pocket_id : Activity → Option String
pocket_id (offer_claim i offer) = some offer.id
pocket_id (incoming_payment i) = none
pocket_id (outgoing_payment o) = none
pocket_id (swap i s) = none
pocket_id (reverse_swap o r) = none
pocket_id (channel_close c) = none

is_succeeded_state : PaymentState → Bool
is_succeeded_state PaymentState.succeeded = true
is_succeeded_state PaymentState.created = false
is_succeeded_state PaymentState.failed = false
is_succeeded_state PaymentState.retried = false
is_succeeded_state PaymentState.invoice_expired = false

is_succeeded : Activity → Bool
unfolding is_succeeded_state
is_succeeded a = elim (get_payment_info a) [
  | none ↦ false
  | some p ↦ is_succeeded_state p.payment_state
]

-- the ids of offers that a succeeded payment claimed
unfoldable pub claimed_ids : List Activity → List String
unfolding pocket_id is_succeeded
claimed_ids activities = filter_map pocket_id (filter is_succeeded activities)

unfoldable pub filter_out_recently_claimed_topups : List TopupInfo → List Activity → List TopupInfo
unfolding claimed_ids
filter_out_recently_claimed_topups topups latest_activities =
    filter (λ (o : TopupInfo). not (any (λ id. str_eq id o.id) (claimed_ids latest_activities)))
      topups

is_completed : OfferStatus → Bool
is_completed OfferStatus.ready = false
is_completed OfferStatus.failed = false
is_completed OfferStatus.refunded = true
is_completed OfferStatus.settled = true

-- `max_withdrawable` of the LNURL-withdraw data that the SDK's `parse` finds, `none` where it finds
-- none, is a parameter.
unfoldable pub calculate_payout_fee : (String → Option ℕ) → Support → OfferInfo → Lib Amount
unfolding is_completed
calculate_payout_fee max_withdrawable_of sup offer = do
  ensure (not (is_completed offer.status)) invalid_input
  lnurlw ← lift (or_err offer.lnurlw permanent_failure)
  max_withdrawable ← lift (or_err (max_withdrawable_of lnurlw) permanent_failure)
  ensure (leb max_withdrawable (to_msats offer.amount)) permanent_failure
  amount_or_panic (
      to_amount_up (as_msats (sub64 (to_msats offer.amount) max_withdrawable))
        (get_exchange_rate sup))
