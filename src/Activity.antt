-- ===== src/Activity.antt =====
-- src/activity.rs, and the swap infos of src/swap.rs and src/reverse_swap.rs.
use lipa_lightning_lib.Prelude.{ℕ, String, Bool, true, false, Option, none, some}
use lipa_lightning_lib.Config.{TzTime}
use lipa_lightning_lib.Amount.{Amount}
use lipa_lightning_lib.Offer.{Offer}
use lipa_lightning_lib.Payment.{
  PaymentInfo, IncomingPaymentInfo, OutgoingPaymentInfo, is_pending_state,
}

pub data ChannelCloseState : Type 0 where
  pending confirmed : ChannelCloseState

pub record ChannelCloseInfo : Type 0 where
  pub amount : Amount
  pub state : ChannelCloseState
  pub closed_at : Option TzTime
  pub closing_tx_id : String

-- of src/swap.rs
pub record SwapInfo : Type 0 where
  pub bitcoin_address : String
  pub created_at : TzTime
  pub paid_amount : Amount

-- the SDK's `ReverseSwapStatus`
pub data ReverseSwapStatus : Type 0 where
  initial in_progress cancelled completed_seen completed_confirmed : ReverseSwapStatus

pub record ReverseSwapInfo : Type 0 where
  pub paid_onchain_amount : Amount
  pub swap_fees_amount : Amount
  pub claim_txid : Option String
  pub status : ReverseSwapStatus

pub data Activity : Type 0 where
  incoming_payment : IncomingPaymentInfo → Activity
  outgoing_payment : OutgoingPaymentInfo → Activity
  offer_claim : IncomingPaymentInfo → Offer → Activity
  swap : Option IncomingPaymentInfo → SwapInfo → Activity
  reverse_swap : OutgoingPaymentInfo → ReverseSwapInfo → Activity
  channel_close : ChannelCloseInfo → Activity

unfoldable pub get_payment_info : Activity → Option PaymentInfo
get_payment_info (incoming_payment i) = some i.payment_info
get_payment_info (outgoing_payment o) = some o.payment_info
get_payment_info (offer_claim i offer) = some i.payment_info
get_payment_info (swap none s) = none
get_payment_info (swap (some i) s) = some i.payment_info
get_payment_info (reverse_swap o r) = some o.payment_info
get_payment_info (channel_close c) = none

closing_time : ℕ → Option TzTime → ℕ
closing_time now none = now
closing_time now (some t) = t.time

-- `SystemTime::now()` is an argument
unfoldable pub get_time : ℕ → Activity → ℕ
unfolding closing_time
get_time now (incoming_payment i) = i.payment_info.created_at.time
get_time now (outgoing_payment o) = o.payment_info.created_at.time
get_time now (offer_claim i offer) = i.payment_info.created_at.time
get_time now (swap none s) = s.created_at.time
get_time now (swap (some i) s) = i.payment_info.created_at.time
get_time now (reverse_swap o r) = o.payment_info.created_at.time
get_time now (channel_close c) = closing_time now c.closed_at

is_pending_status : ReverseSwapStatus → Bool
is_pending_status initial = true
is_pending_status in_progress = true
is_pending_status cancelled = false
is_pending_status completed_seen = false
is_pending_status completed_confirmed = false

is_pending_close : ChannelCloseState → Bool
is_pending_close pending = true
is_pending_close confirmed = false

unfoldable pub is_pending : Activity → Bool
unfolding is_pending_status is_pending_close
is_pending (incoming_payment i) = is_pending_state i.payment_info.payment_state
is_pending (outgoing_payment o) = is_pending_state o.payment_info.payment_state
is_pending (offer_claim i offer) = is_pending_state i.payment_info.payment_state
is_pending (swap none s) = true
is_pending (swap (some i) s) = is_pending_state i.payment_info.payment_state
is_pending (reverse_swap o r) = is_pending_status r.status
is_pending (channel_close c) = is_pending_close c.state
