-- ===== src/SdkPayment.antt =====
-- The payments, the events and the LNURL data of the Breez SDK, with the fields that the source
-- reads. Times are seconds after the Unix epoch.
use lipa_lightning_lib.Prelude.{ℕ, String, Option}
use lipa_lightning_lib.Activity.{ReverseSwapStatus}
use lipa_lightning_lib.Payment.{LnInvoice, PaymentStatus}

pub data PaymentType : Type 0 where
  sent received closed_channel : PaymentType

-- the fields of the SDK's `SwapInfo` and `ReverseSwapInfo` that are read of a payment
pub record PaymentSwapInfo : Type 0 where
  pub bitcoin_address : String
  pub created_at : ℕ
  pub paid_msat : ℕ  -- u64

pub record PaymentReverseSwapInfo : Type 0 where
  pub id : String
  pub onchain_amount_sat : ℕ  -- u64
  pub claim_txid : Option String
  pub status : ReverseSwapStatus

pub record LnPaymentDetails : Type 0 where
  pub payment_hash : String
  pub payment_preimage : String
  pub bolt11 : String
  pub lnurl_metadata : Option String
  pub ln_address : Option String
  pub lnurl_pay_domain : Option String
  pub lnurl_pay_comment : Option String
  pub swap_info : Option PaymentSwapInfo
  pub reverse_swap_info : Option PaymentReverseSwapInfo

pub data PaymentDetails : Type 0 where
  ln : LnPaymentDetails → PaymentDetails
  -- with the id of the closing transaction
  closed : Option String → PaymentDetails

-- the SDK's `Payment`
pub record SdkPayment : Type 0 where
  pub id : String
  pub payment_type : PaymentType
  pub payment_time : ℕ
  pub amount_msat : ℕ  -- u64
  pub fee_msat : ℕ  -- u64
  pub status : PaymentStatus
  pub details : PaymentDetails

pub data SwapStatus : Type 0 where
  initial waiting_confirmation redeemable redeemed refundable completed : SwapStatus

-- the SDK's `BreezEvent`
pub data BreezEvent : Type 0 where
  new_block synced backup_started backup_succeeded backup_failed : BreezEvent
  -- the payment hash, and the payment
  invoice_paid : String → Option SdkPayment → BreezEvent
  payment_succeed : SdkPayment → BreezEvent
  payment_failed : Option LnInvoice → BreezEvent
  swap_updated : SwapStatus → String → BreezEvent
  reverse_swap_updated : ReverseSwapStatus → String → BreezEvent

-- what `recv_timeout` answers
pub data Received : Type 0 where
  event : BreezEvent → Received
  timeout disconnected : Received

pub record LnUrlPayRequestData : Type 0 where
  pub callback : String
  pub domain : String
  pub metadata_str : String
  pub min_sendable : ℕ
  pub max_sendable : ℕ
  pub comment_allowed : ℕ  -- u16

pub record LnUrlWithdrawRequestData : Type 0 where
  pub callback : String
  pub min_withdrawable : ℕ
  pub max_withdrawable : ℕ

-- the id of the payment, or the payment hash of one that failed
pub data LnUrlPayResult : Type 0 where
  endpoint_success : String → LnUrlPayResult
  endpoint_error : LnUrlPayResult
  pay_error : String → LnUrlPayResult

pub data LnUrlWithdrawResult : Type 0 where
  succeeded timed_out : LnInvoice → LnUrlWithdrawResult
  error_status : LnUrlWithdrawResult
