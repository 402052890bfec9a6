-- ===== src/Sdk.antt =====
-- The Breez SDK and the other services that the library calls, none of which is part of the
-- repository. An answer may be anything: each is a function of the calls made so far, the newest
-- first, the one that is answered included. Types have the fields that the source reads.
pub mod Broadcasts
use lipa_lightning_lib.Prelude.{ℕ, String, Bool, Option, List, ◌∷◌, Result, ok}
use lipa_lightning_lib.Prelude.Exec.{Exec}
use lipa_lightning_lib.Config.{ExchangeRate}
use lipa_lightning_lib.Errors.{LibError, SendPaymentError, SdkLnUrlPayError, SdkLnUrlWithdrawError}
use lipa_lightning_lib.SdkPayment.{
  SdkPayment, PaymentType, Received, LnUrlPayRequestData, LnUrlWithdrawRequestData, LnUrlPayResult,
  LnUrlWithdrawResult,
}
use lipa_lightning_lib.Payment.{LnInvoice}
use lipa_lightning_lib.Offer.{TopupInfo}
use lipa_lightning_lib.Db.{FiatTopupSetupInfo}
use lipa_lightning_lib.Db.Connection.{DataStore}

pub record OpeningFeeParams : Type 0 where
  pub min_msat : ℕ  -- u64
  pub proportional : ℕ  -- u32

pub record UnspentTransactionOutput : Type 0 where
  pub amount_millisatoshi : ℕ

pub record NodeState : Type 0 where
  pub id : String
  pub connected_peers : List String
  pub onchain_balance_msat : ℕ
  pub channels_balance_msat : ℕ
  pub max_payable_msat : ℕ
  pub max_receivable_single_payment_amount_msat : ℕ
  pub total_inbound_liquidity_msats : ℕ
  pub utxos : List UnspentTransactionOutput

-- the SDK's `SwapInfo`
pub record SdkSwapInfo : Type 0 where
  pub bitcoin_address : String
  pub created_at : ℕ
  pub confirmed_sats : ℕ  -- u64
  pub unconfirmed_sats : ℕ
  pub refund_tx_ids : List String
  pub min_allowed_deposit : ℕ  -- i64, not negative
  pub max_allowed_deposit : ℕ
  pub payment_hash : String

pub record OnchainPaymentLimits : Type 0 where
  pub min_sat : ℕ
  pub max_sat : ℕ
  pub max_payable_sat : ℕ

pub record PrepareOnchainPaymentResponse : Type 0 where
  pub fees_claim : ℕ
  pub fees_lockup : ℕ
  pub total_fees : ℕ
  pub sender_amount_sat : ℕ

pub record ReceivePaymentResponse : Type 0 where
  pub ln_invoice : LnInvoice
  pub opening_fee_msat : Option ℕ

pub data RedeemOnchainError : Type 0 where
  generic insufficient_funds service_connectivity : RedeemOnchainError

pub data ReceiveOnchainError : Type 0 where
  generic service_connectivity swap_in_progress : ReceiveOnchainError

-- Requests to the SDK and to the backend, the offer service and the clock.
pub data Call : Type 0 where
  node_info recommended_fees onchain_payment_limits list_refundables : Call
  receive_onchain : Option OpeningFeeParams → Call
  -- from, to, sats per vbyte
  prepare_refund refund : String → String → ℕ → Call
  -- to, sats per vbyte
  prepare_redeem_onchain_funds redeem_onchain_funds : String → ℕ → Call
  prepare_onchain_payment : ℕ → ℕ → Call
  pay_onchain : String → PrepareOnchainPaymentResponse → Call
  -- msats, description, opening fee
  receive_payment : ℕ → String → Option OpeningFeeParams → Call
  -- invoice, msats
  send_payment : String → Option ℕ → Call
  report_payment_failure : String → Call
  -- with the amount in msats
  lnurl_pay : LnUrlPayRequestData → ℕ → Option String → Call
  lnurl_withdraw : LnUrlWithdrawRequestData → ℕ → Call
  in_progress_swap recv_event read_clock start_sdk get_wallet_pubkey_id : Call
  register_webhook : String → Call
  redeem_swap claim_reverse_swap payment_by_hash : String → Call
  open_channel_fee : ℕ → Call
  assign_lightning_address query_all_exchange_rates authenticate : Call
  enable_lightning_addresses disable_lightning_addresses : List String → Call
  -- the phone number, and its encryption or the code of the SMS
  request_phone_number_verification verify_phone_number : String → String → Call
  -- the token, the language and the country
  register_notification_token : String → String → String → Call
  -- the id of the request, and the invoice unless it is rejected
  submit_lnurl_pay_invoice : String → Option String → Call
  hide_topup : String → Call
  lsp_id list_lsps : Call
  connect_lsp : String → Call
  query_uncompleted_topups : Call
  -- the kinds of payments, whether failed ones are asked for, and how many
  list_payments : List PaymentType → Bool → Option ℕ → Call
  -- the public key, the provider, the IBAN, the currency, the email and the referral code
  start_topup_setup : String → String → String → String → Option String → Option String → Call
  sign_message : String → Call
  -- the id of the challenge, the signature and the IBAN
  complete_topup_setup : String → String → String → Call

-- What the services other than the SDK answer; `none` and `false` are errors.
pub record Services : Type 0 where
  pub answer_assign_lightning_address : List Call → Option String
  pub answer_enable_lightning_addresses : List Call → Bool
  pub answer_disable_lightning_addresses : List Call → Bool
  pub answer_request_phone_number_verification : List Call → Bool
  pub answer_verify_phone_number : List Call → Bool
  pub answer_register_notification_token : List Call → Bool
  pub answer_hide_topup : List Call → Result LibError (Unit {0})
  pub answer_query_uncompleted_topups : List Call → Option (List TopupInfo)
  -- the id of a challenge, and its text
  pub answer_start_topup_setup : List Call → Option (String × String)
  pub answer_complete_topup_setup : List Call → Option FiatTopupSetupInfo
  pub answer_query_all_exchange_rates : List Call → Option (List ExchangeRate)
  pub answer_authenticate : List Call → Result LibError (Unit {0})
  pub answer_get_wallet_pubkey_id : List Call → Option String
  pub answer_submit_lnurl_pay_invoice : List Call → Result LibError (Unit {0})

-- What the SDK answers; `none` is an error whose text is not used.
pub record Sdk : Type 0 where
  pub answer_node_info : List Call → Option NodeState
  -- the error that `?` makes of a failed `node_info`, by the SDK's `From<SdkError>`
  pub node_info_error : List Call → RedeemOnchainError
  pub answer_recommended_half_hour_fee : List Call → Option ℕ
  pub answer_onchain_payment_limits : List Call → Option OnchainPaymentLimits
  pub answer_list_refundables : List Call → Option (List SdkSwapInfo)
  pub answer_receive_onchain : List Call → Result ReceiveOnchainError SdkSwapInfo
  pub answer_prepare_refund : List Call → Option ℕ
  pub answer_refund : List Call → Option String
  pub answer_prepare_redeem_onchain_funds : List Call → Result RedeemOnchainError ℕ
  pub answer_redeem_onchain_funds : List Call → Result RedeemOnchainError String
  pub answer_prepare_onchain_payment : List Call → Option PrepareOnchainPaymentResponse
  pub answer_pay_onchain : List Call → Bool
  pub answer_receive_payment : List Call → Option ReceivePaymentResponse
  -- the error of a payment that failed
  pub answer_send_payment : List Call → Option SendPaymentError
  pub answer_lnurl_pay : List Call → Result SdkLnUrlPayError LnUrlPayResult
  pub answer_lnurl_withdraw : List Call → Result SdkLnUrlWithdrawError LnUrlWithdrawResult
  pub answer_in_progress_swap : List Call → Option (Option SdkSwapInfo)
  pub answer_redeem_swap : List Call → Bool
  pub answer_claim_reverse_swap : List Call → Bool
  pub answer_payment_by_hash : List Call → Option (Option SdkPayment)
  -- the fee for a new channel, if one is needed
  pub answer_open_channel_fee : List Call → Option (Option ℕ)
  -- the next event of the SDK
  pub answer_recv_event : List Call → Received
  pub answer_list_payments : List Call → Option (List SdkPayment)
  pub answer_sign_message : List Call → Option String
  -- the system's clock, in seconds
  pub answer_clock : List Call → ℕ
  -- the connection of the SDK to its node
  pub answer_start_sdk : List Call → Result LibError (Unit {0})
  pub answer_register_webhook : List Call → Bool
  -- the provider that the node is connected to, and those that there are
  pub answer_lsp_id : List Call → Option (Option String)
  pub answer_list_lsps : List Call → Option (List String)
  pub answer_connect_lsp : List Call → Bool

-- What a call of the library changes: the calls that it has made, and its data store.
pub record World : Type 0 where
  pub calls : List Call
  pub store : DataStore

-- One call, and its answer.
unfoldable pub ask {ℓ} : {E : Type ℓ} {A : Type 0} → Call → (List Call → A) → Exec World E A
ask c answer w = (ok (answer (c ∷ w.calls)), record w { calls = c ∷ w.calls })

-- an operation on the data store
unfoldable pub on_store {ℓ} :
    {E : Type ℓ} {A : Type 0} → (DataStore → Result E A × DataStore) → Exec World E A
on_store m w = ((m w.store).0, record w { store = (m w.store).1 })
