-- ===== src/Notifications.antt =====
-- src/notification_handling.rs: what is done on a notification that wakes the library up. The text
-- of a payload is parsed by a library. A service that cannot be reached, a store that cannot be
-- opened and an SDK that does not start are answers.
pub mod Waiting
pub mod LnurlPay
pub mod Payments
pub mod Ending
pub mod Invoices
mod Examples
use lipa_lightning_lib.Prelude.{
  ℕ, ◌/◌, String, Bool, Option, none, some, Result, ok, or_err, runtime_error, invalid_input,
  permanent_failure, str_eq, map_option, or_err,
}
use lipa_lightning_lib.Prelude.Exec.{pure, fail, lift, ensure, map_err_of, ◌>>=◌, ◌>>◌}
use lipa_lightning_lib.Config.{UserPreferences}
use lipa_lightning_lib.Errors.{NotificationHandlingErrorCode, to_notification_error, LibError}
use lipa_lightning_lib.DataStore.Settings.{
  retrieve_analytics_config, retrieve_last_set_fiat_currency,
}
use lipa_lightning_lib.SdkPayment.{SdkPayment}
use lipa_lightning_lib.Sdk.{Sdk, SdkSwapInfo, Call, ask, on_store}
use lipa_lightning_lib.Support.{request}
use lipa_lightning_lib.Notifications.Waiting.{
  NotificationError, Handling, unavailable, wait_for_payment,
}
use lipa_lightning_lib.Notifications.LnurlPay.{
  Node, LnurlPayRequestData, Notification, bolt11_payment_received, onchain_payment_swapped_in,
  onchain_payment_swapped_out, strong_type_seed, open_data_store,
  handle_lnurl_pay_request_notification,
}

pub record NotificationToggles : Type 0 where
  pub payment_received_is_enabled : Bool
  pub address_txs_confirmed_is_enabled : Bool
  pub lnurl_pay_request_is_enabled : Bool

pub data Payload : Type 0 where
  payment_received address_txs_confirmed : String → Payload
  lnurl_pay_request : LnurlPayRequestData → Payload

unfoldable pub is_enabled : NotificationToggles → Payload → Bool
is_enabled toggles (payment_received hash) = toggles.payment_received_is_enabled
is_enabled toggles (address_txs_confirmed address) = toggles.address_txs_confirmed_is_enabled
is_enabled toggles (lnurl_pay_request data_) = toggles.lnurl_pay_request_is_enabled

-- what is told of a payment, `none` where the loop ran out of fuel
unfoldable pub told : (ℕ → String → Notification) → String → Option SdkPayment → Option Notification
told notification hash payment =
    map_option (λ (p : SdkPayment). notification (p.amount_msat / 1000) hash) payment

-- `now` is the time of the system; the loops of `wait_for_payment` have the fuel `fuel` and `turns`
module _ (node : Node) (now fuel turns timeout_instant : ℕ) where
  -- what it checks before the SDK starts; the reports of analytics are left out
  unfoldable pub build_analytics_interceptor : Handling (Unit {0})
  unfolding open_data_store
  build_analytics_interceptor = do
    open_data_store node
    currency ← map_err_of to_notification_error (on_store retrieve_last_set_fiat_currency)
    _ ← lift (or_err currency permanent_failure)
    strong_type_seed node
    map_err_of to_notification_error
        (ask Call.authenticate node.services.answer_authenticate >>= lift)
    _ ← map_err_of to_notification_error (on_store retrieve_analytics_config)
    pure tt

  unfoldable pub handle_payment_received_notification : String → Handling (Option Notification)
  unfolding told
  handle_payment_received_notification payment_hash = do
    payment ← wait_for_payment node.sdk fuel turns payment_hash timeout_instant
    pure (told bolt11_payment_received payment_hash payment)

  unfoldable pub handle_swap_notification : String → SdkSwapInfo → Handling (Option Notification)
  unfolding told
  handle_swap_notification address in_progress_swap = do
    ensure (str_eq in_progress_swap.bitcoin_address address)
        (runtime_error NotificationHandlingErrorCode.in_progress_swap_not_found)
    request (Call.redeem_swap address) node.sdk.answer_redeem_swap unavailable
    payment ← wait_for_payment node.sdk fuel turns in_progress_swap.payment_hash timeout_instant
    pure (told onchain_payment_swapped_in in_progress_swap.payment_hash payment)

  unfoldable pub handle_reverse_swap_notification : String → Handling (Option Notification)
  handle_reverse_swap_notification address = do
    request (Call.claim_reverse_swap address) node.sdk.answer_claim_reverse_swap unavailable
    pure (some onchain_payment_swapped_out)

  unfoldable pub swap_or_reverse_swap : String → Option SdkSwapInfo → Handling (Option Notification)
  unfolding handle_swap_notification handle_reverse_swap_notification
  swap_or_reverse_swap address (some swap) = handle_swap_notification address swap
  swap_or_reverse_swap address none = handle_reverse_swap_notification address

  unfoldable pub handle_address_txs_confirmed_notification : String → Handling (Option Notification)
  unfolding swap_or_reverse_swap
  handle_address_txs_confirmed_notification address = do
    answer ← ask Call.in_progress_swap node.sdk.answer_in_progress_swap
    swap ← lift (or_err answer unavailable)
    swap_or_reverse_swap address swap

  unfoldable pub handle_payload : Payload → Handling (Option Notification)
  unfolding handle_payment_received_notification handle_address_txs_confirmed_notification
  handle_payload (payment_received payment_hash) = handle_payment_received_notification payment_hash
  handle_payload (address_txs_confirmed address) = handle_address_txs_confirmed_notification address
  handle_payload (lnurl_pay_request data_) = do
    notification ← handle_lnurl_pay_request_notification node now data_
    pure (some notification)

  unfoldable pub handle_notification :
      Option Payload → NotificationToggles → Handling (Option Notification)
  unfolding is_enabled build_analytics_interceptor handle_payload
  handle_notification parsed toggles = do
    payload ← lift (or_err parsed invalid_input)
    ensure (is_enabled toggles payload)
        (runtime_error NotificationHandlingErrorCode.notification_disabled_in_notification_toggles)
    build_analytics_interceptor
    map_err_of to_notification_error (ask Call.start_sdk node.sdk.answer_start_sdk >>= lift)
    handle_payload payload
