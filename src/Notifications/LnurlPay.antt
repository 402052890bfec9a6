-- ===== src/Notifications/LnurlPay.antt =====
-- src/notification_handling.rs: the request for an invoice to one of the user's lightning addresses.
use lipa_lightning_lib.Prelude.{
  ℕ, zero, String, Bool, true, false, Option, none, some, List, Result, ok, err, panic, or_err,
  runtime_error, permanent_failure, invalid_input, str_eq, find, ltb, is_some, ◌==◌,
  map_runtime_error_to, map_err, length,
}
use lipa_lightning_lib.Prelude.Exec.{pure, fail, lift, ensure, map_err_of, ◌>>=◌, ◌>>◌}
use lipa_lightning_lib.Config.{TzConfig}
use lipa_lightning_lib.Errors.{NotificationHandlingErrorCode, to_notification_error, LibError}
use lipa_lightning_lib.Amount.{as_msats, sats_round_down}
use lipa_lightning_lib.Db.Connection.{DataStore}
use lipa_lightning_lib.DataStore.{store_payment_info}
use lipa_lightning_lib.DataStore.Addresses.{
  EnableStatus, enabled, feature_disabled, retrieve_lightning_addresses,
}
use lipa_lightning_lib.DataStore.Settings.{retrieve_last_set_fiat_currency}
use lipa_lightning_lib.Sdk.{Sdk, Services, Call, ask, on_store}
use lipa_lightning_lib.Webhook.{WebhookConfig, register_webhook_url}
use lipa_lightning_lib.Notifications.Waiting.{NotificationError, Handling, unavailable}

-- `LightningNodeConfig`, with the services that it leads to
pub record Node : Type 0 where
  pub sdk : Sdk
  pub services : Services
  pub webhook : WebhookConfig
  pub seed : List ℕ
  pub timezone_config : TzConfig
  -- whether `DataStore::new` opens the store
  pub opened : Result LibError (Unit {0})

pub record LnurlPayRequestData : Type 0 where
  pub amount_msat : ℕ  -- u64
  pub recipient : String
  pub payer_comment : Option String
  pub id : String

-- with the amount in sats and the payment hash
pub data Notification : Type 0 where
  bolt11_payment_received onchain_payment_swapped_in : ℕ → String → Notification
  onchain_payment_swapped_out : Notification
  lnurl_invoice_created : ℕ → Notification

abbrev pub lipa_unavailable : NotificationError
lipa_unavailable = runtime_error NotificationHandlingErrorCode.lipa_service_unavailable

abbrev pub insufficient_inbound_liquidity : NotificationError
insufficient_inbound_liquidity =
    runtime_error NotificationHandlingErrorCode.insufficient_inbound_liquidity

-- `get_strong_typed_seed`
unfoldable pub strong_type_seed : Node → Handling (Unit {0})
strong_type_seed node = ensure (length node.seed == 64) invalid_input

unfoldable pub open_data_store : Node → Handling (Unit {0})
open_data_store node = map_err_of to_notification_error (lift node.opened)

-- `build_auth` and `build_async_auth`
unfoldable pub authenticate : Node → Handling (Unit {0})
authenticate node = ask Call.authenticate node.services.answer_authenticate >>= λ r.
    lift (map_err (λ _. lipa_unavailable) r)

unfoldable pub submit : Node → String → Option String → Handling (Unit {0})
submit node id invoice =
    ask (Call.submit_lnurl_pay_invoice id invoice) node.services.answer_submit_lnurl_pay_invoice
    >>= λ r.
        lift
          (map_err (map_runtime_error_to NotificationHandlingErrorCode.lipa_service_unavailable) r)

unfoldable pub report_insufficient_inbound_liquidity : Node → String → Handling (Unit {0})
unfolding authenticate submit
report_insufficient_inbound_liquidity node id = do authenticate node; submit node id none

-- the `match` on the row of the recipient
unfoldable pub ensure_enabled : Option (String × EnableStatus) → Handling (Unit {0})
ensure_enabled none = fail permanent_failure
ensure_enabled (some (_, feature_disabled)) = fail permanent_failure
ensure_enabled (some (_, enabled)) = pure tt

-- an inbound payment that needs a new channel is rejected
unfoldable pub reject_if : Node → String → Bool → Handling (Unit {0})
unfolding report_insufficient_inbound_liquidity
reject_if node id true = do
  report_insufficient_inbound_liquidity node id
  fail insufficient_inbound_liquidity
reject_if node id false = pure tt

unfoldable pub needs_channel : Option ℕ → Bool
needs_channel none = false
needs_channel (some fee_msat) = ltb zero fee_msat

-- `log_ignore_error`, of which a panic is none
unfoldable pub ignore_error :
    (DataStore → Result LibError (Unit {0}) × DataStore) → Handling (Unit {0})
ignore_error m =
    on_store λ s. let (r, s') = m s in (elim r [ ok _ ↦ ok tt | err _ ↦ ok tt | panic ↦ panic ], s')

module _ (node : Node) (now : ℕ) (data_ : LnurlPayRequestData) where
  -- the store has the payment's preferences and rates, and where it was received
  unfoldable pub store_lnurl_payment : String → Handling (Unit {0})
  unfolding ignore_error
  store_lnurl_payment payment_hash = do
    currency ← map_err_of to_notification_error (on_store retrieve_last_set_fiat_currency)
    fiat_currency ← lift (or_err currency permanent_failure)
    answer ← ask Call.query_all_exchange_rates node.services.answer_query_all_exchange_rates
    exchange_rates ← lift (or_err answer lipa_unavailable)
    ignore_error (
        store_payment_info now payment_hash
          (record { fiat_currency = fiat_currency; timezone_config = node.timezone_config })
          exchange_rates none (some data_.recipient) data_.payer_comment)

  unfoldable pub create_and_submit : Handling Notification
  unfolding reject_if store_lnurl_payment authenticate submit
  create_and_submit = do
    authenticate node
    map_err_of (map_runtime_error_to NotificationHandlingErrorCode.node_unavailable)
        (register_webhook_url node.sdk node.services node.webhook)
    answer ← ask (Call.receive_payment data_.amount_msat "" none) node.sdk.answer_receive_payment
    response ← lift (or_err answer unavailable)
    reject_if node data_.id (is_some response.opening_fee_msat)
    store_lnurl_payment response.ln_invoice.payment_hash
    authenticate node
    submit node data_.id (some response.ln_invoice.bolt11)
    pure (lnurl_invoice_created (sats_round_down (as_msats data_.amount_msat)).sats)

  unfoldable pub handle_lnurl_pay_request_notification : Handling Notification
  unfolding open_data_store ensure_enabled strong_type_seed reject_if needs_channel
      create_and_submit
  handle_lnurl_pay_request_notification = do
    answer ← ask (Call.open_channel_fee data_.amount_msat) node.sdk.answer_open_channel_fee
    fee_msat ← lift (or_err answer unavailable)
    open_data_store node
    addresses ← map_err_of to_notification_error (on_store retrieve_lightning_addresses)
    ensure_enabled (find (λ p. str_eq data_.recipient p.0) addresses)
    strong_type_seed node
    reject_if node data_.id (needs_channel fee_msat)
    create_and_submit
