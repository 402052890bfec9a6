-- ===== src/Support.antt =====
-- src/support.rs: what the components share. The caches of the task manager and the preferences are
-- read as they are when an operation begins: no background task writes them while it runs.
pub mod LspFee
pub mod Gives
pub mod FeeOf
mod Examples
use lipa_lightning_lib.Prelude.{
  ℕ, ◌*◌, ◌/◌, String, Bool, Result, Option, none, some, List, or_err, or_panic, runtime_error,
  str_eq, find, ltb, if◌then◌else◌, mul64, max, ok, err, panic, err, ◌%◌,
}
use lipa_lightning_lib.Prelude.Exec.{Exec, pure, fail, lift, ensure, ◌>>=◌}
use lipa_lightning_lib.Config.{ExchangeRate, TzConfig, UserPreferences, MaxRoutingFeeConfig}
use lipa_lightning_lib.Errors.{RuntimeErrorCode, LibError}
use lipa_lightning_lib.Amount.{Amount, Msats, as_msats, to_amount_up, to_amount_down}
use lipa_lightning_lib.Offer.{Offer}
use lipa_lightning_lib.Db.Connection.{DataStore}
use lipa_lightning_lib.DataStore.{store_payment_info}
use lipa_lightning_lib.Sdk.{
  OpeningFeeParams, UnspentTransactionOutput, NodeState, Sdk, Services, World, Call, ask,
}

pub record Support : Type 0 where
  pub sdk : Sdk
  pub services : Services
  pub user_preferences : UserPreferences
  pub exchange_rates : List ExchangeRate
  pub cheaper_lsp_fee : Option OpeningFeeParams
  pub longer_valid_lsp_fee : Option OpeningFeeParams
  pub max_routing_fee_config : MaxRoutingFeeConfig
  pub lipa_lightning_domain : String
  pub allowed_countries_country_iso_3166_1_alpha_2 : List String

abbrev pub Lib : Type 0 → Type 0
Lib A = Exec World LibError A

-- A conversion that panics where the rate is 0.
abbrev pub amount_or_panic {ℓ} : {E : Type ℓ} → Option Amount → Exec World E Amount
amount_or_panic a = lift (or_panic a)

abbrev pub node_unavailable : LibError
node_unavailable = runtime_error RuntimeErrorCode.node_unavailable

abbrev pub auth_service_unavailable : LibError
auth_service_unavailable = runtime_error RuntimeErrorCode.auth_service_unavailable

-- a request that may fail, `false` for an error
unfoldable pub request {ℓ} : {E : Type ℓ} → Call → (List Call → Bool) → E → Exec World E (Unit {0})
request c answer e = ask c answer >>= λ done. ensure done e

abbrev pub lsp_service_unavailable : LibError
lsp_service_unavailable = runtime_error RuntimeErrorCode.lsp_service_unavailable

unfoldable pub get_exchange_rate : Support → Option ExchangeRate
get_exchange_rate sup =
    find (λ r. str_eq r.currency_code sup.user_preferences.fiat_currency) sup.exchange_rates

pub record ChannelsInfo : Type 0 where
  pub local_balance : Amount
  pub max_receivable_single_payment : Amount
  pub total_inbound_capacity : Amount
  pub outbound_capacity : Amount

pub record NodeInfo : Type 0 where
  pub node_pubkey : String
  pub peers : List String
  pub onchain_balance : Amount
  pub channels_info : ChannelsInfo

-- `sdk.node_info()`, its error mapped to NodeUnavailable
unfoldable pub node_state : Support → Lib NodeState
node_state sup = do
  answer ← ask Call.node_info sup.sdk.answer_node_info
  lift (or_err answer node_unavailable)

unfoldable pub get_node_info : Support → Lib NodeInfo
unfolding node_state
get_node_info sup = do
  state ← node_state sup
  let rate = get_exchange_rate sup
  onchain ← amount_or_panic (to_amount_down (as_msats state.onchain_balance_msat) rate)
  local ← amount_or_panic (to_amount_down (as_msats state.channels_balance_msat) rate)
  receivable ←
      amount_or_panic
        (to_amount_down (as_msats state.max_receivable_single_payment_amount_msat) rate)
  inbound ← amount_or_panic (to_amount_down (as_msats state.total_inbound_liquidity_msats) rate)
  outbound ← amount_or_panic (to_amount_down (as_msats state.max_payable_msat) rate)
  pure (record {
    node_pubkey = state.id;
    peers = state.connected_peers;
    onchain_balance = onchain;
    channels_info = record {
      local_balance = local;
      max_receivable_single_payment = receivable;
      total_inbound_capacity = inbound;
      outbound_capacity = outbound;
    };
  })

unfoldable pub get_node_utxos : Support → Lib (List UnspentTransactionOutput)
unfolding node_state
get_node_utxos sup = do state ← node_state sup; pure state.utxos

pub record CalculateLspFeeResponse : Type 0 where
  pub lsp_fee : Amount
  pub lsp_fee_params : OpeningFeeParams

-- the fee in msats, given the most that can be received without a new channel
unfoldable pub lsp_fee_msat : ℕ → ℕ → OpeningFeeParams → ℕ
lsp_fee_msat amount_sat max_receivable params =
    if ltb max_receivable amount_sat
    then max (mul64 (mul64 amount_sat params.proportional / 1000000) 1000) params.min_msat
    else 0

unfoldable pub calculate_lsp_fee_for_amount :
    Support → ℕ → OpeningFeeParams → Lib CalculateLspFeeResponse
unfolding lsp_fee_msat
calculate_lsp_fee_for_amount sup amount_sat params = do
  info ← get_node_info sup
  fee ← amount_or_panic (
      to_amount_up
        (as_msats
          (lsp_fee_msat amount_sat info.channels_info.max_receivable_single_payment.sats params))
        (get_exchange_rate sup))
  pure (record { lsp_fee = fee; lsp_fee_params = params })

unfoldable pub query_onchain_fee_rate : Support → Lib ℕ
query_onchain_fee_rate sup = do
  answer ← ask Call.recommended_fees sup.sdk.answer_recommended_half_hour_fee
  fee ← lift (or_err answer node_unavailable)
  pure (fee % 4294967296)

-- `Support::store_payment_info`, which logs an error and goes on; `now` is the system time
unfoldable pub store_payment_info_of :
    {E : Type 0} → Support → ℕ → String → Option Offer → DataStore → Result E (Unit {0}) × DataStore
store_payment_info_of sup now hash offer s =
    let (r, s') =
      store_payment_info now hash sup.user_preferences sup.exchange_rates offer none none s in
    elim r [ ok _ ↦ (ok tt, s') | err _ ↦ (ok tt, s') | panic ↦ (panic, s') ]

-- `report_send_payment_issue`, which ignores the answer
unfoldable pub report_send_payment_issue {ℓ} : {E : Type ℓ} → String → Exec World E (Unit {0})
report_send_payment_issue hash = ask (Call.report_payment_failure hash) (λ _. tt)
