-- ===== src/Lightning.antt =====
-- src/lightning/mod.rs and src/lightning/receive_limits.rs: fees and limits of Lightning payments.
pub mod Fees
pub mod Bolt11
pub mod Lnurl
mod Examples
use lipa_lightning_lib.Prelude.{
  ℕ, ◌/◌, Bool, true, false, Option, none, some, ok, err, panic, or_err, ltb, if◌then◌else◌, add64,
}
use lipa_lightning_lib.Prelude.Exec.{Exec, pure, lift, ◌>>=◌}
use lipa_lightning_lib.Config.{ExchangeRate, MaxRoutingFeeConfig, ReceiveLimitsConfig}
use lipa_lightning_lib.Amount.{
  Amount, as_sats, as_msats, permyriad_of, to_msats, to_amount_up, sats_to_amount_up,
  sats_to_amount_down,
}
use lipa_lightning_lib.Sdk.{OpeningFeeParams}
use lipa_lightning_lib.Support.{
  Support, Lib, amount_or_panic, node_unavailable, lsp_service_unavailable, get_exchange_rate,
  node_state, get_node_info, CalculateLspFeeResponse, calculate_lsp_fee_for_amount,
}
use lipa_lightning_lib.Onchain.Swap.{LspFee}

pub data PaymentAffordability : Type 0 where
  not_enough_funds unaffordable_fees affordable : PaymentAffordability

-- `MaxRoutingFeeMode` of src/lib.rs
pub data MaxRoutingFeeMode : Type 0 where
  relative : ℕ → MaxRoutingFeeMode
  absolute : Amount → MaxRoutingFeeMode

-- `none` is the panic of the conversion with a rate of 0
unfoldable pub get_payment_max_routing_fee_mode :
    MaxRoutingFeeConfig → ℕ → Option ExchangeRate → Option MaxRoutingFeeMode
get_payment_max_routing_fee_mode config amount_sat rate =
    if ltb (permyriad_of config.max_routing_fee_permyriad (as_sats amount_sat)).msats
      (as_sats config.max_routing_fee_exempt_fee_sats).msats
    then elim (sats_to_amount_up (as_sats config.max_routing_fee_exempt_fee_sats) rate) [
      | none ↦ none
      | some a ↦ some (absolute a)
    ]
    else some (relative config.max_routing_fee_permyriad)

unfoldable pub determine_max_routing_fee_mode : Support → ℕ → Lib MaxRoutingFeeMode
unfolding get_payment_max_routing_fee_mode
determine_max_routing_fee_mode sup amount_sat =
    lift
      (elim (get_payment_max_routing_fee_mode sup.max_routing_fee_config amount_sat
        (get_exchange_rate sup)) [ none ↦ panic | some m ↦ ok m ])

-- the `match` on the mode in `determine_payment_affordability`
unfoldable pub max_fee_msats : MaxRoutingFeeMode → ℕ → ℕ
max_fee_msats (relative p) amount_sat = (permyriad_of p (as_sats amount_sat)).msats
max_fee_msats (absolute a) amount_sat = to_msats a

unfoldable pub affordability : ℕ → ℕ → ℕ → PaymentAffordability
affordability amount_msats fee_msats max_payable_msat =
    if ltb max_payable_msat amount_msats
    then not_enough_funds
    else if ltb max_payable_msat (add64 amount_msats fee_msats)
    then unaffordable_fees
    else affordable

unfoldable pub determine_payment_affordability : Support → ℕ → Lib PaymentAffordability
unfolding determine_max_routing_fee_mode max_fee_msats affordability
determine_payment_affordability sup amount_sat = do
  mode ← determine_max_routing_fee_mode sup amount_sat
  state ← node_state sup
  pure (
      affordability (as_sats amount_sat).msats (max_fee_msats mode amount_sat)
        state.max_payable_msat)

unfoldable pub get_lsp_fee_params : Support → Lib OpeningFeeParams
get_lsp_fee_params sup = lift (or_err sup.cheaper_lsp_fee lsp_service_unavailable)

unfoldable pub get_lsp_fee : Support → Lib LspFee
unfolding get_lsp_fee_params
get_lsp_fee sup = do
  params ← get_lsp_fee_params sup
  minimum ← amount_or_panic (to_amount_up (as_msats params.min_msat) (get_exchange_rate sup))
  pure (record { channel_minimum_fee = minimum; channel_fee_permyriad = params.proportional / 100 })

-- `Lightning::calculate_lsp_fee_for_amount`
unfoldable pub calculate_lightning_lsp_fee : Support → ℕ → Lib CalculateLspFeeResponse
unfolding get_lsp_fee_params
calculate_lightning_lsp_fee sup amount_sat = do
  params ← get_lsp_fee_params sup
  calculate_lsp_fee_for_amount sup amount_sat params

-- `LiquidityLimit`, whose constructor `None` is `unlimited`
pub data LiquidityLimit : Type 0 where
  unlimited : LiquidityLimit
  max_free_receive min_receive : Amount → LiquidityLimit

pub record ReceiveAmountLimits : Type 0 where
  pub max_receive : Amount
  pub liquidity_limit : LiquidityLimit

-- The product of a `u64` and an `f64` multiplier, cast to `u64`, is a parameter.
module _ {F : Type 0} (times : ℕ → F → ℕ) where
  unfoldable pub liquidity_limit :
      ℕ → ℕ → Option ExchangeRate → ReceiveLimitsConfig F → Lib LiquidityLimit
  liquidity_limit inbound_capacity_sat lsp_min_fee_sat rate config =
      let least = times lsp_min_fee_sat config.min_receive_channel_open_fee_multiplier in
      if ltb inbound_capacity_sat least
      then (do a ← amount_or_panic (sats_to_amount_up (as_sats least) rate); pure (min_receive a))
      else if ltb inbound_capacity_sat config.max_receive_amount_sat
      then (do
        a ← amount_or_panic (sats_to_amount_down (as_sats inbound_capacity_sat) rate)
        pure (max_free_receive a))
      else pure unlimited

  unfoldable pub calculate :
      ℕ → ℕ → Option ExchangeRate → ReceiveLimitsConfig F → Lib ReceiveAmountLimits
  unfolding liquidity_limit
  calculate inbound_capacity_sat lsp_min_fee_sat rate config = do
    limit ← liquidity_limit inbound_capacity_sat lsp_min_fee_sat rate config
    max_receive ← amount_or_panic (sats_to_amount_down (as_sats config.max_receive_amount_sat) rate)
    pure (record { max_receive = max_receive; liquidity_limit = limit })

  unfoldable pub determine_receive_amount_limits :
      Support → ReceiveLimitsConfig F → Lib ReceiveAmountLimits
  unfolding calculate get_lsp_fee
  determine_receive_amount_limits sup config = do
    fee ← get_lsp_fee sup
    info ← get_node_info sup
    calculate info.channels_info.total_inbound_capacity.sats fee.channel_minimum_fee.sats
        (get_exchange_rate sup) config
