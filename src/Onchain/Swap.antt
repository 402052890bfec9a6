-- ===== src/Onchain/Swap.antt =====
-- src/onchain/swap.rs, and the records of src/swap.rs.
use lipa_lightning_lib.Prelude.{
  ℕ, ◌/◌, String, Bool, true, false, Option, some, List, [], ◌∷◌, permanent_failure, or_err, ltb,
  leb, sub64, filter,
}
use lipa_lightning_lib.Prelude.Exec.{Exec, pure, lift, ensure, map_err_of, ◌>>=◌, ◌>>◌}
use lipa_lightning_lib.Config.{ExchangeRate}
use lipa_lightning_lib.Amount.{
  Amount, as_sats, as_msats, to_amount_up, sats_to_amount_up, sats_to_amount_down,
}
use lipa_lightning_lib.Sdk.{OpeningFeeParams, SdkSwapInfo, ReceiveOnchainError, Call, World, ask}
use lipa_lightning_lib.Support.{
  Support, Lib, amount_or_panic, node_unavailable, lsp_service_unavailable, get_exchange_rate,
  CalculateLspFeeResponse, calculate_lsp_fee_for_amount, query_onchain_fee_rate,
}

pub record SwapAddressInfo : Type 0 where
  pub address : String
  pub min_deposit : Amount
  pub max_deposit : Amount
  pub swap_fee : Amount

pub record FailedSwapInfo : Type 0 where
  pub address : String
  pub amount : Amount
  pub created_at : ℕ

pub record SweepFailedSwapInfo : Type 0 where
  pub swap_address : String
  pub recovered_amount : Amount
  pub onchain_fee : Amount
  pub to_address : String
  pub onchain_fee_rate : ℕ

pub record LspFee : Type 0 where
  pub channel_minimum_fee : Amount
  pub channel_fee_permyriad : ℕ

-- `get_longer_valid_lsp_fee` of src/task_manager.rs
unfoldable pub get_lsp_fee_params : Support → Lib OpeningFeeParams
get_lsp_fee_params sup = lift (or_err sup.longer_valid_lsp_fee lsp_service_unavailable)

unfoldable pub create : Support → Exec World ReceiveOnchainError SwapAddressInfo
unfolding get_lsp_fee_params
create sup = do
  params ← map_err_of (λ _. ReceiveOnchainError.service_connectivity) (get_lsp_fee_params sup)
  answer ← ask (Call.receive_onchain (some params)) sup.sdk.answer_receive_onchain
  info ← lift answer
  let rate = get_exchange_rate sup
  min_deposit ← amount_or_panic (sats_to_amount_up (as_sats info.min_allowed_deposit) rate)
  max_deposit ← amount_or_panic (sats_to_amount_down (as_sats info.max_allowed_deposit) rate)
  swap_fee ← amount_or_panic (sats_to_amount_up (as_sats 0) rate)
  pure (record {
    address = info.bitcoin_address;
    min_deposit = min_deposit;
    max_deposit = max_deposit;
    swap_fee = swap_fee;
  })

unfoldable pub prepare_sweep : Support → FailedSwapInfo → String → Lib SweepFailedSwapInfo
prepare_sweep sup info to_address = do
  fee_rate ← query_onchain_fee_rate sup
  answer ← ask (Call.prepare_refund info.address to_address fee_rate) sup.sdk.answer_prepare_refund
  tx_fee_sat ← lift (or_err answer node_unavailable)
  let rate = get_exchange_rate sup
  onchain_fee ← amount_or_panic (sats_to_amount_up (as_sats tx_fee_sat) rate)
  ensure (ltb onchain_fee.sats info.amount.sats) permanent_failure
  recovered ←
      amount_or_panic (sats_to_amount_down (as_sats (sub64 info.amount.sats onchain_fee.sats)) rate)
  pure (record {
    swap_address = info.address;
    recovered_amount = recovered;
    onchain_fee = onchain_fee;
    to_address = to_address;
    onchain_fee_rate = fee_rate;
  })

-- `sdk.refund`, which broadcasts the transaction and returns its id
unfoldable pub refund : Support → String → String → ℕ → Lib String
refund sup swap_address to_address fee_rate = do
  answer ← ask (Call.refund swap_address to_address fee_rate) sup.sdk.answer_refund
  lift (or_err answer node_unavailable)

unfoldable pub sweep : Support → SweepFailedSwapInfo → Lib String
unfolding refund
sweep sup info = refund sup info.swap_address info.to_address info.onchain_fee_rate

-- the checks of `swap` on the amount that will arrive at the new swap address
unfoldable pub ensure_swappable : SwapAddressInfo → ℕ → Lib (Unit {0})
ensure_swappable address_info send_amount_sats = do
  ensure (leb address_info.min_deposit.sats send_amount_sats) node_unavailable
  ensure (leb send_amount_sats address_info.max_deposit.sats) node_unavailable

unfoldable pub swap : Support → FailedSwapInfo → ℕ → Lib String
unfolding ensure_swappable refund
swap sup info sats_per_vbyte = do
  address_info ← map_err_of (λ _. node_unavailable) (create sup)
  answer ←
      ask (Call.prepare_refund info.address address_info.address sats_per_vbyte)
        sup.sdk.answer_prepare_refund
  tx_fee_sat ← lift (or_err answer node_unavailable)
  let send_amount_sats = sub64 info.amount.sats tx_fee_sat
  ensure_swappable address_info send_amount_sats
  params ← get_lsp_fee_params sup
  lsp_fee ← calculate_lsp_fee_for_amount sup send_amount_sats params
  ensure (ltb lsp_fee.lsp_fee.sats send_amount_sats) node_unavailable
  refund sup info.address address_info.address sats_per_vbyte

is_unresolved : SdkSwapInfo → Bool
is_unresolved s = elim s.refund_tx_ids [ [] ↦ true | _ ∷ _ ↦ false ]

-- the `map` of `list_failed_unresolved`
failed_swap_infos : Option ExchangeRate → List SdkSwapInfo → Lib (List FailedSwapInfo)
failed_swap_infos rate [] = pure []
failed_swap_infos rate (s ∷ swaps) = do
  amount ← amount_or_panic (sats_to_amount_down (as_sats s.confirmed_sats) rate)
  rest ← failed_swap_infos rate swaps
  pure (record { address = s.bitcoin_address; amount = amount; created_at = s.created_at } ∷ rest)

unfoldable pub list_failed_unresolved : Support → Lib (List FailedSwapInfo)
unfolding is_unresolved failed_swap_infos
list_failed_unresolved sup = do
  answer ← ask Call.list_refundables sup.sdk.answer_list_refundables
  swaps ← lift (or_err answer node_unavailable)
  failed_swap_infos (get_exchange_rate sup) (filter is_unresolved swaps)

-- `Swap::calculate_lsp_fee_for_amount`
unfoldable pub calculate_swap_lsp_fee : Support → ℕ → Lib CalculateLspFeeResponse
calculate_swap_lsp_fee sup amount_sat = do
  params ← get_lsp_fee_params sup
  calculate_lsp_fee_for_amount sup amount_sat params

unfoldable pub get_lsp_fee : Support → Lib LspFee
get_lsp_fee sup = do
  params ← get_lsp_fee_params sup
  minimum ← amount_or_panic (to_amount_up (as_msats params.min_msat) (get_exchange_rate sup))
  pure (record { channel_minimum_fee = minimum; channel_fee_permyriad = params.proportional / 100 })
