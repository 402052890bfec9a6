-- ===== src/Onchain/ReverseSwap.antt =====
-- src/onchain/reverse_swap.rs: clearing the wallet by a reverse swap.
use lipa_lightning_lib.Prelude.{
  ℕ, String, Option, or_err, permanent_failure, ltb, leb, if◌then◌else◌, add64, sub64,
}
use lipa_lightning_lib.Prelude.Exec.{pure, fail, lift, ensure, ◌>>=◌}
use lipa_lightning_lib.Config.{ExchangeRate, MaxRoutingFeeConfig}
use lipa_lightning_lib.Amount.{
  Amount, as_sats, as_msats, sats_round_down, sats_round_up, permyriad_of, sats_to_amount_up,
  sats_to_amount_down,
}
use lipa_lightning_lib.Sdk.{OnchainPaymentLimits, PrepareOnchainPaymentResponse, Call, ask}
use lipa_lightning_lib.Support.{
  Support, Lib, amount_or_panic, node_unavailable, get_exchange_rate, node_state,
  query_onchain_fee_rate,
}

-- `RangeHit` of src/lib.rs, whose constructor `In` is `inside`
pub data RangeHit : Type 0 where
  below : Amount → RangeHit
  inside : RangeHit
  above : Amount → RangeHit

pub record ClearWalletInfo : Type 0 where
  pub clear_amount : Amount
  pub total_estimated_fees : Amount
  pub onchain_fee : Amount
  pub swap_fee : Amount
  pub prepare_response : PrepareOnchainPaymentResponse

unfoldable pub payment_limits : Support → Lib OnchainPaymentLimits
payment_limits sup = do
  answer ← ask Call.onchain_payment_limits sup.sdk.answer_onchain_payment_limits
  lift (or_err answer node_unavailable)

-- the least balance, with room for the routing fees of the network
unfoldable pub min_balance_sat : MaxRoutingFeeConfig → ℕ → ℕ
min_balance_sat config min_sat =
    add64 min_sat
      (sats_round_up (permyriad_of config.max_routing_fee_permyriad (as_sats min_sat))).sats

-- the `match` of `determine_clear_wallet_feasibility`
unfoldable pub range_hit : Option ExchangeRate → ℕ → ℕ → ℕ → Lib RangeHit
range_hit rate least max_sat balance_sat =
    if ltb balance_sat least
    then (do amount ← amount_or_panic (sats_to_amount_up (as_sats least) rate); pure (below amount))
    else if leb balance_sat max_sat
    then pure inside
    else if ltb max_sat balance_sat
    then (do
      amount ← amount_or_panic (sats_to_amount_down (as_sats max_sat) rate)
      pure (above amount))
    else fail permanent_failure

unfoldable pub determine_clear_wallet_feasibility : Support → Lib RangeHit
unfolding payment_limits min_balance_sat range_hit
determine_clear_wallet_feasibility sup = do
  limits ← payment_limits sup
  state ← node_state sup
  range_hit (get_exchange_rate sup) (min_balance_sat sup.max_routing_fee_config limits.min_sat)
      limits.max_sat (sats_round_down (as_msats state.channels_balance_msat)).sats

-- what `prepare_clear_wallet` makes of the answer
unfoldable pub clear_wallet_info :
    Option ExchangeRate → PrepareOnchainPaymentResponse → Lib ClearWalletInfo
clear_wallet_info rate response = do
  let onchain_fee_sat = add64 response.fees_claim response.fees_lockup
  let swap_fee_sat = sub64 response.total_fees onchain_fee_sat
  clear_amount ← amount_or_panic (sats_to_amount_up (as_sats response.sender_amount_sat) rate)
  total ← amount_or_panic (sats_to_amount_up (as_sats response.total_fees) rate)
  onchain_fee ← amount_or_panic (sats_to_amount_up (as_sats onchain_fee_sat) rate)
  swap_fee ← amount_or_panic (sats_to_amount_up (as_sats swap_fee_sat) rate)
  pure (record {
    clear_amount = clear_amount;
    total_estimated_fees = total;
    onchain_fee = onchain_fee;
    swap_fee = swap_fee;
    prepare_response = response;
  })

unfoldable pub prepare_clear_wallet : Support → Lib ClearWalletInfo
unfolding payment_limits clear_wallet_info
prepare_clear_wallet sup = do
  claim_tx_feerate ← query_onchain_fee_rate sup
  limits ← payment_limits sup
  answer ←
      ask (Call.prepare_onchain_payment limits.max_payable_sat claim_tx_feerate)
        sup.sdk.answer_prepare_onchain_payment
  response ← lift (or_err answer node_unavailable)
  clear_wallet_info (get_exchange_rate sup) response

unfoldable pub clear_wallet : Support → ClearWalletInfo → String → Lib (Unit {0})
clear_wallet sup info address = do
  accepted ← ask (Call.pay_onchain address info.prepare_response) sup.sdk.answer_pay_onchain
  ensure accepted node_unavailable
