-- ===== src/Onchain/ChannelClose.antt =====
-- src/onchain/channel_closes.rs: funds of closed channels, swept to an address or swapped back. The
-- id of a transaction is its text in hexadecimal.
use lipa_lightning_lib.Prelude.{
  ℕ, String, Option, none, List, invalid_input, or_err, ltb, leb, ◌==◌, not, if◌then◌else◌, add64,
  sub64, any,
}
use lipa_lightning_lib.Prelude.Exec.{Exec, pure, lift, ensure, map_err_of, ◌>>=◌, ◌>>◌}
use lipa_lightning_lib.Amount.{
  Amount, as_sats, as_msats, sats_round_down, to_amount_down, sats_to_amount_up,
}
use lipa_lightning_lib.Sdk.{UnspentTransactionOutput, RedeemOnchainError, Call, World, ask}
use lipa_lightning_lib.Support.{
  Support, Lib, amount_or_panic, node_unavailable, get_exchange_rate, node_state, get_node_utxos,
  calculate_lsp_fee_for_amount, query_onchain_fee_rate,
}
use lipa_lightning_lib.Onchain.Swap.{SwapAddressInfo, create, get_lsp_fee_params}
use lipa_lightning_lib.Onchain.Resolving.{OnchainResolvingFees, get_onchain_resolving_fees}

-- the constant of src/lib.rs
abbrev pub cln_dust_limit_sat : ℕ
cln_dust_limit_sat = 546

pub record SweepChannelCloseInfo : Type 0 where
  pub address : String
  pub onchain_fee_rate : ℕ
  pub onchain_fee_amount : Amount
  pub amount : Amount

abbrev pub Redeem : Type 0 → Type 0
Redeem A = Exec World RedeemOnchainError A

-- the fee with the sats that stay behind, unless an output of that size is there already
unfoldable pub sweep_fee_sat : List UnspentTransactionOutput → ℕ → ℕ
sweep_fee_sat utxos tx_fee_sat =
    if any (λ u. u.amount_millisatoshi == 546000) utxos
    then tx_fee_sat
    else add64 tx_fee_sat cln_dust_limit_sat

unfoldable pub prepare_sweep : Support → String → Redeem SweepChannelCloseInfo
unfolding sweep_fee_sat
prepare_sweep sup address = do
  fee_rate ← map_err_of (λ _. RedeemOnchainError.service_connectivity) (query_onchain_fee_rate sup)
  answer ←
      ask (Call.prepare_redeem_onchain_funds address fee_rate)
        sup.sdk.answer_prepare_redeem_onchain_funds
  tx_fee_sat ← lift answer
  state ← map_err_of (λ _. RedeemOnchainError.service_connectivity) (node_state sup)
  balance ← amount_or_panic (to_amount_down (as_msats state.onchain_balance_msat) none)
  let rate = get_exchange_rate sup
  utxos ← map_err_of (λ _. RedeemOnchainError.generic) (get_node_utxos sup)
  fee_amount ← amount_or_panic (sats_to_amount_up (as_sats (sweep_fee_sat utxos tx_fee_sat)) rate)
  amount ← amount_or_panic (sats_to_amount_up (as_sats (sub64 balance.sats tx_fee_sat)) rate)
  pure (record {
    address = address;
    onchain_fee_rate = fee_rate;
    onchain_fee_amount = fee_amount;
    amount = amount;
  })

unfoldable pub determine_resolving_fees : Support → Lib (Option OnchainResolvingFees)
unfolding prepare_sweep
determine_resolving_fees sup = do
  state ← node_state sup
  ensure (not (state.onchain_balance_msat == 0)) invalid_input
  get_onchain_resolving_fees sup (as_msats state.onchain_balance_msat) λ address. do
    info ← map_err_of (λ _. node_unavailable) (prepare_sweep sup address)
    pure (record {
      sent_amount = as_sats info.amount.sats;
      onchain_fee = as_sats info.onchain_fee_amount.sats;
      sats_per_vbyte = info.onchain_fee_rate;
    })

-- `sdk.redeem_onchain_funds`, which broadcasts the transaction
unfoldable pub redeem_onchain_funds : Support → String → ℕ → Redeem String
redeem_onchain_funds sup to_address sat_per_vbyte = do
  answer ←
      ask (Call.redeem_onchain_funds to_address sat_per_vbyte) sup.sdk.answer_redeem_onchain_funds
  lift answer

unfoldable pub sweep : Support → SweepChannelCloseInfo → Lib String
unfolding redeem_onchain_funds
sweep sup info =
    map_err_of (λ _. node_unavailable) (redeem_onchain_funds sup info.address info.onchain_fee_rate)

-- the checks of `swap` on the amount that will arrive at the swap address
unfoldable pub ensure_swappable : SwapAddressInfo → ℕ → Redeem (Unit {0})
ensure_swappable address_info send_amount_sats = do
  ensure (leb address_info.min_deposit.sats send_amount_sats) RedeemOnchainError.insufficient_funds
  ensure (leb send_amount_sats address_info.max_deposit.sats) RedeemOnchainError.generic

-- what is left of the on-chain balance, with the wrap-around of the source's subtractions
unfoldable pub swappable_sats : ℕ → ℕ → ℕ
swappable_sats onchain_balance_msat tx_fee_sat =
    sub64 (sub64 (sats_round_down (as_msats onchain_balance_msat)).sats cln_dust_limit_sat)
      tx_fee_sat

unfoldable pub swap : Support → ℕ → Redeem String
unfolding ensure_swappable swappable_sats redeem_onchain_funds
swap sup sat_per_vbyte = do
  answer ←
      ask Call.node_info
        (λ calls. or_err (sup.sdk.answer_node_info calls) (sup.sdk.node_info_error calls))
  state ← lift answer
  address_info ← map_err_of (λ _. RedeemOnchainError.generic) (create sup)
  prepared ←
      ask (Call.prepare_redeem_onchain_funds address_info.address sat_per_vbyte)
        sup.sdk.answer_prepare_redeem_onchain_funds
  tx_fee_sat ← lift prepared
  let send_amount_sats = swappable_sats state.onchain_balance_msat tx_fee_sat
  ensure_swappable address_info send_amount_sats
  params ← map_err_of (λ _. RedeemOnchainError.generic) (get_lsp_fee_params sup)
  lsp_fee ←
      map_err_of (λ _. RedeemOnchainError.generic)
        (calculate_lsp_fee_for_amount sup send_amount_sats params)
  ensure (ltb lsp_fee.lsp_fee.sats send_amount_sats) RedeemOnchainError.insufficient_funds
  redeem_onchain_funds sup address_info.address sat_per_vbyte
