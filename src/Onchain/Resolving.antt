-- ===== src/Onchain/Resolving.antt =====
-- src/onchain/mod.rs: the fees of resolving on-chain funds, by a sweep or by a swap.
use lipa_lightning_lib.Prelude.{
  ℕ, String, Bool, true, ◌||◌, Option, none, some, ok, err, panic, ltb, leb, if◌then◌else◌, add64,
  mul64,
}
use lipa_lightning_lib.Prelude.Exec.{Exec, pure, lift, ◌>>=◌}
use lipa_lightning_lib.Config.{ExchangeRate}
use lipa_lightning_lib.Amount.{
  Amount, Sats, Msats, as_sats, as_msats, sats_round_down, sats_to_amount_up, to_msats,
}
use lipa_lightning_lib.Sdk.{OpeningFeeParams, SdkSwapInfo, Call, World, ask}
use lipa_lightning_lib.Support.{
  Support, Lib, amount_or_panic, get_exchange_rate, CalculateLspFeeResponse,
}
use lipa_lightning_lib.Onchain.Swap.{FailedSwapInfo, calculate_swap_lsp_fee, prepare_sweep}

pub record SwapToLightningFees : Type 0 where
  pub swap_fee : Amount
  pub onchain_fee : Amount
  pub channel_opening_fee : Amount
  pub total_fees : Amount
  pub lsp_fee_params : OpeningFeeParams

pub record OnchainResolvingFees : Type 0 where
  pub swap_fees : Option SwapToLightningFees
  pub sweep_onchain_fee_estimate : Amount
  pub sats_per_vbyte : ℕ

-- What a prepared transaction would send and cost: the closure's `(Sats, Sats, u32)`.
pub record PreparedTx : Type 0 where
  pub sent_amount : Sats
  pub onchain_fee : Sats
  pub sats_per_vbyte : ℕ

-- `.ok()` on an action: an error is dropped, a panic is not
abbrev pub attempt {ℓ κ} :
    {E : Type ℓ} {F : Type κ} {A : Type 0} → Exec World E A → Exec World F (Option A)
attempt m w =
    let (r, w') = m w in
    elim r [ ok a ↦ (ok (some a), w') | err _ ↦ (ok none, w') | panic ↦ (panic, w') ]

unfoldable pub swap_address_or_burn : Option SdkSwapInfo → String
swap_address_or_burn none = "1BitcoinEaterAddressDontSendf59kuE"
swap_address_or_burn (some s) = s.bitcoin_address

-- The funds cannot be swapped: there is no swap address, or what would be sent lies outside its
-- limits or does not exceed the fee of the channel.
unfoldable pub cannot_swap : Option SdkSwapInfo → ℕ → ℕ → Bool
cannot_swap none sent lsp_fee = true
cannot_swap (some s) sent lsp_fee =
    ltb sent s.min_allowed_deposit || (ltb s.max_allowed_deposit sent || leb sent lsp_fee)

unfoldable pub swap_fees_for :
    Option ExchangeRate → PreparedTx → CalculateLspFeeResponse → Lib SwapToLightningFees
swap_fees_for rate tx lsp_fee_response = do
  swap_fee ← amount_or_panic (sats_to_amount_up (as_sats 0) rate)
  onchain_fee ← amount_or_panic (sats_to_amount_up tx.onchain_fee rate)
  total ← amount_or_panic (
      sats_to_amount_up
        (as_sats (add64 (add64 0 tx.onchain_fee.sats) lsp_fee_response.lsp_fee.sats)) rate)
  pure (record {
    swap_fee = swap_fee;
    onchain_fee = onchain_fee;
    channel_opening_fee = lsp_fee_response.lsp_fee;
    total_fees = total;
    lsp_fee_params = lsp_fee_response.lsp_fee_params;
  })

unfoldable pub sweep_only : Support → PreparedTx → Lib (Option OnchainResolvingFees)
sweep_only sup tx = do
  sweep_fee ← amount_or_panic (sats_to_amount_up tx.onchain_fee (get_exchange_rate sup))
  pure (
      some (record {
        swap_fees = none;
        sweep_onchain_fee_estimate = sweep_fee;
        sats_per_vbyte = tx.sats_per_vbyte;
      }))

unfoldable pub swap_or_sweep :
    Support → PreparedTx → CalculateLspFeeResponse → Lib (Option OnchainResolvingFees)
unfolding swap_fees_for
swap_or_sweep sup tx response = do
  swap_fees ← swap_fees_for (get_exchange_rate sup) tx response
  sweep_fee ← amount_or_panic (sats_to_amount_up tx.onchain_fee (get_exchange_rate sup))
  pure (
      some (record {
        swap_fees = some swap_fees;
        sweep_onchain_fee_estimate = sweep_fee;
        sats_per_vbyte = tx.sats_per_vbyte;
      }))

-- the part of `get_onchain_resolving_fees` behind the LSP's fee
unfoldable pub fees_with :
    Support
    → Option SdkSwapInfo
    → PreparedTx
    → CalculateLspFeeResponse
    → Lib (Option OnchainResolvingFees)
unfolding sweep_only swap_or_sweep cannot_swap
fees_with sup swap_info tx response =
    if cannot_swap swap_info tx.sent_amount.sats response.lsp_fee.sats
    then sweep_only sup tx
    else swap_or_sweep sup tx response

-- the part behind the prepared transaction
unfoldable pub resolving_fees_of :
    Support → Msats → Option SdkSwapInfo → PreparedTx → Lib (Option OnchainResolvingFees)
unfolding fees_with
resolving_fees_of sup amount swap_info tx =
    if ltb (sats_round_down amount).sats (mul64 tx.onchain_fee.sats 2)
    then pure none
    else do response ← calculate_swap_lsp_fee sup amount.msats; fees_with sup swap_info tx response

unfoldable pub if_prepared :
    Support → Msats → Option SdkSwapInfo → Option PreparedTx → Lib (Option OnchainResolvingFees)
unfolding resolving_fees_of
if_prepared sup amount swap_info none = pure none
if_prepared sup amount swap_info (some tx) = resolving_fees_of sup amount swap_info tx

unfoldable pub get_onchain_resolving_fees :
    Support → Msats → (String → Lib PreparedTx) → Lib (Option OnchainResolvingFees)
unfolding if_prepared swap_address_or_burn
get_onchain_resolving_fees sup amount prepare_onchain_tx = do
  lsp_fees ← calculate_swap_lsp_fee sup amount.msats
  swap_info ← attempt (do
    answer ←
        ask (Call.receive_onchain (some lsp_fees.lsp_fee_params)) sup.sdk.answer_receive_onchain
    lift answer)
  prepared ← attempt (prepare_onchain_tx (swap_address_or_burn swap_info))
  if_prepared sup amount swap_info prepared

-- `Swap::determine_resolving_fees`
unfoldable pub determine_failed_swap_resolving_fees :
    Support → FailedSwapInfo → Lib (Option OnchainResolvingFees)
determine_failed_swap_resolving_fees sup info =
    get_onchain_resolving_fees sup (as_msats (to_msats info.amount)) λ address. do
      sweep_info ← prepare_sweep sup info address
      pure (record {
        sent_amount = as_sats sweep_info.recovered_amount.sats;
        onchain_fee = as_sats sweep_info.onchain_fee.sats;
        sats_per_vbyte = sweep_info.onchain_fee_rate;
      })
