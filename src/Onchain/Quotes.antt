-- ===== src/Onchain/Quotes.antt =====
-- The operations that prepare a swap, a sweep or a reverse swap move no funds.
use lipa_lightning_lib.Prelude.{
  ◌∙◌, ℕ, String, ◌≡◌, refl, Option, none, some, Result, ok, err, panic,
}
use lipa_lightning_lib.Prelude.Exec.{Exec}
use lipa_lightning_lib.Config.{ExchangeRate}
use lipa_lightning_lib.Amount.{Msats}
use lipa_lightning_lib.Sdk.{OpeningFeeParams, SdkSwapInfo, PrepareOnchainPaymentResponse, World}
use lipa_lightning_lib.Sdk.Broadcasts.{Quiet, quiet_rules, broadcasts}
use lipa_lightning_lib.Support.{
  Support, Lib, CalculateLspFeeResponse, node_state, get_node_info, get_node_utxos,
  calculate_lsp_fee_for_amount, query_onchain_fee_rate,
}
use lipa_lightning_lib.Onchain.Swap.{
  FailedSwapInfo, create, get_lsp_fee_params, calculate_swap_lsp_fee, prepare_sweep,
}
use lipa_lightning_lib.Onchain.Resolving.{
  PreparedTx, attempt, swap_fees_for, resolving_fees_of, fees_with, sweep_only, swap_or_sweep,
  if_prepared, get_onchain_resolving_fees, determine_failed_swap_resolving_fees,
}
use lipa_lightning_lib.Onchain.ChannelClose
use lipa_lightning_lib.Onchain.ReverseSwap.{
  payment_limits, range_hit, determine_clear_wallet_feasibility, clear_wallet_info,
  prepare_clear_wallet,
}

after_attempt :
    {E A : Type 0} (F : Type 0) (r : Result E A) (w : World)
    → broadcasts (attempt {F = F} (λ _. (r, w)) w).1 ≡ broadcasts w
after_attempt F (ok a) w = refl
after_attempt F (err e) w = refl
after_attempt F panic w = refl

attempt-broadcasts :
    {E A : Type 0} (F : Type 0) (m : Exec World E A) (w : World)
    → broadcasts (attempt {F = F} m w).1 ≡ broadcasts (m w).1
attempt-broadcasts F m w = let (r, w') = m w in after_attempt F r w'

Quiet-attempt : {E F A : Type 0} (m : Exec World E A) → Quiet m → Quiet (attempt {F = F} m)
Quiet-attempt {F = F} m hm = record { at = λ w. attempt-broadcasts F m w ∙ hm.at w }

pub create-Quiet : (sup : Support) → Quiet (create sup)
unfolding create get_lsp_fee_params
create-Quiet sup = search (quiet_rules) depth 24

fee_rate-Quiet : (sup : Support) → Quiet (query_onchain_fee_rate sup)
unfolding query_onchain_fee_rate
fee_rate-Quiet sup = search (quiet_rules) depth 24

node_state-Quiet : (sup : Support) → Quiet (node_state sup)
unfolding node_state
node_state-Quiet sup = search (quiet_rules) depth 24

node_info-Quiet : (sup : Support) → Quiet (get_node_info sup)
unfolding get_node_info
node_info-Quiet sup = search (quiet_rules, node_state-Quiet) depth 24

pub lsp_fee-Quiet :
    (sup : Support) (n : ℕ) (p : OpeningFeeParams) → Quiet (calculate_lsp_fee_for_amount sup n p)
unfolding calculate_lsp_fee_for_amount
lsp_fee-Quiet sup n p = search (quiet_rules, node_info-Quiet) depth 24

pub params-Quiet : (sup : Support) → Quiet (get_lsp_fee_params sup)
unfolding get_lsp_fee_params
params-Quiet sup = search (quiet_rules) depth 24

utxos-Quiet : (sup : Support) → Quiet (get_node_utxos sup)
unfolding get_node_utxos
utxos-Quiet sup = search (quiet_rules, node_state-Quiet) depth 24

swap_lsp_fee-Quiet : (sup : Support) (n : ℕ) → Quiet (calculate_swap_lsp_fee sup n)
unfolding calculate_swap_lsp_fee
swap_lsp_fee-Quiet sup n = search (quiet_rules, params-Quiet, lsp_fee-Quiet) depth 24

prepare_sweep-Quiet :
    (sup : Support) (info : FailedSwapInfo) (to_address : String)
    → Quiet (prepare_sweep sup info to_address)
unfolding prepare_sweep
prepare_sweep-Quiet sup info to_address = search (quiet_rules, fee_rate-Quiet) depth 24

close_sweep-Quiet :
    (sup : Support) (address : String) → Quiet (ChannelClose.prepare_sweep sup address)
unfolding ChannelClose.prepare_sweep
close_sweep-Quiet sup address =
    search (quiet_rules, fee_rate-Quiet, node_state-Quiet, utxos-Quiet) depth 24

swap_fees-Quiet :
    (rate : Option ExchangeRate) (tx : PreparedTx) (r : CalculateLspFeeResponse)
    → Quiet (swap_fees_for rate tx r)
unfolding swap_fees_for
swap_fees-Quiet rate tx r = search (quiet_rules) depth 24

resolving-Quiet :
    (sup : Support) (amount : Msats) (s : Option SdkSwapInfo) (tx : Option PreparedTx)
    → Quiet (if_prepared sup amount s tx)
unfolding if_prepared resolving_fees_of fees_with sweep_only swap_or_sweep
resolving-Quiet sup amount s none = search (quiet_rules) depth 24
resolving-Quiet sup amount s (some tx) =
    search (quiet_rules, swap_lsp_fee-Quiet, swap_fees-Quiet) depth 24

fees-Quiet :
    (sup : Support) (amount : Msats) (prepare : String → Lib PreparedTx)
    → ((address : String) → Quiet (prepare address))
    → Quiet (get_onchain_resolving_fees sup amount prepare)
unfolding get_onchain_resolving_fees
fees-Quiet sup amount prepare h =
    search (quiet_rules, swap_lsp_fee-Quiet, resolving-Quiet, Quiet-attempt, h) depth 24

limits-Quiet : (sup : Support) → Quiet (payment_limits sup)
unfolding payment_limits
limits-Quiet sup = search (quiet_rules) depth 24

range_hit-Quiet : (rate : Option ExchangeRate) (l m b : ℕ) → Quiet (range_hit rate l m b)
unfolding range_hit
range_hit-Quiet rate l m b = search (quiet_rules) depth 24

clear_info-Quiet :
    (rate : Option ExchangeRate) (r : PrepareOnchainPaymentResponse)
    → Quiet (clear_wallet_info rate r)
unfolding clear_wallet_info
clear_info-Quiet rate r = search (quiet_rules) depth 24

failed_swap_fees-Quiet :
    (sup : Support) (info : FailedSwapInfo) → Quiet (determine_failed_swap_resolving_fees sup info)
unfolding determine_failed_swap_resolving_fees
failed_swap_fees-Quiet sup info = fees-Quiet _ _ _ (search (quiet_rules, prepare_sweep-Quiet))

close_fees-Quiet : (sup : Support) → Quiet (ChannelClose.determine_resolving_fees sup)
unfolding ChannelClose.determine_resolving_fees
close_fees-Quiet sup =
    search (quiet_rules, node_state-Quiet, fees-Quiet, close_sweep-Quiet) depth 24

feasibility-Quiet : (sup : Support) → Quiet (determine_clear_wallet_feasibility sup)
unfolding determine_clear_wallet_feasibility
feasibility-Quiet sup =
    search (quiet_rules, limits-Quiet, node_state-Quiet, range_hit-Quiet) depth 24

prepare_clear-Quiet : (sup : Support) → Quiet (prepare_clear_wallet sup)
unfolding prepare_clear_wallet
prepare_clear-Quiet sup =
    search (quiet_rules, fee_rate-Quiet, limits-Quiet, clear_info-Quiet) depth 24

-- However they end, creating a swap address, preparing either sweep, determining either kind of
-- resolving fees, and both steps before clearing the wallet ask for no refund, no redemption and no
-- on-chain payment.
pub quotes_move_no_funds :
    (sup : Support) (info : FailedSwapInfo) (address : String) (w : World)
    → (broadcasts (create sup w).1 ≡ broadcasts w)
      × (broadcasts (prepare_sweep sup info address w).1 ≡ broadcasts w)
      × (broadcasts (ChannelClose.prepare_sweep sup address w).1 ≡ broadcasts w)
      × (broadcasts (determine_failed_swap_resolving_fees sup info w).1 ≡ broadcasts w)
      × (broadcasts (ChannelClose.determine_resolving_fees sup w).1 ≡ broadcasts w)
      × (broadcasts (determine_clear_wallet_feasibility sup w).1 ≡ broadcasts w)
      × (broadcasts (prepare_clear_wallet sup w).1 ≡ broadcasts w)
quotes_move_no_funds sup info address w = (
  (create-Quiet sup).at w,
  (prepare_sweep-Quiet sup info address).at w,
  (close_sweep-Quiet sup address).at w,
  (failed_swap_fees-Quiet sup info).at w,
  (close_fees-Quiet sup).at w,
  (feasibility-Quiet sup).at w,
  (prepare_clear-Quiet sup).at w,
)
