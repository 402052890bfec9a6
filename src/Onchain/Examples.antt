-- ===== src/Onchain/Examples.antt =====
-- The theorems on on-chain funds at the sample node.
use lipa_lightning_lib.Prelude.{ℕ, ◌≡◌, refl, none, some, ok, ◌∷◌, []}
use lipa_lightning_lib.Amount.{
  Amount, as_sats, as_msats, sats_to_amount_up, sats_round_down, to_amount_up, to_amount_down,
  sats_to_amount_down,
}
use lipa_lightning_lib.Sdk.{Call, ask}
use lipa_lightning_lib.Sdk.Broadcasts.{broadcasts, Outcome}
use lipa_lightning_lib.Support.{
  Support, get_exchange_rate, node_state, get_node_info, calculate_lsp_fee_for_amount, lsp_fee_msat,
}
use lipa_lightning_lib.Sample.{sample_support, sample_world, sample_failed_swap, sample_swap}
use lipa_lightning_lib.Onchain.Swap.{
  create, prepare_sweep, swap, refund, ensure_swappable, calculate_swap_lsp_fee, get_lsp_fee_params,
}
use lipa_lightning_lib.Onchain.ChannelClose
use lipa_lightning_lib.Onchain.Resolving.{
  PreparedTx, SwapToLightningFees, OnchainResolvingFees, determine_failed_swap_resolving_fees,
  resolving_fees_of, fees_with, sweep_only, swap_or_sweep, swap_fees_for, cannot_swap,
}
use lipa_lightning_lib.Onchain.ReverseSwap.{
  determine_clear_wallet_feasibility, prepare_clear_wallet,
}
use lipa_lightning_lib.Onchain.Quotes.{quotes_move_no_funds}
use lipa_lightning_lib.Onchain.Guards.{
  IsGuardedRefund, IsGuardedRedeem, swap_is_guarded, close_swap_is_guarded,
}

quotes_move_no_funds_example :
    (broadcasts (create sample_support sample_world).1 ≡ broadcasts sample_world)
    × (broadcasts (prepare_sweep sample_support sample_failed_swap "to" sample_world).1
        ≡ broadcasts sample_world)
    × (broadcasts (ChannelClose.prepare_sweep sample_support "to" sample_world).1
        ≡ broadcasts sample_world)
    × (broadcasts
          (determine_failed_swap_resolving_fees sample_support sample_failed_swap sample_world).1
        ≡ broadcasts sample_world)
    × (broadcasts (ChannelClose.determine_resolving_fees sample_support sample_world).1
        ≡ broadcasts sample_world)
    × (broadcasts (determine_clear_wallet_feasibility sample_support sample_world).1
        ≡ broadcasts sample_world)
    × (broadcasts (prepare_clear_wallet sample_support sample_world).1 ≡ broadcasts sample_world)
quotes_move_no_funds_example =
    quotes_move_no_funds sample_support sample_failed_swap "to" sample_world

-- the sample's failed swap is refunded
broadcasts-swap :
    broadcasts (swap sample_support sample_failed_swap 9 sample_world).1
    ≡ Call.refund "old" "new" 9 ∷ []
unfolding swap create refund ensure_swappable calculate_lsp_fee_for_amount lsp_fee_msat
    get_node_info node_state get_lsp_fee_params get_exchange_rate ask as_sats sats_to_amount_up
    sats_to_amount_down to_amount_up to_amount_down
broadcasts-swap = refl

swap_is_guarded_example :
    Outcome
      (IsGuardedRefund sample_support sample_failed_swap 9)
      sample_world
      (swap sample_support sample_failed_swap 9 sample_world)
swap_is_guarded_example = swap_is_guarded sample_support sample_failed_swap 9 sample_world

broadcasts-close_swap :
    broadcasts (ChannelClose.swap sample_support 9 sample_world).1
    ≡ Call.redeem_onchain_funds "new" 9 ∷ []
unfolding ChannelClose.swap ChannelClose.ensure_swappable ChannelClose.swappable_sats
    ChannelClose.redeem_onchain_funds sats_round_down create calculate_lsp_fee_for_amount
    lsp_fee_msat get_node_info node_state get_lsp_fee_params get_exchange_rate ask as_sats
    sats_to_amount_up sats_to_amount_down to_amount_up to_amount_down
broadcasts-close_swap = refl

close_swap_is_guarded_example :
    Outcome
      (IsGuardedRedeem sample_support 9)
      sample_world
      (ChannelClose.swap sample_support 9 sample_world)
close_swap_is_guarded_example = close_swap_is_guarded sample_support 9 sample_world

abbrev prepared : PreparedTx
prepared = record { sent_amount = as_sats 38500; onchain_fee = as_sats 1500; sats_per_vbyte = 12 }

-- a node with a lower fee for channels, and no exchange rates
abbrev cheap_support : Support
cheap_support = record sample_support {
  exchange_rates = [];
  longer_valid_lsp_fee = some (record { min_msat = 2000000; proportional = 100 });
}

abbrev plain : ℕ → Amount
plain n = record { sats = n; fiat = none }

abbrev swap_offer : SwapToLightningFees
swap_offer = record {
  swap_fee = plain 0;
  onchain_fee = plain 1500;
  channel_opening_fee = plain 4000;
  total_fees = plain 5500;
  lsp_fee_params = record { min_msat = 2000000; proportional = 100 };
}

abbrev offered : OnchainResolvingFees
offered = record {
  swap_fees = some swap_offer;
  sweep_onchain_fee_estimate = plain 1500;
  sats_per_vbyte = 12;
}

offered_eq :
    (resolving_fees_of cheap_support (as_msats 40000000) (some sample_swap) prepared sample_world).0
    ≡ ok (some offered)
unfolding resolving_fees_of fees_with cannot_swap swap_or_sweep swap_fees_for sats_round_down
    calculate_swap_lsp_fee calculate_lsp_fee_for_amount lsp_fee_msat get_node_info node_state
    get_lsp_fee_params get_exchange_rate ask as_sats sats_to_amount_up to_amount_up to_amount_down
offered_eq = refl

-- The fee of the channel is computed with the number of msats for the number of sats: for the funds
-- that the sample's `swap` does swap, no swap is offered.
no_swap_offered :
    (resolving_fees_of sample_support
      (as_msats 40000000)
      (some sample_swap)
      (record prepared { onchain_fee = as_sats 0 })
      sample_world).0
    ≡ ok (
        some (record {
          swap_fees = none;
          sweep_onchain_fee_estimate = record {
            sats = 0;
            fiat =
                some (record {
                  minor_units = 0;
                  currency_code = "EUR";
                  rate = 4123;
                  converted_at = 5;
                });
          };
          sats_per_vbyte = 12;
        }))
unfolding resolving_fees_of fees_with cannot_swap sweep_only sats_round_down calculate_swap_lsp_fee
    calculate_lsp_fee_for_amount lsp_fee_msat get_node_info node_state get_lsp_fee_params
    get_exchange_rate ask as_sats sats_to_amount_up to_amount_up to_amount_down
no_swap_offered = refl
