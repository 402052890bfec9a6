-- ===== src/ActionsRequired/Examples.antt =====
-- The theorem on the failed swaps that are listed, with one that is hidden.
use lipa_lightning_lib.Amount.{as_sats, sats_to_amount_up}
use lipa_lightning_lib.Sdk.{ask}
use lipa_lightning_lib.Support.{get_exchange_rate, query_onchain_fee_rate}
use lipa_lightning_lib.Onchain.Swap.{prepare_sweep, FailedSwapInfo}
use lipa_lightning_lib.Prelude.{none, not, ◌≡◌, refl, [], ◌∷◌, ok, filter}
use lipa_lightning_lib.Sample.{sample_support, sample_world, sample_failed_swap}
use lipa_lightning_lib.ActionsRequired.{is_hidden, shown_swaps}
use lipa_lightning_lib.ActionsRequired.Hidden.{unhidden-shown_swaps}

abbrev small_swap : FailedSwapInfo
small_swap = record {
  address = "small";
  amount = record { sats = 900; fiat = none };
  created_at = 4;
}

-- Sweeping the hidden swap would cost more than it has.
shown_lem :
    (shown_swaps sample_support
      ("small" ∷ [])
      (sample_failed_swap ∷ small_swap ∷ [])
      sample_world).0
    ≡ ok (sample_failed_swap ∷ [])
unfolding shown_swaps prepare_sweep query_onchain_fee_rate ask sats_to_amount_up get_exchange_rate
    as_sats
shown_lem = refl

unhidden-shown_swaps_example :
    filter (λ s. not (is_hidden ("small" ∷ []) s)) (sample_failed_swap ∷ [])
    ≡ filter (λ s. not (is_hidden ("small" ∷ []) s)) (sample_failed_swap ∷ small_swap ∷ [])
unhidden-shown_swaps_example =
    unhidden-shown_swaps sample_support ("small" ∷ []) (sample_failed_swap ∷ small_swap ∷ [])
      sample_world shown_lem
