-- ===== src/ActionsRequired.antt =====
-- src/actions_required.rs: what the user is asked to act on.
pub mod Hidden
mod Examples
use lipa_lightning_lib.FiatTopup.Setup.{hide_topup}
use lipa_lightning_lib.Prelude.{
  ℕ, ◌*◌, String, Bool, true, false, not, Option, none, some, List, [], ◌∷◌, ◌++◌, Result, ok, err,
  panic, runtime_error, str_eq, any, map, ltb, ◌==◌, if◌then◌else◌, sub64, is_some,
}
use lipa_lightning_lib.Prelude.Exec.{Exec, pure, lift, ◌>>=◌, ◌>>◌}
use lipa_lightning_lib.Errors.{RuntimeErrorCode, LibError}
use lipa_lightning_lib.Amount.{Amount, as_sats, sats_to_amount_down}
use lipa_lightning_lib.Offer.{OfferInfo}
use lipa_lightning_lib.DataStore.Settings.{
  store_hidden_channel_close_onchain_funds_amount_sat,
  retrieve_hidden_channel_close_onchain_funds_amount_sat, store_hidden_unresolved_failed_swap,
  retrieve_hidden_unresolved_failed_swaps,
}
use lipa_lightning_lib.Sdk.{UnspentTransactionOutput, World, Call, on_store}
use lipa_lightning_lib.Support.{
  Support, Lib, amount_or_panic, request, get_exchange_rate, get_node_info, get_node_utxos,
}
use lipa_lightning_lib.Payment.Conversion.{Parsers}
use lipa_lightning_lib.FiatTopup.Uncompleted.{query_uncompleted_offers}
use lipa_lightning_lib.Onchain.Swap.{
  FailedSwapInfo, SweepFailedSwapInfo, prepare_sweep, list_failed_unresolved,
}
use lipa_lightning_lib.Onchain.ChannelClose.{cln_dust_limit_sat, determine_resolving_fees}

-- `ActionRequiredItem` of src/lib.rs
pub data ActionRequiredItem : Type 0 where
  uncompleted_offer : OfferInfo → ActionRequiredItem
  unresolved_failed_swap : FailedSwapInfo → ActionRequiredItem
  channel_closes_funds_available : Amount → ActionRequiredItem

-- `is_ok` of an action, of which a panic is no outcome
unfoldable pub succeeds : {A : Type 0} → Lib A → Lib Bool
succeeds m w =
    let (r, w') = m w in (elim r [ ok _ ↦ ok true | err _ ↦ ok false | panic ↦ panic ], w')

unfoldable pub is_hidden : List String → FailedSwapInfo → Bool
is_hidden hidden s = any (λ address. str_eq address s.address) hidden

unfoldable pub is_shown : Support → List String → FailedSwapInfo → Lib Bool
unfolding is_hidden succeeds
is_shown sup hidden s =
    if not (is_hidden hidden s)
    then pure true
    else succeeds (prepare_sweep sup s "1BitcoinEaterAddressDontSendf59kuE")

-- the `filter` on the failed swaps
unfoldable pub shown_swaps : Support → List String → List FailedSwapInfo → Lib (List FailedSwapInfo)
unfolding is_shown
shown_swaps sup hidden [] = pure []
shown_swaps sup hidden (s ∷ swaps) = do
  shown ← is_shown sup hidden s
  rest ← shown_swaps sup hidden swaps
  pure (if shown then s ∷ rest else rest)

-- without the part that the node keeps, unless an output of that amount is there already
unfoldable pub available_funds_sats : ℕ → List UnspentTransactionOutput → ℕ
available_funds_sats onchain_balance_sat utxos =
    if any (λ (u : UnspentTransactionOutput). u.amount_millisatoshi == cln_dust_limit_sat * 1000)
      utxos
    then onchain_balance_sat
    else sub64 onchain_balance_sat cln_dust_limit_sat

unfoldable pub is_hidden_amount : Option ℕ → ℕ → Bool
is_hidden_amount none onchain_balance_sat = false
is_hidden_amount (some amount) onchain_balance_sat = amount == onchain_balance_sat

unfoldable pub is_included : Support → Bool → Lib Bool
is_included sup true = do fees ← determine_resolving_fees sup; pure (is_some fees)
is_included sup false = pure true

unfoldable pub item_if_included : Support → ℕ → Bool → Lib (List ActionRequiredItem)
item_if_included sup sats true = do
  amount ← amount_or_panic (sats_to_amount_down (as_sats sats) (get_exchange_rate sup))
  pure (channel_closes_funds_available amount ∷ [])
item_if_included sup sats false = pure []

unfoldable pub channel_close_items : Support → ℕ → Lib (List ActionRequiredItem)
unfolding available_funds_sats is_hidden_amount is_included item_if_included
channel_close_items sup onchain_balance_sat =
    if ltb cln_dust_limit_sat onchain_balance_sat
    then (do
      utxos ← get_node_utxos sup
      hidden ← on_store retrieve_hidden_channel_close_onchain_funds_amount_sat
      included ← is_included sup (is_hidden_amount hidden onchain_balance_sat)
      item_if_included sup (available_funds_sats onchain_balance_sat utxos) included)
    else pure []

-- `list`, after `query_uncompleted_offers`
unfoldable pub list_items : Support → List OfferInfo → Lib (List ActionRequiredItem)
unfolding shown_swaps channel_close_items
list_items sup uncompleted_offers = do
  hidden ← on_store retrieve_hidden_unresolved_failed_swaps
  swaps ← list_failed_unresolved sup
  failed_swaps ← shown_swaps sup hidden swaps
  info ← get_node_info sup
  closes ← channel_close_items sup info.onchain_balance.sats
  pure (
      map uncompleted_offer uncompleted_offers ++ map unresolved_failed_swap failed_swaps ++ closes)

unfoldable pub list : Parsers → Support → Lib (List ActionRequiredItem)
unfolding list_items
list parsers sup = do
  uncompleted_offers ← query_uncompleted_offers parsers sup
  list_items sup uncompleted_offers

unfoldable pub dismiss_topup : Support → String → Lib (Unit {0})
dismiss_topup sup id = hide_topup sup id

unfoldable pub hide_unrecoverable_channel_close_funds_item : Support → Lib (Unit {0})
hide_unrecoverable_channel_close_funds_item sup = do
  info ← get_node_info sup
  on_store (store_hidden_channel_close_onchain_funds_amount_sat info.onchain_balance.sats)

unfoldable pub hide_unrecoverable_failed_swap_item : FailedSwapInfo → Lib (Unit {0})
hide_unrecoverable_failed_swap_item s = on_store (store_hidden_unresolved_failed_swap s.address)
