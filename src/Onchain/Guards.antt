-- ===== src/Onchain/Guards.antt =====
-- What holds of the amounts when `swap` moves funds to a new swap address.
use lipa_lightning_lib.Prelude.{
  true, ltb, ◌/◌, ℕ, ◌≤◌, ◌<◌, ◌≡◌, refl, some, List, ◌∷◌, ok, or_err, ltb→lt, sub64, map_err-ok,
  or_err-ok, arith,
}
use lipa_lightning_lib.Sdk.{NodeState, OpeningFeeParams, Call, World, RedeemOnchainError}
use lipa_lightning_lib.Sdk.Broadcasts.{
  Quiet, quiet_rules, Quiet-map_err, Sends, Sends-after, Sends-ask, Sends-lift, Sends-ensure,
  Sends-call, Outcome,
}
use lipa_lightning_lib.Support.{
  Support, CalculateLspFeeResponse, calculate_lsp_fee_for_amount, node_unavailable,
  lsp_service_unavailable,
}
use lipa_lightning_lib.Support.FeeOf.{fee_sats, fee-Gives}
use lipa_lightning_lib.Amount.{sats_round_down, as_sats, round}
use lipa_lightning_lib.Onchain.Swap.{
  get_lsp_fee_params, SwapAddressInfo, FailedSwapInfo, create, ensure_swappable, refund, swap,
}
use lipa_lightning_lib.Onchain.ChannelClose
use lipa_lightning_lib.Onchain.Quotes.{create-Quiet, params-Quiet, lsp_fee-Quiet}

-- The amount that arrives at a swap address lies within the limits of the address, and exceeds the
-- fee that the LSP takes of that amount, by the parameters that are valid the longer and the state of the
-- node.
pub record FitsSwap (sup : Support) (address_info : SwapAddressInfo) (sent : ℕ) : Type 0 where
  pub min_le : address_info.min_deposit.sats ≤ sent
  pub le_max : sent ≤ address_info.max_deposit.sats
  pub params : OpeningFeeParams
  pub params_eq : sup.longer_valid_lsp_fee ≡ some params
  pub node : NodeState
  pub asked : List Call
  pub node_eq : sup.sdk.answer_node_info (Call.node_info ∷ asked) ≡ some node
  pub fee_lt : fee_sats sent node params < sent

-- The call refunds the failed swap to a new swap address, at the given rate, and what is left after
-- the fee that the SDK stated for that very transaction fits.
pub record IsGuardedRefund (sup : Support) (info : FailedSwapInfo) (rate : ℕ) (c : Call)
    : Type 0 where
  pub address_info : SwapAddressInfo
  pub before : World
  pub created : (create sup before).0 ≡ ok address_info
  pub calls : List Call
  pub tx_fee_sat : ℕ
  pub prepared :
      sup.sdk.answer_prepare_refund
        (Call.prepare_refund info.address address_info.address rate ∷ calls)
      ≡ some tx_fee_sat
  pub fits : FitsSwap sup address_info (sub64 info.amount.sats tx_fee_sat)
  pub is_refund : c ≡ Call.refund info.address address_info.address rate

ensure_swappable-ok :
    (a : SwapAddressInfo) (n : ℕ) (w : World) {u : Unit {0}}
    → (ensure_swappable a n w).0 ≡ ok u
    → (a.min_deposit.sats ≤ n) × (n ≤ a.max_deposit.sats)
unfolding ensure_swappable
ensure_swappable-ok a n w h = ground arith

swappable-Quiet : (a : SwapAddressInfo) (n : ℕ) → Quiet (ensure_swappable a n)
unfolding ensure_swappable
swappable-Quiet a n = search quiet_rules depth 24

-- The call redeems the on-chain funds to a new swap address, at the given rate, and what is left of
-- the balance after the reserve and the fee that the SDK stated for that transaction fits.
pub record IsGuardedRedeem (sup : Support) (rate : ℕ) (c : Call) : Type 0 where
  pub earlier : List Call
  pub state : NodeState
  pub state_eq : sup.sdk.answer_node_info (Call.node_info ∷ earlier) ≡ some state
  pub address_info : SwapAddressInfo
  pub before : World
  pub created : (create sup before).0 ≡ ok address_info
  pub calls : List Call
  pub tx_fee_sat : ℕ
  pub prepared :
      sup.sdk.answer_prepare_redeem_onchain_funds
        (Call.prepare_redeem_onchain_funds address_info.address rate ∷ calls)
      ≡ ok tx_fee_sat
  pub fits :
      FitsSwap sup address_info (sub64 (sub64 (state.onchain_balance_msat / 1000) 546) tx_fee_sat)
  pub is_redeem : c ≡ Call.redeem_onchain_funds address_info.address rate

params-ok :
    (sup : Support) (w : World) {params : OpeningFeeParams}
    → (get_lsp_fee_params sup w).0 ≡ ok params
    → sup.longer_valid_lsp_fee ≡ some params
unfolding get_lsp_fee_params
params-ok sup w h = or_err-ok sup.longer_valid_lsp_fee lsp_service_unavailable h

-- the state of the node that the fee is computed from
priced :
    (sup : Support) (sent : ℕ) (params : OpeningFeeParams) (w : World)
    {fee : CalculateLspFeeResponse}
    → (calculate_lsp_fee_for_amount sup sent params w).0 ≡ ok fee
    → (node : NodeState) × (asked : List Call) × (sup.sdk.answer_node_info (Call.node_info ∷ asked)
        ≡ some node)
      × (fee.lsp_fee.sats ≡ fee_sats sent node params)
priced sup sent params w h = (fee-Gives sup sent params).at w h

priced_less :
    (sup : Support) (sent : ℕ) (params : OpeningFeeParams) (w : World)
    {fee : CalculateLspFeeResponse}
    (h : (calculate_lsp_fee_for_amount sup sent params w).0 ≡ ok fee)
    → ltb fee.lsp_fee.sats sent ≡ true
    → fee_sats sent (priced sup sent params w h).0 params < sent
priced_less sup sent params w h less =
    let (node, asked, answered, e) = priced sup sent params w h in
    let lt = ltb→lt _ _ less in omega arith

swap-Sends :
    (sup : Support) (info : FailedSwapInfo) (rate : ℕ)
    → Sends (IsGuardedRefund sup info rate) (swap sup info rate)
unfolding swap refund
swap-Sends sup info rate =
    Sends-after _ _ (Quiet-map_err _ _ (create-Quiet sup)) λ w address_info created.
      Sends-ask _ _ _ refl λ calls. Sends-lift _ _ λ tx_fee_sat prepared.
        Sends-after _ _ (swappable-Quiet address_info _) λ w1 u limits.
          Sends-after _ _ (params-Quiet sup) λ w2 params e.
            Sends-after _ _ (lsp_fee-Quiet sup _ params) λ before fee fee_eq.
              Sends-ensure _ _ _ λ fee_lt.
                Sends-call _ _ (λ b. or_err b node_unavailable) refl
                  (record {
                    address_info = address_info;
                    before = w;
                    created = map_err-ok (λ _. node_unavailable) _ created;
                    calls = calls;
                    tx_fee_sat = tx_fee_sat;
                    prepared = or_err-ok _ node_unavailable prepared;
                    fits = record {
                      min_le = (ensure_swappable-ok address_info _ w1 limits).0;
                      le_max = (ensure_swappable-ok address_info _ w1 limits).1;
                      params = params;
                      params_eq = params-ok sup w2 e;
                      node = (priced sup _ params before fee_eq).0;
                      asked = (priced sup _ params before fee_eq).1;
                      node_eq = (priced sup _ params before fee_eq).2;
                      fee_lt = priced_less sup _ params before fee_eq fee_lt;
                    };
                    is_refund = refl;
                  })

-- `Swap::swap` either fails and asks for no transfer of funds, or it asks for exactly one, the refund
-- of the failed swap to a swap address that it created; then the amount left after the fee that the SDK stated
-- for this transaction (in wrapping subtraction) lies within the limits of the address and exceeds
-- the LSP's fee for it, by the parameters that are valid the longer and a state that the node answered:
-- none if the node can receive the amount, otherwise the greater of the proportional part and the
-- minimum, rounded up to sats (in wrapping multiplication).
pub swap_is_guarded :
    (sup : Support) (info : FailedSwapInfo) (rate : ℕ) (w : World)
    → Outcome (IsGuardedRefund sup info rate) w (swap sup info rate w)
swap_is_guarded sup info rate w = (swap-Sends sup info rate).at w

close_swappable-Quiet : (a : SwapAddressInfo) (n : ℕ) → Quiet (ChannelClose.ensure_swappable a n)
unfolding ChannelClose.ensure_swappable
close_swappable-Quiet a n = search quiet_rules depth 24

close_swappable-ok :
    (a : SwapAddressInfo) (n : ℕ) (w : World) {u : Unit {0}}
    → (ChannelClose.ensure_swappable a n w).0 ≡ ok u
    → (a.min_deposit.sats ≤ n) × (n ≤ a.max_deposit.sats)
unfolding ChannelClose.ensure_swappable
close_swappable-ok a n w h = ground arith

close_swap-Sends :
    (sup : Support) (rate : ℕ) → Sends (IsGuardedRedeem sup rate) (ChannelClose.swap sup rate)
unfolding ChannelClose.swap ChannelClose.redeem_onchain_funds ChannelClose.swappable_sats
    sats_round_down as_sats round
close_swap-Sends sup rate = Sends-ask _ _ _ refl λ earlier. Sends-lift _ _ λ state state_eq.
    Sends-after _ _ (Quiet-map_err _ _ (create-Quiet sup)) λ w address_info created.
      Sends-ask _ _ _ refl λ calls. Sends-lift _ _ λ tx_fee_sat prepared.
        Sends-after _ _ (close_swappable-Quiet address_info _) λ w1 u limits.
          Sends-after _ _ (Quiet-map_err _ _ (params-Quiet sup)) λ w2 params e.
            Sends-after _ _ (Quiet-map_err _ _ (lsp_fee-Quiet sup _ params)) λ before fee fee_eq.
              Sends-ensure _ _ _ λ fee_lt.
                Sends-call _ _ (λ b. b) refl
                  (record {
                    earlier = earlier;
                    state = state;
                    state_eq =
                        or_err-ok _ (sup.sdk.node_info_error (Call.node_info ∷ earlier)) state_eq;
                    address_info = address_info;
                    before = w;
                    created = map_err-ok (λ _. RedeemOnchainError.generic) _ created;
                    calls = calls;
                    tx_fee_sat = tx_fee_sat;
                    prepared = prepared;
                    fits = record {
                      min_le = (close_swappable-ok address_info _ w1 limits).0;
                      le_max = (close_swappable-ok address_info _ w1 limits).1;
                      params = params;
                      params_eq =
                          params-ok sup w2 (map_err-ok (λ _. RedeemOnchainError.generic) _ e);
                      node =
                          (priced sup _ params before
                            (map_err-ok (λ _. RedeemOnchainError.generic) _ fee_eq)).0;
                      asked =
                          (priced sup _ params before
                            (map_err-ok (λ _. RedeemOnchainError.generic) _ fee_eq)).1;
                      node_eq =
                          (priced sup _ params before
                            (map_err-ok (λ _. RedeemOnchainError.generic) _ fee_eq)).2;
                      fee_lt =
                          priced_less sup _ params before
                            (map_err-ok (λ _. RedeemOnchainError.generic) _ fee_eq) fee_lt;
                    };
                    is_redeem = refl;
                  })

-- `ChannelClose::swap` either fails and asks for no transfer of funds, or it asks for exactly one, a
-- redemption to a swap address that it created; then the amount left of the node's on-chain balance after the
-- reserve of 546 sats and the stated fee (in wrapping subtraction) lies within the limits of the
-- address and exceeds the LSP's fee for it, by the parameters that are valid the longer and a state that the
-- node answered: none if the node can receive the amount, otherwise the greater of the proportional part
-- and the minimum, rounded up to sats (in wrapping multiplication).
pub close_swap_is_guarded :
    (sup : Support) (rate : ℕ) (w : World)
    → Outcome (IsGuardedRedeem sup rate) w (ChannelClose.swap sup rate w)
close_swap_is_guarded sup rate w = (close_swap-Sends sup rate).at w
