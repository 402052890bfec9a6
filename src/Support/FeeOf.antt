-- ===== src/Support/FeeOf.antt =====
-- The fee of the LSP that is compared, from the answer of the node.
use lipa_lightning_lib.Prelude.{
  ℕ, ◌/◌, ◌≡◌, inl, inr, refl, ◌∙◌, Option, none, some, ok, arith, or_panic, or_err-ok, mul64,
  add64, max, List, ◌∷◌, Bool-cases, ltb, if◌then◌else◌,
}
use lipa_lightning_lib.Prelude.Exec.{◌>>=◌}
use lipa_lightning_lib.Config.{ExchangeRate}
use lipa_lightning_lib.Amount.{
  Amount, Rounding, up, down, round, msats_to_amount, to_amount_up, to_amount_down, as_msats,
}
use lipa_lightning_lib.Sdk.{NodeState, OpeningFeeParams, Call, ask}
use lipa_lightning_lib.Support.Gives.{Gives, Gives-pure, Gives-bind}
use lipa_lightning_lib.Support.{
  Support, Lib, amount_or_panic, node_unavailable, NodeInfo, node_state, get_node_info,
  get_exchange_rate, lsp_fee_msat, CalculateLspFeeResponse, calculate_lsp_fee_for_amount,
}

-- The fee for a payment of some sats, in sats, rounded up: none is due if the node can receive the amount,
-- and otherwise it is the greater of the proportional part and the minimum, with the wrap-around of u64.
abbrev pub fee_sats : ℕ → NodeState → OpeningFeeParams → ℕ
fee_sats sent state params =
    if ltb (state.max_receivable_single_payment_amount_msat / 1000) sent
    then add64 (max (mul64 (mul64 sent params.proportional / 1000000) 1000) params.min_msat) 999
      / 1000
    else 0

sats_of :
    (rounding : Rounding) (msats : ℕ) (rate : Option ExchangeRate) {a : Amount}
    → msats_to_amount rounding msats rate ≡ some a
    → a.sats ≡ round msats rounding
unfolding msats_to_amount
sats_of rounding msats none h = ground arith
sats_of rounding msats (some r) h = ground arith

or_panic-some :
    {E : Type 0} (o : Option Amount) {a : Amount} → or_panic {E = E} o ≡ ok a → o ≡ some a
or_panic-some none h = cc
or_panic-some (some b) h = cc

fee_of :
    (sent receivable_sats : ℕ) (state : NodeState) (params : OpeningFeeParams)
    → receivable_sats ≡ state.max_receivable_single_payment_amount_msat / 1000
    → round (lsp_fee_msat sent receivable_sats params) up ≡ fee_sats sent state params
unfolding round lsp_fee_msat
fee_of sent receivable_sats state params e =
    rw e (elim (Bool-cases (ltb (state.max_receivable_single_payment_amount_msat / 1000) sent)) [
      | inl h ↦ rw h refl
      | inr h ↦ rw h refl
    ])

module _ (sup : Support) where
  amount-Gives :
      (rounding : Rounding) (msats : ℕ) (rate : Option ExchangeRate)
      → Gives
          (λ (a : Amount). a.sats ≡ round msats rounding)
          (amount_or_panic (msats_to_amount rounding msats rate))
  amount-Gives rounding msats rate = record {
    at = λ w h. sats_of rounding msats rate (or_panic-some (msats_to_amount rounding msats rate) h);
  }

  -- the node's answer to a question for its state
  Answered : NodeState → Type 0
  Answered state =
      (calls : List Call) × (sup.sdk.answer_node_info (Call.node_info ∷ calls) ≡ some state)

  node_state-Gives : Gives Answered (node_state sup)
  unfolding node_state ask Answered
  node_state-Gives = record { at = λ w h. (w.calls, or_err-ok _ node_unavailable h) }

  Receives : NodeInfo → Type 0
  Receives info =
      (state : NodeState) × Answered state
      × (info.channels_info.max_receivable_single_payment.sats
          ≡ state.max_receivable_single_payment_amount_msat / 1000)

  down-bind :
      {B : Type 0} {Q : B → Type 0} (msats : ℕ) (f : Amount → Lib B)
      → ((a : Amount) → a.sats ≡ msats / 1000 → Gives Q (f a))
      → Gives Q (amount_or_panic (to_amount_down (as_msats msats) (get_exchange_rate sup)) >>= f)
  unfolding to_amount_down round
  down-bind msats f hf =
      Gives-bind (amount_or_panic (msats_to_amount down msats (get_exchange_rate sup))) f
        (amount-Gives down msats (get_exchange_rate sup)) hf

  info-Gives : Gives Receives (get_node_info sup)
  unfolding get_node_info Receives
  info-Gives = Gives-bind (node_state sup) _ node_state-Gives λ state answered.
      down-bind state.onchain_balance_msat _ λ onchain _.
        down-bind state.channels_balance_msat _ λ local _.
          down-bind state.max_receivable_single_payment_amount_msat _ λ received e.
            down-bind state.total_inbound_liquidity_msats _ λ inbound _.
              down-bind state.max_payable_msat _ λ outbound _. Gives-pure _ _ (state, answered, e)

  -- What the fee that is compared is computed from.
  pub fee-Gives :
      (sent : ℕ) (params : OpeningFeeParams)
      → Gives
          (λ (fee : CalculateLspFeeResponse).
            (state : NodeState) × (calls : List Call) × (sup.sdk.answer_node_info
                (Call.node_info ∷ calls)
              ≡ some state)
            × (fee.lsp_fee.sats ≡ fee_sats sent state params))
          (calculate_lsp_fee_for_amount sup sent params)
  unfolding calculate_lsp_fee_for_amount lsp_fee_msat to_amount_up Receives Answered round
  fee-Gives sent params =
      Gives-bind (get_node_info sup) _ info-Gives λ info (state, (calls, answered), e).
        Gives-bind
          (amount_or_panic (
            msats_to_amount up
              (lsp_fee_msat sent info.channels_info.max_receivable_single_payment.sats params)
              (get_exchange_rate sup)))
          _
          (amount-Gives up
            (lsp_fee_msat sent info.channels_info.max_receivable_single_payment.sats params)
            (get_exchange_rate sup))
          λ fee f. Gives-pure _ _ (state, calls, answered, f ∙ fee_of sent _ state params e)
