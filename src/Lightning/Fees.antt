-- ===== src/Lightning/Fees.antt =====
-- The routing fee that a payment may cost, and what can be afforded with it.
use lipa_lightning_lib.Prelude.{
  ℕ, ◌+◌, ◌*◌, ◌≤◌, ◌<◌, ◌≡◌, ◌↔◌, Option, some, ◌∷◌, ok, u64_mod, arith, max, or_err-ok,
  Option-cases, inl, inr,
}
use lipa_lightning_lib.Prelude.Exec.{>>=-ok, pure, ◌>>=◌}
use lipa_lightning_lib.Config.{ExchangeRate, MaxRoutingFeeConfig}
use lipa_lightning_lib.Amount.{Amount, as_sats, to_msats, permyriad_of, sats_to_amount_up}
use lipa_lightning_lib.Amount.Bounds.{InRange}
use lipa_lightning_lib.Sdk.{NodeState, Call, World, ask}
use lipa_lightning_lib.Support.{Support, get_exchange_rate, node_state, node_unavailable}
use lipa_lightning_lib.Lightning.{
  PaymentAffordability, not_enough_funds, affordable, MaxRoutingFeeMode,
  get_payment_max_routing_fee_mode, determine_max_routing_fee_mode, max_fee_msats, affordability,
  determine_payment_affordability,
}

-- The greatest routing fee of a payment, in msats.
abbrev pub routing_fee : MaxRoutingFeeConfig → ℕ → ℕ
routing_fee config amount_sat =
    max (permyriad_of config.max_routing_fee_permyriad (as_sats amount_sat)).msats
      (config.max_routing_fee_exempt_fee_sats * 1000)

up_back :
    (n : ℕ) (rate : Option ExchangeRate) {a : Amount}
    → InRange (n * 1000)
    → sats_to_amount_up (as_sats n) rate ≡ some a
    → to_msats a ≡ n * 1000
unfolding sats_to_amount_up as_sats to_msats
up_back n rate h p = ground arith

-- Whichever mode is chosen, the fee that it allows is the greater of the relative fee and the
-- exempt fee, if the exempt fee in msats fits a `u64`.
max_fee_msats-mode :
    (config : MaxRoutingFeeConfig) (amount_sat : ℕ) (rate : Option ExchangeRate)
    {m : MaxRoutingFeeMode}
    → InRange (config.max_routing_fee_exempt_fee_sats * 1000)
    → get_payment_max_routing_fee_mode config amount_sat rate ≡ some m
    → max_fee_msats m amount_sat ≡ routing_fee config amount_sat
unfolding get_payment_max_routing_fee_mode max_fee_msats as_sats
max_fee_msats-mode config amount_sat rate h p =
    elim (Option-cases (sats_to_amount_up (as_sats config.max_routing_fee_exempt_fee_sats) rate)) [
      | inl none_eq ↦ ground arith
      | inr (a, e) ↦
          let back = up_back config.max_routing_fee_exempt_fee_sats rate h e in ground arith
    ]

mode_of :
    (sup : Support) (amount_sat : ℕ) (w : World) {m : MaxRoutingFeeMode}
    → (determine_max_routing_fee_mode sup amount_sat w).0 ≡ ok m
    → get_payment_max_routing_fee_mode sup.max_routing_fee_config amount_sat (get_exchange_rate sup)
      ≡ some m
unfolding determine_max_routing_fee_mode
mode_of sup amount_sat w h = ground arith

-- `affordability`, of an amount and a fee that are equal to given ones.
decided :
    (amount fee a f payable : ℕ) {answer : PaymentAffordability}
    → amount + fee < u64_mod
    → a ≡ amount
    → f ≡ fee
    → affordability a f payable ≡ answer
    → (answer ≡ not_enough_funds ↔ (payable < amount))
      × (answer ≡ affordable ↔ (amount + fee ≤ payable))
unfolding affordability
decided amount fee a f payable h p q r = ground arith

msats_eq : (n k : ℕ) → n * 1000 + k < u64_mod → (as_sats n).msats ≡ n * 1000
unfolding as_sats
msats_eq n k h = omega arith

-- Where the exempt fee and the sum fit a `u64`, the answer of `determine_payment_affordability` is
-- that of comparing the amount, and the amount with its greatest routing fee, with what the node
-- says that it can pay.
pub determine_payment_affordability_correct :
    (sup : Support) (amount_sat : ℕ) (w : World) {answer : PaymentAffordability}
    → InRange (sup.max_routing_fee_config.max_routing_fee_exempt_fee_sats * 1000)
    → amount_sat * 1000 + routing_fee sup.max_routing_fee_config amount_sat < u64_mod
    → (determine_payment_affordability sup amount_sat w).0 ≡ ok answer
    → (state : NodeState) × (sup.sdk.answer_node_info (Call.node_info ∷ w.calls) ≡ some state)
      × (answer ≡ not_enough_funds ↔ (state.max_payable_msat < amount_sat * 1000))
      × (answer ≡ affordable ↔ (
          amount_sat * 1000 + routing_fee sup.max_routing_fee_config amount_sat
          ≤ state.max_payable_msat))
unfolding determine_payment_affordability node_state determine_max_routing_fee_mode ask
determine_payment_affordability_correct sup amount_sat w h k p =
    let decide = λ (m : MaxRoutingFeeMode) (state : NodeState).
      affordability (as_sats amount_sat).msats (max_fee_msats m amount_sat)
        state.max_payable_msat in
    let (m, e, q, _) =
      >>=-ok (determine_max_routing_fee_mode sup amount_sat)
        (λ m. node_state sup >>= λ state. pure (decide m state)) w p in
    let (state, f, r, _) = >>=-ok (node_state sup) (λ state. pure (decide m state)) w q in
    let same =
      max_fee_msats-mode sup.max_routing_fee_config amount_sat (get_exchange_rate sup) h
        (mode_of sup amount_sat w e) in
    let (x, y) =
      decided (amount_sat * 1000) (routing_fee sup.max_routing_fee_config amount_sat)
        (as_sats amount_sat).msats (max_fee_msats m amount_sat) state.max_payable_msat k
        (msats_eq amount_sat _ k) same (cc) in
    (state, or_err-ok _ node_unavailable f, x, y)
