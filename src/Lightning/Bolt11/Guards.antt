-- ===== src/Lightning/Bolt11/Guards.antt =====
-- What holds when an invoice is paid.
use lipa_lightning_lib.Prelude.{
  ◌<◌, ◌*◌, ◌%◌, ◌^◌, ◌⊎◌, inl, inr, Bool-cases, ◌==◌, ℕ, String, true, not, Option, none, some,
  or_err-ok, runtime_error, str_eq, eq_iff, ◌≡◌, ◌≢◌, refl, arith, List, ◌∷◌,
}
use lipa_lightning_lib.Errors.{PayErrorCode, SendPaymentError}
use lipa_lightning_lib.Amount.{as_sats}
use lipa_lightning_lib.Payment.{InvoiceDetails}
use lipa_lightning_lib.Sdk.{NodeState, Call, World}
use lipa_lightning_lib.Sdk.Broadcasts.{
  Quiet, quiet_rules, Quiet-on_store, Sends, Sends-after, Sends-ask, Sends-lift, Sends-ensure,
  Sends-then, Outcome,
}
use lipa_lightning_lib.Support.{Support, report_send_payment_issue}
use lipa_lightning_lib.Lightning.Bolt11.{pay_open_amount, amount_to_send, after_send}

-- The amount that is sent, in msats: none stands for that of the invoice.
abbrev pub IsAmount : ℕ → Option ℕ → Type 0
IsAmount amount_sat amount =
    ((amount_sat ≡ 0) × (amount ≡ none))
    ⊎ ((0 < amount_sat) × (amount ≡ some (amount_sat * 1000 % 2 ^ 64)))

to_send-IsAmount : (amount_sat : ℕ) → IsAmount amount_sat (amount_to_send amount_sat)
unfolding amount_to_send as_sats
to_send-IsAmount amount_sat = elim (Bool-cases (amount_sat == 0)) [
  | inl e ↦ rw e (inl (ground arith, refl))
  | inr e ↦ rw e (inr (ground arith, refl))
]

-- The call pays the invoice, with the amount if there is one, and the node that the SDK runs is not
-- the payee.
pub record IsPayment (sup : Support) (details : InvoiceDetails) (amount_sat : ℕ) (c : Call)
    : Type 0 where
  pub calls : List Call
  pub state : NodeState
  pub state_eq : sup.sdk.answer_node_info (Call.node_info ∷ calls) ≡ some state
  pub not_self : state.id ≢ details.payee_pub_key
  pub amount : Option ℕ
  pub is_payment : c ≡ Call.send_payment details.invoice amount
  pub is_amount : IsAmount amount_sat amount

after_send-Quiet : (hash : String) (e : Option SendPaymentError) → Quiet (after_send hash e)
unfolding after_send report_send_payment_issue
after_send-Quiet hash none = search quiet_rules depth 24
after_send-Quiet hash (some e) = search quiet_rules depth 24

not-str_eq : (s t : String) → not (str_eq s t) ≡ true → s ≢ t
not-str_eq s t h e = ground (arith, eq_iff s t)

pay-Sends :
    (sup : Support) (now : ℕ) (details : InvoiceDetails) (amount_sat : ℕ)
    → Sends (IsPayment sup details amount_sat) (pay_open_amount sup now details amount_sat)
unfolding pay_open_amount
pay-Sends sup now details amount_sat = Sends-after _ _ (Quiet-on_store _) λ w u e.
    Sends-ask _ _ _ refl λ calls. Sends-lift _ _ λ state state_eq. Sends-ensure _ _ _ λ other.
      Sends-then _ _ _ refl
        (record {
          calls = calls;
          state = state;
          state_eq = or_err-ok _ (runtime_error PayErrorCode.node_unavailable) state_eq;
          not_self = not-str_eq state.id details.payee_pub_key other;
          amount = amount_to_send amount_sat;
          is_payment = refl;
          is_amount = to_send-IsAmount amount_sat;
        })
        (after_send-Quiet details.payment_hash)

-- `Bolt11::pay_open_amount` either fails and asks for no payment, or it asks for exactly one, that of
-- the invoice with the given amount in msats (in wrapping multiplication; none for 0), and then the payee is not the own node.
pub pay_is_guarded :
    (sup : Support) (now : ℕ) (details : InvoiceDetails) (amount_sat : ℕ) (w : World)
    → Outcome (IsPayment sup details amount_sat) w (pay_open_amount sup now details amount_sat w)
pay_is_guarded sup now details amount_sat w = (pay-Sends sup now details amount_sat).at w
