-- ===== src/Lightning/Examples.antt =====
-- The theorems on routing fees at the sample node.
use lipa_lightning_lib.Prelude.{◌+◌, ◌*◌, ◌≤◌, ◌<◌, ◌≡◌, ◌↔◌, refl, none, some, ok, arith, ◌∷◌, []}
use lipa_lightning_lib.Amount.{as_sats, sats_to_amount_up, permyriad_of, to_msats}
use lipa_lightning_lib.Sdk.{NodeState, Call, ask, on_store}
use lipa_lightning_lib.Support.{node_state, get_exchange_rate, store_payment_info_of}
use lipa_lightning_lib.Payment.{InvoiceDetails}
use lipa_lightning_lib.Sdk.Broadcasts.{broadcasts, Outcome}
use lipa_lightning_lib.Db.{insert_history, insert_payment}
use lipa_lightning_lib.Db.Connection.{statement, settle}
use lipa_lightning_lib.DataStore.{
  store_payment_info, store_payment_rows, insert_exchange_rate_snapshot, insert_rates,
  insert_offer_if_any, payment_row,
}
use lipa_lightning_lib.Lightning.Bolt11.{pay_open_amount, amount_to_send, after_send}
use lipa_lightning_lib.Lightning.Bolt11.Guards.{IsPayment, pay_is_guarded}
use lipa_lightning_lib.Sample.{sample_support, sample_world}
use lipa_lightning_lib.Lightning.{
  absolute, affordable, not_enough_funds, get_payment_max_routing_fee_mode,
  determine_max_routing_fee_mode, max_fee_msats, affordability, determine_payment_affordability,
}
use lipa_lightning_lib.Lightning.Fees.{routing_fee, determine_payment_affordability_correct}

mode_eq :
    get_payment_max_routing_fee_mode sample_support.max_routing_fee_config 1000 none
    ≡ some (absolute (record { sats = 21; fiat = none }))
unfolding get_payment_max_routing_fee_mode permyriad_of as_sats sats_to_amount_up
mode_eq = refl

affordable_eq :
    (determine_payment_affordability sample_support 50000 sample_world).0 ≡ ok affordable
unfolding determine_payment_affordability affordability max_fee_msats determine_max_routing_fee_mode
    get_payment_max_routing_fee_mode node_state get_exchange_rate ask permyriad_of as_sats
    sats_to_amount_up to_msats
affordable_eq = refl

routing_fee_eq : routing_fee sample_support.max_routing_fee_config 50000 ≡ 750000
unfolding permyriad_of as_sats
routing_fee_eq = refl

determine_payment_affordability_correct_example :
    (state : NodeState) × (sample_support.sdk.answer_node_info (Call.node_info ∷ sample_world.calls)
      ≡ some state)
    × (affordable ≡ not_enough_funds ↔ (state.max_payable_msat < 50000 * 1000))
    × (affordable ≡ affordable ↔ (
        50000 * 1000 + routing_fee sample_support.max_routing_fee_config 50000
        ≤ state.max_payable_msat))
determine_payment_affordability_correct_example =
    determine_payment_affordability_correct sample_support 50000 sample_world (omega arith)
      (rw routing_fee_eq (omega arith)) affordable_eq

abbrev invoice_details : InvoiceDetails
invoice_details = record {
  invoice = "lnbc";
  amount = none;
  description = "";
  payment_hash = "hash";
  payee_pub_key = "payee";
  creation_timestamp = 4;
  expiry_interval = 60;
  expiry_timestamp = 64;
}

-- the sample node pays the invoice
paid :
    broadcasts (pay_open_amount sample_support 9 invoice_details 5 sample_world).1
    ≡ Call.send_payment "lnbc" (some 5000) ∷ []
unfolding pay_open_amount amount_to_send after_send on_store store_payment_info_of
    store_payment_info store_payment_rows insert_exchange_rate_snapshot insert_rates insert_history
    insert_payment insert_offer_if_any payment_row statement settle as_sats ask
paid = refl

pay_is_guarded_example :
    Outcome
      (IsPayment sample_support invoice_details 5)
      sample_world
      (pay_open_amount sample_support 9 invoice_details 5 sample_world)
pay_is_guarded_example = pay_is_guarded sample_support 9 invoice_details 5 sample_world
