-- ===== src/Activities/Collected.antt =====
-- src/activities.rs: `list`, with its calls. `now` is the time of the system.
use lipa_lightning_lib.Prelude.{
  ℕ, ◌+◌, ◌%◌, true, not, Option, none, some, List, [], ◌∷◌, ◌++◌, or_err, str_eq, filter,
  filter_map, map, any, length, cons_some, add64,
}
use lipa_lightning_lib.Prelude.Exec.{pure, lift, ◌>>=◌}
use lipa_lightning_lib.Config.{with_timezone}
use lipa_lightning_lib.Amount.{as_sats, sats_to_amount_down}
use lipa_lightning_lib.Payment.{IncomingPaymentInfo}
use lipa_lightning_lib.Payment.Conversion.{Parsers}
use lipa_lightning_lib.Activity.{Activity, incoming_payment, swap}
use lipa_lightning_lib.SdkPayment.{sent, received, closed_channel}
use lipa_lightning_lib.DataStore.{CreatedInvoice}
use lipa_lightning_lib.DataStore.Invoices.{retrieve_created_invoices}
use lipa_lightning_lib.Sdk.{Call, SdkSwapInfo, ask, on_store}
use lipa_lightning_lib.Support.{Support, Lib, amount_or_panic, node_unavailable, get_exchange_rate}
use lipa_lightning_lib.Activities.{
  hash_of, ListActivitiesResponse, leeway_for_pending_payments, list_response,
}
use lipa_lightning_lib.Activities.Lookup.{
  unless_corrupted, valid_activities, payment_from_created_invoice,
}

unfoldable pub unpaid_invoices : List Activity → List CreatedInvoice → List CreatedInvoice
unfolding hash_of
unpaid_invoices breez_activities created =
    let hashes = filter_map hash_of breez_activities in
    filter (λ i. not (any (λ h. str_eq h i.hash) hashes)) created

module _ (parsers : Parsers) (sup : Support) (now : ℕ) where
  -- the payments of created invoices, without those whose data are corrupted
  unfoldable pub valid_payments : List CreatedInvoice → Lib (List IncomingPaymentInfo)
  valid_payments [] = pure []
  valid_payments (i ∷ created) = do
    info ← unless_corrupted (payment_from_created_invoice parsers sup now i)
    rest ← valid_payments created
    pure (cons_some info rest)

  -- `multiplex_activities`, with the conversion of the invoices
  unfoldable pub multiplex : List Activity → List CreatedInvoice → Lib (List Activity)
  unfolding unpaid_invoices valid_payments
  multiplex breez_activities created = do
    payments ← valid_payments (unpaid_invoices breez_activities created)
    pure (map incoming_payment payments ++ breez_activities)

  unfoldable pub swap_in_progress : Option SdkSwapInfo → Lib (Option Activity)
  swap_in_progress none = pure none
  swap_in_progress (some s) = do
    paid_amount ← amount_or_panic (
        sats_to_amount_down (as_sats (add64 s.unconfirmed_sats s.confirmed_sats))
          (get_exchange_rate sup))
    pure (
        some (
          swap none (record {
            bitcoin_address = s.bitcoin_address;
            created_at = with_timezone s.created_at sup.user_preferences.timezone_config;
            paid_amount = paid_amount;
          })))

  -- the limit is a u32
  unfoldable pub list : ℕ → Lib ListActivitiesResponse
  unfolding multiplex swap_in_progress
  list number_of_completed_activities = do
    answer ←
        ask
          (Call.list_payments (sent ∷ received ∷ closed_channel ∷ []) true
            (some ((number_of_completed_activities + leeway_for_pending_payments) % 4294967296)))
          sup.sdk.answer_list_payments
    payments ← lift (or_err answer node_unavailable)
    breez_activities ← valid_activities parsers sup payments
    created_invoices ← on_store (retrieve_created_invoices now number_of_completed_activities)
    activities ← multiplex breez_activities created_invoices
    asked ← ask Call.in_progress_swap sup.sdk.answer_in_progress_swap
    found ← lift (or_err asked node_unavailable)
    in_progress_swap ← swap_in_progress found
    pure (
        list_response now number_of_completed_activities (length created_invoices) activities
          in_progress_swap)
