-- ===== src/Activities.antt =====
-- src/activities.rs: the list of activities, from the activities of the SDK's payments, the created
-- invoices and the swap in progress, and the kinds of activities.
pub mod Listed
pub mod Conversion
pub mod Lookup
pub mod Collected
mod Examples
use lipa_lightning_lib.Prelude.{
  ℕ, ◌+◌, String, Bool, true, false, not, Option, none, some, List, [], ◌∷◌, ◌++◌, Result, ok, err,
  invalid_input, leb, str_eq, if◌then◌else◌, filter, filter_map, map, any, take, drop, length, min,
  cons_some, map_option,
}
use lipa_lightning_lib.Errors.{LibError}
use lipa_lightning_lib.DataStore.{CreatedInvoice}
use lipa_lightning_lib.Payment.{PaymentInfo, IncomingPaymentInfo, OutgoingPaymentInfo}
use lipa_lightning_lib.Activity.{
  Activity, incoming_payment, outgoing_payment, offer_claim, swap, reverse_swap, channel_close,
  get_payment_info, get_time, is_pending,
}

-- `sort_by_cached_key` with `Reverse(get_time)`: the latest first, and equal times in their order
insert_by_time : ℕ → Activity → List Activity → List Activity
insert_by_time now x [] = x ∷ []
insert_by_time now x (y ∷ ys) =
    let rest = insert_by_time now x ys in
    if leb (get_time now y) (get_time now x) then x ∷ y ∷ ys else y ∷ rest

unfoldable pub sort_by_time : ℕ → List Activity → List Activity
unfolding insert_by_time
sort_by_time now [] = []
sort_by_time now (x ∷ xs) = insert_by_time now x (sort_by_time now xs)

unfoldable pub hash_of : Activity → Option String
hash_of a = map_option (λ (p : PaymentInfo). p.hash) (get_payment_info a)

-- the conversion of an invoice is an argument, `none` where it fails
unfoldable pub multiplex_activities :
    (CreatedInvoice → Option IncomingPaymentInfo)
    → List Activity
    → List CreatedInvoice
    → List Activity
unfolding hash_of
multiplex_activities payment_from_created_invoice breez_activities created =
    let hashes = filter_map hash_of breez_activities in
    map incoming_payment (
      filter_map payment_from_created_invoice
        (filter (λ i. not (any (λ h. str_eq h i.hash) hashes)) created))
    ++ breez_activities

pub record ListActivitiesResponse : Type 0 where
  pub pending_activities : List Activity
  pub completed_activities : List Activity

abbrev pub leeway_for_pending_payments : ℕ
leeway_for_pending_payments = 30

-- What `list` does with the activities that it has collected: the pending ones among the latest,
-- with the swap in progress, and the latest completed ones.
unfoldable pub list_response : ℕ → ℕ → ℕ → List Activity → Option Activity → ListActivitiesResponse
list_response now number_of_completed number_of_created collected in_progress_swap =
    let activities = sort_by_time now collected in
    let look_for_pending = leeway_for_pending_payments + number_of_created in
    let tail = drop (min look_for_pending (length activities)) activities in
    let head = take (min look_for_pending (length activities)) activities in
    record {
      pending_activities =
          sort_by_time now (filter is_pending head ++ cons_some in_progress_swap []);
      completed_activities =
          take number_of_completed
            (filter (λ a. not (is_pending a)) head ++ filter (λ a. not (is_pending a)) tail);
    }

-- the `match` of `get_incoming_payment`
unfoldable pub incoming_payment_of : Activity → Result LibError IncomingPaymentInfo
incoming_payment_of (incoming_payment i) = ok i
incoming_payment_of (offer_claim i offer) = ok i
incoming_payment_of (swap none s) = err invalid_input
incoming_payment_of (swap (some i) s) = ok i
incoming_payment_of (reverse_swap o r) = err invalid_input
incoming_payment_of (outgoing_payment o) = err invalid_input
incoming_payment_of (channel_close c) = err invalid_input

-- the `match` of `get_outgoing_payment`
unfoldable pub outgoing_payment_of : Activity → Result LibError OutgoingPaymentInfo
outgoing_payment_of (outgoing_payment o) = ok o
outgoing_payment_of (reverse_swap o r) = ok o
outgoing_payment_of (offer_claim i offer) = err invalid_input
outgoing_payment_of (incoming_payment i) = err invalid_input
outgoing_payment_of (channel_close c) = err invalid_input
outgoing_payment_of (swap i s) = err invalid_input
