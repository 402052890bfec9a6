-- ===== src/Activities/Examples.antt =====
-- The theorems on activities at a few channel closes and invoices.
use lipa_lightning_lib.Prelude.{
  ℕ, ◌≤◌, pos, String, true, not, ◌≡◌, refl, ap, sym, Option, none, some, List, [], ◌∷◌, filter,
  take, length, cons_some, All,
}
use lipa_lightning_lib.Amount.{zero_amount}
use lipa_lightning_lib.DataStore.{CreatedInvoice}
use lipa_lightning_lib.Payment.{PaymentState, IncomingPaymentInfo}
use lipa_lightning_lib.Activity.{
  Activity, ChannelCloseState, incoming_payment, channel_close, swap, is_pending, get_time,
  get_payment_info,
}
use lipa_lightning_lib.Activities.{sort_by_time, list_response, multiplex_activities, hash_of}
use lipa_lightning_lib.Activities.Listed.{IsLatestFirst, completed_activities_lem}

abbrev closed : ℕ → Activity
closed time = channel_close (record {
  amount = zero_amount;
  state = ChannelCloseState.confirmed;
  closed_at = some (record { time = time; timezone_id = "Bern"; timezone_utc_offset_secs = pos 0 });
  closing_tx_id = "tx";
})

abbrev closing : Activity
closing = channel_close (record {
  amount = zero_amount;
  state = ChannelCloseState.pending;
  closed_at = none;
  closing_tx_id = "";
})

abbrev collected : List Activity
collected = closed 3 ∷ closing ∷ closed 8 ∷ closed 5 ∷ []

completed_eq :
    (list_response 100 2 0 collected none).completed_activities ≡ closed 8 ∷ closed 5 ∷ []
unfolding list_response sort_by_time is_pending get_time
completed_eq = refl

completed_activities_lem_example :
    IsLatestFirst 100 (sort_by_time 100 collected)
    × (length (filter is_pending (sort_by_time 100 collected))
        ≡ length (filter is_pending collected))
    × ((list_response 100 2 0 collected none).completed_activities
        ≡ take 2 (filter (λ a. not (is_pending a)) (sort_by_time 100 collected)))
    × IsLatestFirst 100 (list_response 100 2 0 collected none).completed_activities
    × (length (list_response 100 2 0 collected none).completed_activities ≤ 2)
    × All
        (λ a. not (is_pending a) ≡ true)
        (list_response 100 2 0 collected none).completed_activities
completed_activities_lem_example = completed_activities_lem 100 2 0 collected none is_pending

abbrev in_progress : Activity
in_progress = swap none (record {
  bitcoin_address = "new";
  created_at = record { time = 90; timezone_id = "Bern"; timezone_utc_offset_secs = pos 0 };
  paid_amount = zero_amount;
})

in_progress_pending : All (λ a. is_pending a ≡ true) (cons_some (some in_progress) [])
unfolding is_pending
in_progress_pending = (refl, tt)

abbrev incoming : CreatedInvoice → IncomingPaymentInfo
incoming i = record {
  payment_info = record {
    payment_state = PaymentState.created;
    hash = i.hash;
    amount = zero_amount;
    invoice_details = record {
      invoice = i.invoice;
      amount = none;
      description = "";
      payment_hash = i.hash;
      payee_pub_key = "key";
      creation_timestamp = 4;
      expiry_interval = 60;
      expiry_timestamp = 64;
    };
    created_at = record { time = 4; timezone_id = "Bern"; timezone_utc_offset_secs = pos 0 };
    description = "";
    preimage = none;
    personal_note = none;
  };
  requested_amount = zero_amount;
  lsp_fees = zero_amount;
  received_on = none;
  received_lnurl_comment = none;
}

abbrev convert : CreatedInvoice → Option IncomingPaymentInfo
convert i = some (incoming i)

convert_hash :
    (i : CreatedInvoice) (p : IncomingPaymentInfo)
    → convert i ≡ some p
    → p.payment_info.hash ≡ i.hash
convert_hash i p h = let e : incoming i ≡ p = cc in ap (λ q. q.payment_info.hash) (sym e)

abbrev invoice : String → CreatedInvoice
invoice hash = record { hash = hash; invoice = "lnbc"; channel_opening_fees = none }

abbrev known : List Activity
known = incoming_payment (incoming (invoice "a")) ∷ closed 3 ∷ []

multiplexed :
    multiplex_activities convert known (invoice "a" ∷ invoice "b" ∷ [])
    ≡ incoming_payment (incoming (invoice "b")) ∷ known
unfolding multiplex_activities hash_of get_payment_info
multiplexed = refl
