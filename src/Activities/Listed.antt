-- ===== src/Activities/Listed.antt =====
-- What `list` returns: its order, and which activities it has.
use lipa_lightning_lib.Prelude.{
  ℕ, zero, suc, ◌+◌, ◌≤◌, Bool, true, false, not, ◌≡◌, refl, ap, ◌∙◌, Option, none, some, List, [],
  ◌∷◌, ◌++◌, is_ok, is_some, arith, leb, leb→le, filter, filter_map, map, any, take, length, min,
  cons_some, All, Bool-cases, Option-cases, String, str_eq, ◌⊎◌, inl, inr,
}
use lipa_lightning_lib.Prelude.Sublists.{
  All-take, filter-cases, All-filter, All-mono, filter-satisfied, filter-take-drop, All-append,
  count-append, take-min, length-take,
}
use lipa_lightning_lib.Activity.{
  Activity, incoming_payment, outgoing_payment, offer_claim, swap, reverse_swap, channel_close,
  get_time, is_pending, get_payment_info,
}
use lipa_lightning_lib.DataStore.{CreatedInvoice}
use lipa_lightning_lib.Payment.{IncomingPaymentInfo}
use lipa_lightning_lib.Activities.{
  insert_by_time, sort_by_time, hash_of, list_response, incoming_payment_of, outgoing_payment_of,
  multiplex_activities, leeway_for_pending_payments,
}

-- The activities stand from the latest to the oldest.
abbrev pub IsLatestFirst : ℕ → List Activity → Type 0
IsLatestFirst now [] = Unit
IsLatestFirst now (x ∷ xs) = All (λ y. get_time now y ≤ get_time now x) xs × IsLatestFirst now xs

module _ (now : ℕ) where
  take-IsLatestFirst :
      (n : ℕ) (xs : List Activity) → IsLatestFirst now xs → IsLatestFirst now (take n xs)
  take-IsLatestFirst zero xs h = tt
  take-IsLatestFirst (suc n) [] h = tt
  take-IsLatestFirst (suc n) (x ∷ xs) (p, h) = (All-take _ n xs p, take-IsLatestFirst n xs h)

  filter-IsLatestFirst :
      (p : Activity → Bool) (xs : List Activity)
      → IsLatestFirst now xs
      → IsLatestFirst now (filter p xs)
  filter-IsLatestFirst p [] h = tt
  filter-IsLatestFirst p (x ∷ xs) (q, h) =
      filter-cases (IsLatestFirst now) (p x) _ _ (All-filter _ p xs q, filter-IsLatestFirst p xs h)
        (filter-IsLatestFirst p xs h)

  All-insert_by_time :
      (P : Activity → Type 0) (x : Activity) (xs : List Activity)
      → P x
      → All P xs
      → All P (insert_by_time now x xs)
  unfolding insert_by_time
  All-insert_by_time P x [] p h = (p, tt)
  All-insert_by_time P x (y ∷ ys) p (q, h) =
      filter-cases (All P) (leb (get_time now y) (get_time now x)) _ _ (p, (q, h))
        (q, All-insert_by_time P x ys p h)

  insert_by_time-IsLatestFirst :
      (x : Activity) (xs : List Activity)
      → IsLatestFirst now xs
      → IsLatestFirst now (insert_by_time now x xs)
  unfolding insert_by_time
  insert_by_time-IsLatestFirst x [] h = (tt, tt)
  insert_by_time-IsLatestFirst x (y ∷ ys) (q, h) =
      elim (Bool-cases (leb (get_time now y) (get_time now x))) [
        | inl e ↦ let le = leb→le _ _ e in rw e ((le, All-mono ys (λ z k. omega arith) q), (q, h))
        | inr e ↦
            rw e (All-insert_by_time _ x ys (ground arith) q, insert_by_time-IsLatestFirst x ys h)
      ]

  count-insert_by_time :
      (p : Activity → Bool) (x : Activity) (xs : List Activity)
      → length (filter p (insert_by_time now x xs)) ≡ length (filter p (x ∷ xs))
  unfolding insert_by_time
  count-insert_by_time p x [] = refl
  count-insert_by_time p x (y ∷ ys) = ground (arith, count-insert_by_time p x ys)

  sort_by_time-IsLatestFirst : (xs : List Activity) → IsLatestFirst now (sort_by_time now xs)
  unfolding sort_by_time
  sort_by_time-IsLatestFirst [] = tt
  sort_by_time-IsLatestFirst (x ∷ xs) =
      insert_by_time-IsLatestFirst x (sort_by_time now xs) (sort_by_time-IsLatestFirst xs)

  All-sort_by_time :
      (P : Activity → Type 0) (xs : List Activity) → All P xs → All P (sort_by_time now xs)
  unfolding sort_by_time
  All-sort_by_time P [] h = tt
  All-sort_by_time P (x ∷ xs) (p, h) = All-insert_by_time P x _ p (All-sort_by_time P xs h)

  -- Sorting keeps how many activities satisfy a test.
  count-sort_by_time :
      (p : Activity → Bool) (xs : List Activity)
      → length (filter p (sort_by_time now xs)) ≡ length (filter p xs)
  unfolding sort_by_time
  count-sort_by_time p [] = refl
  count-sort_by_time p (x ∷ xs) =
      ground (arith, count-insert_by_time p x (sort_by_time now xs), count-sort_by_time p xs)

-- The completed activities are the first ones, as many as asked for, of the activities that are not
-- pending, from the latest to the oldest. The list that they are taken from stands from the latest to
-- the oldest, and as many of it pass a test, whichever test, as of the collected activities.
pub completed_activities_lem :
    (now n created : ℕ) (collected : List Activity) (in_progress : Option Activity)
    (p : Activity → Bool)
    → IsLatestFirst now (sort_by_time now collected)
      × (length (filter p (sort_by_time now collected)) ≡ length (filter p collected))
      × ((list_response now n created collected in_progress).completed_activities
          ≡ take n (filter (λ a. not (is_pending a)) (sort_by_time now collected)))
      × IsLatestFirst now (list_response now n created collected in_progress).completed_activities
      × (length (list_response now n created collected in_progress).completed_activities ≤ n)
      × All
          (λ a. not (is_pending a) ≡ true)
          (list_response now n created collected in_progress).completed_activities
unfolding list_response
completed_activities_lem now n created collected in_progress p =
    let q = λ (a : Activity). not (is_pending a) in
    let xs = sort_by_time now collected in
    let e = filter-take-drop q (min (leeway_for_pending_payments + created) (length xs)) xs in
    let sorted = filter-IsLatestFirst now q xs (sort_by_time-IsLatestFirst now collected) in
    rw e (
      sort_by_time-IsLatestFirst now collected,
      count-sort_by_time now p collected,
      refl,
      take-IsLatestFirst now n (filter q xs) sorted,
      length-take n (filter q xs),
      All-take (λ a. q a ≡ true) n (filter q xs) (filter-satisfied q xs),
    )

-- Where the swap in progress counts as pending, the pending activities are all pending and stand
-- from the latest to the oldest; whatever is counted, there are as many of it as among the pending
-- ones of the latest 30 activities and one more for each created invoice, and the swap in progress.
pending_activities_lem :
    (now n created : ℕ) (collected : List Activity) (in_progress : Option Activity)
    (p : Activity → Bool)
    → All (λ a. is_pending a ≡ true) (cons_some in_progress [])
    → All
        (λ a. is_pending a ≡ true)
        (list_response now n created collected in_progress).pending_activities
      × IsLatestFirst now (list_response now n created collected in_progress).pending_activities
      × (length (filter p (list_response now n created collected in_progress).pending_activities)
          ≡ length (filter p (filter is_pending (take (30 + created) (sort_by_time now collected))))
            + length (filter p (cons_some in_progress [])))
unfolding list_response
pending_activities_lem now n created collected in_progress p h =
    let k = leeway_for_pending_payments + created in
    let xs = sort_by_time now collected in
    let head = filter is_pending (take (min k (length xs)) xs) in
    (
      All-sort_by_time now (λ a. is_pending a ≡ true) (head ++ cons_some in_progress [])
          (All-append (λ a. is_pending a ≡ true) head _ (filter-satisfied is_pending _) h),
      sort_by_time-IsLatestFirst now (head ++ cons_some in_progress []),
      count-sort_by_time now p (head ++ cons_some in_progress [])
          ∙ count-append p head (cons_some in_progress [])
          ∙ ap
              (λ l.
                length (filter p (filter is_pending l))
                + length (filter p (cons_some in_progress [])))
              (take-min k xs),
    )

-- An activity that has payment info is exactly one of an incoming and an outgoing payment; an
-- activity that has none (a channel close, a swap in progress) is neither.
pub incoming_or_outgoing :
    (a : Activity)
    → ((is_some (get_payment_info a) ≡ true)
        × (((is_ok (incoming_payment_of a) ≡ true) × (is_ok (outgoing_payment_of a) ≡ false))
            ⊎ ((is_ok (incoming_payment_of a) ≡ false) × (is_ok (outgoing_payment_of a) ≡ true))))
      ⊎ ((is_some (get_payment_info a) ≡ false)
          × (is_ok (incoming_payment_of a) ≡ false)
          × (is_ok (outgoing_payment_of a) ≡ false))
unfolding get_payment_info incoming_payment_of outgoing_payment_of
incoming_or_outgoing (incoming_payment i) = inl (refl, inl (refl, refl))
incoming_or_outgoing (outgoing_payment o) = inl (refl, inr (refl, refl))
incoming_or_outgoing (offer_claim i offer) = inl (refl, inl (refl, refl))
incoming_or_outgoing (swap none s) = inr (refl, refl, refl)
incoming_or_outgoing (swap (some i) s) = inl (refl, inl (refl, refl))
incoming_or_outgoing (reverse_swap o r) = inl (refl, inr (refl, refl))
incoming_or_outgoing (channel_close c) = inr (refl, refl, refl)

kept :
    (convert : CreatedInvoice → Option IncomingPaymentInfo)
    (same_hash : (i : CreatedInvoice) (p : IncomingPaymentInfo)
      → convert i ≡ some p
      → p.payment_info.hash ≡ i.hash)
    (known : String → Bool) (created : List CreatedInvoice)
    → All
        (λ p. known p.payment_info.hash ≡ false)
        (filter_map convert (filter (λ i. not (known i.hash)) created))
kept convert same_hash known [] = tt
kept convert same_hash known (i ∷ created) =
    let ih = kept convert same_hash known created in
    elim (Bool-cases (known i.hash)) [
      | inl e ↦ rw e ih
      | inr e ↦ elim (Option-cases (convert i)) [
        | inl c ↦ rw (e, c) ih
        | inr (p, c) ↦ rw (e, c) ((ap known (same_hash i p c) ∙ e), ih)
      ]
    ]

-- Where the conversion of an invoice keeps its hash, the created invoices add payments to the
-- activities of the SDK, in front of them, and none whose hash an activity of the SDK has.
multiplex_activities_lem :
    (convert : CreatedInvoice → Option IncomingPaymentInfo) (breez : List Activity)
    (created : List CreatedInvoice)
    → ((i : CreatedInvoice) (p : IncomingPaymentInfo)
        → convert i ≡ some p
        → p.payment_info.hash ≡ i.hash)
    → (added : List IncomingPaymentInfo) × (multiplex_activities convert breez created
        ≡ map incoming_payment added ++ breez)
      × All (λ p. any (λ h. str_eq h p.payment_info.hash) (filter_map hash_of breez) ≡ false) added
unfolding multiplex_activities
multiplex_activities_lem convert breez created same_hash = (
  _,
  refl,
  kept convert same_hash (λ x. any (λ h. str_eq h x) (filter_map hash_of breez)) created,
)
