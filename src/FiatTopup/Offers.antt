-- ===== src/FiatTopup/Offers.antt =====
-- Which topups are offered, and what a payout costs.
use lipa_lightning_lib.Prelude.{
  ℕ, ◌+◌, ◌*◌, ◌≤◌, ◌<◌, String, Bool, not, ◌≡◌, ◌≢◌, ap, Option, none, some, List, [], ◌∷◌, ok,
  arith, eq_iff, find, any, filter, str_eq, if◌then◌else◌, Bool-cases, inl, inr,
}
use lipa_lightning_lib.Amount.{Amount, to_msats, to_amount_up}
use lipa_lightning_lib.Amount.Bounds.{InRange}
use lipa_lightning_lib.Offer.{OfferInfo, OfferStatus, TopupInfo}
use lipa_lightning_lib.Activity.{Activity}
use lipa_lightning_lib.Sdk.{World}
use lipa_lightning_lib.Support.{Support}
use lipa_lightning_lib.FiatTopup.{
  claimed_ids, filter_out_recently_claimed_topups, calculate_payout_fee,
}

find_unclaimed :
    (known : String → Bool) (id : String) (topups : List TopupInfo)
    → find (λ (o : TopupInfo). str_eq o.id id) (filter (λ (o : TopupInfo). not (known o.id)) topups)
      ≡ (if known id then none else find (λ (o : TopupInfo). str_eq o.id id) topups)
find_unclaimed known id [] = ground arith
find_unclaimed known id (o ∷ topups) =
    let ih = find_unclaimed known id topups in
    elim (Bool-cases (str_eq o.id id)) [
      | inl e ↦ let same : known o.id ≡ known id = ap known ((eq_iff o.id id).0 e) in ground arith
      | inr e ↦ ground arith
    ]

-- A topup is found by its id among those that are left exactly as before if no succeeded offer claim
-- of the activities has that id, and is not found if one has.
claimed_topups_are_left_out :
    (id : String) (topups : List TopupInfo) (activities : List Activity)
    → find
        (λ (o : TopupInfo). str_eq o.id id)
        (filter_out_recently_claimed_topups topups activities)
      ≡ (if any (λ c. str_eq c id) (claimed_ids activities)
          then none
          else find (λ (o : TopupInfo). str_eq o.id id) topups)
unfolding filter_out_recently_claimed_topups
claimed_topups_are_left_out id topups activities =
    find_unclaimed (λ i. any (λ c. str_eq c i) (claimed_ids activities)) id topups

-- A payout fee is given only for an offer that is neither refunded nor settled and whose LNURL
-- withdraws at most the amount of the offer; it is the difference, rounded up to the next sat.
pub calculate_payout_fee_lem :
    (max_withdrawable_of : String → Option ℕ) (sup : Support) (offer : OfferInfo) (w : World)
    {fee : Amount}
    → InRange (to_msats offer.amount)
    → (calculate_payout_fee max_withdrawable_of sup offer w).0 ≡ ok fee
    → (offer.status ≢ OfferStatus.refunded)
      × (offer.status ≢ OfferStatus.settled)
      × ((lnurlw : String) × (most : ℕ) × (offer.lnurlw ≡ some lnurlw)
          × (max_withdrawable_of lnurlw ≡ some most)
          × (most ≤ to_msats offer.amount)
          × (to_msats offer.amount ≤ most + fee.sats * 1000)
          × (most + fee.sats * 1000 < to_msats offer.amount + 1000))
unfolding calculate_payout_fee to_amount_up
calculate_payout_fee_lem max_withdrawable_of sup offer w h p = ground arith
