-- ===== src/Offer/ErrorText.antt =====
-- Offer errors are stored as texts: what is read back.
use lipa_lightning_lib.Prelude.{
  ◌≡◌, refl, Option, none, some, String, List, [], ◌∷◌, any, str_eq, eq_iff, false, arith,
}
use lipa_lightning_lib.Offer.{
  PocketOfferError, temporary_failure, permanent_offer_failure, no_route, invoice_expired,
  unexpected, unknown, threshold_exceeded, from_offer_error, to_offer_error,
}

-- The texts that stand for a known error.
abbrev pub reserved_texts : List String
reserved_texts =
    "no_route" ∷ "invoice_expired" ∷ "error" ∷ "threshold_exceeded" ∷ "order_inactive"
    ∷ "companies_unsupported" ∷ "country_unsupported" ∷ "other_risk_detected" ∷ "customer_requested"
    ∷ "account_not_matching" ∷ "payout_expired" ∷ []

-- The message of an unknown failure is none of the reserved texts.
abbrev pub IsStorable : Option PocketOfferError → Type 0
IsStorable (some (temporary_failure (unknown msg))) = any (str_eq msg) reserved_texts ≡ false
IsStorable _ = Unit

-- An offer error, known or unknown, is read back as it was stored, as long as the message of an
-- unknown failure is none of the texts of the known ones.
to-from_offer_error :
    (e : Option PocketOfferError) → IsStorable e → to_offer_error (from_offer_error e) ≡ e
unfolding to_offer_error from_offer_error
to-from_offer_error none h = refl
to-from_offer_error (some (temporary_failure no_route)) h = refl
to-from_offer_error (some (temporary_failure invoice_expired)) h = refl
to-from_offer_error (some (temporary_failure unexpected)) h = refl
to-from_offer_error (some (temporary_failure (unknown msg))) h = ground arith
to-from_offer_error (some (permanent_offer_failure threshold_exceeded)) h = refl
to-from_offer_error (some (permanent_offer_failure _)) h = refl

-- Every stored text is the text of the error that is read from it, so no two texts are read alike.
from-to_offer_error : (t : Option String) → from_offer_error (to_offer_error t) ≡ t
unfolding to_offer_error from_offer_error
from-to_offer_error none = refl
from-to_offer_error (some c) = ground (
  arith,
  eq_iff c "no_route",
  eq_iff c "invoice_expired",
  eq_iff c "error",
  eq_iff c "threshold_exceeded",
  eq_iff c "order_inactive",
  eq_iff c "companies_unsupported",
  eq_iff c "country_unsupported",
  eq_iff c "other_risk_detected",
  eq_iff c "customer_requested",
  eq_iff c "account_not_matching",
  eq_iff c "payout_expired",
)
