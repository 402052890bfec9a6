-- ===== src/Offer.antt =====
-- src/offer.rs, and the offer errors of src/data_store.rs. The codes and the topup are the types of
-- the `crow` crate, with the constructors and fields that the source names.
pub mod ErrorText
use lipa_lightning_lib.Prelude.{ℕ, String, Option, none, some, str_eq, if◌then◌else◌}
use lipa_lightning_lib.Config.{ExchangeRate}
use lipa_lightning_lib.Amount.{Amount, as_sats, sats_to_amount_down}

pub data TemporaryFailureCode : Type 0 where
  no_route invoice_expired unexpected : TemporaryFailureCode
  unknown : String → TemporaryFailureCode

pub data PermanentFailureCode : Type 0 where
  threshold_exceeded order_inactive companies_unsupported : PermanentFailureCode
  country_unsupported other_risk_detected customer_requested : PermanentFailureCode
  account_not_matching payout_expired : PermanentFailureCode

pub data PocketOfferError : Type 0 where
  temporary_failure : TemporaryFailureCode → PocketOfferError
  permanent_offer_failure : PermanentFailureCode → PocketOfferError

offer_error_text : PocketOfferError → String
offer_error_text (temporary_failure no_route) = "no_route"
offer_error_text (temporary_failure invoice_expired) = "invoice_expired"
offer_error_text (temporary_failure unexpected) = "error"
offer_error_text (temporary_failure (unknown msg)) = msg
offer_error_text (permanent_offer_failure threshold_exceeded) = "threshold_exceeded"
offer_error_text (permanent_offer_failure order_inactive) = "order_inactive"
offer_error_text (permanent_offer_failure companies_unsupported) = "companies_unsupported"
offer_error_text (permanent_offer_failure country_unsupported) = "country_unsupported"
offer_error_text (permanent_offer_failure other_risk_detected) = "other_risk_detected"
offer_error_text (permanent_offer_failure customer_requested) = "customer_requested"
offer_error_text (permanent_offer_failure account_not_matching) = "account_not_matching"
offer_error_text (permanent_offer_failure payout_expired) = "payout_expired"

unfoldable pub from_offer_error : Option PocketOfferError → Option String
unfolding offer_error_text
from_offer_error none = none
from_offer_error (some e) = some (offer_error_text e)

text_offer_error : String → PocketOfferError
text_offer_error c =
    if str_eq c "no_route"
    then temporary_failure no_route
    else if str_eq c "invoice_expired"
    then temporary_failure invoice_expired
    else if str_eq c "error"
    then temporary_failure unexpected
    else if str_eq c "threshold_exceeded"
    then permanent_offer_failure threshold_exceeded
    else if str_eq c "order_inactive"
    then permanent_offer_failure order_inactive
    else if str_eq c "companies_unsupported"
    then permanent_offer_failure companies_unsupported
    else if str_eq c "country_unsupported"
    then permanent_offer_failure country_unsupported
    else if str_eq c "other_risk_detected"
    then permanent_offer_failure other_risk_detected
    else if str_eq c "customer_requested"
    then permanent_offer_failure customer_requested
    else if str_eq c "account_not_matching"
    then permanent_offer_failure account_not_matching
    else if str_eq c "payout_expired"
    then permanent_offer_failure payout_expired
    else temporary_failure (unknown c)

unfoldable pub to_offer_error : Option String → Option PocketOfferError
unfolding text_offer_error
to_offer_error none = none
to_offer_error (some c) = some (text_offer_error c)

pub data OfferStatus : Type 0 where
  ready failed refunded settled : OfferStatus

pub record Offer : Type 0 where
  pub id : String
  pub exchange_rate : ExchangeRate
  pub topup_value_minor_units : ℕ
  pub topup_value_sats : Option ℕ
  pub exchange_fee_minor_units : ℕ
  pub exchange_fee_rate_permyriad : ℕ
  pub lightning_payout_fee : Option Amount
  pub error : Option PocketOfferError

pub record OfferInfo : Type 0 where
  pub offer : Offer
  pub amount : Amount
  pub lnurlw : Option String
  pub created_at : ℕ
  pub expires_at : Option ℕ
  pub status : OfferStatus

-- the `crow` crate's `TopupStatus` and `TopupInfo`
pub data TopupStatus : Type 0 where
  ready failed refunded settled : TopupStatus

pub record TopupInfo : Type 0 where
  pub id : String
  pub status : TopupStatus
  pub amount_sat : ℕ
  pub topup_value_minor_units : ℕ
  pub exchange_fee_rate_permyriad : ℕ
  pub exchange_fee_minor_units : ℕ
  pub exchange_rate : ExchangeRate
  pub expires_at : Option ℕ
  pub lnurlw : Option String
  pub error : Option PocketOfferError

offer_status : TopupStatus → OfferStatus
offer_status TopupStatus.ready = OfferStatus.ready
offer_status TopupStatus.failed = OfferStatus.failed
offer_status TopupStatus.refunded = OfferStatus.refunded
offer_status TopupStatus.settled = OfferStatus.settled

offer_info : TopupInfo → Amount → OfferInfo
unfolding offer_status
offer_info t amount = record {
  offer = record {
    id = t.id;
    exchange_rate = t.exchange_rate;
    topup_value_minor_units = t.topup_value_minor_units;
    topup_value_sats = some t.amount_sat;
    exchange_fee_minor_units = t.exchange_fee_minor_units;
    exchange_fee_rate_permyriad = t.exchange_fee_rate_permyriad;
    lightning_payout_fee = none;
    error = t.error;
  };
  amount = amount;
  lnurlw = t.lnurlw;
  created_at = t.exchange_rate.updated_at;
  expires_at = t.expires_at;
  status = offer_status t.status;
}

-- `OfferInfo::from`, which panics where the current rate is 0
unfoldable pub offer_info_from : TopupInfo → Option ExchangeRate → Option OfferInfo
unfolding offer_info
offer_info_from t current_rate = elim (sats_to_amount_down (as_sats t.amount_sat) current_rate) [
  | none ↦ none
  | some amount ↦ some (offer_info t amount)
]
