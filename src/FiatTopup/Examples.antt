-- ===== src/FiatTopup/Examples.antt =====
-- The theorems on topups at concrete offers.
use lipa_lightning_lib.Prelude.{
  ℕ, ◌+◌, ◌*◌, ◌≤◌, ◌<◌, String, ◌≡◌, ◌≢◌, refl, none, some, ok, arith,
}
use lipa_lightning_lib.Amount.{Amount, to_msats, as_sats, to_amount_up}
use lipa_lightning_lib.Offer.{OfferInfo, OfferStatus, TopupInfo, TopupStatus}
use lipa_lightning_lib.Support.{get_exchange_rate}
use lipa_lightning_lib.SdkPayment.{LnUrlWithdrawRequestData}
use lipa_lightning_lib.Sdk.Broadcasts.{Outcome}
use lipa_lightning_lib.FiatTopup.Collection.{
  IsOwnWithdrawal, request_collection, collection_is_guarded,
}
use lipa_lightning_lib.Sample.{sample_rate, sample_support, sample_world}
use lipa_lightning_lib.FiatTopup.{calculate_payout_fee}
use lipa_lightning_lib.FiatTopup.Offers.{calculate_payout_fee_lem}

abbrev topup : String → TopupInfo
topup id = record {
  id = id;
  status = TopupStatus.ready;
  amount_sat = 2500;
  topup_value_minor_units = 10000;
  exchange_fee_rate_permyriad = 150;
  exchange_fee_minor_units = 150;
  exchange_rate = sample_rate;
  expires_at = none;
  lnurlw = some "lnurl";
  error = none;
}

abbrev ready_offer : OfferInfo
ready_offer = record {
  offer = record {
    id = "a";
    exchange_rate = sample_rate;
    topup_value_minor_units = 10000;
    topup_value_sats = some 2500;
    exchange_fee_minor_units = 150;
    exchange_fee_rate_permyriad = 150;
    lightning_payout_fee = none;
    error = none;
  };
  amount = record { sats = 2500; fiat = none };
  lnurlw = some "lnurl";
  created_at = 5;
  expires_at = none;
  status = OfferStatus.ready;
}

abbrev payout_fee : Amount
payout_fee = record {
  sats = 11;
  fiat = some (record { minor_units = 1; currency_code = "EUR"; rate = 4123; converted_at = 5 });
}

payout_fee_eq :
    (calculate_payout_fee (λ _. some 2489500) sample_support ready_offer sample_world).0
    ≡ ok payout_fee
unfolding calculate_payout_fee to_msats as_sats to_amount_up get_exchange_rate
payout_fee_eq = refl

ready_msats : to_msats ready_offer.amount ≡ 2500000
unfolding to_msats as_sats
ready_msats = refl

calculate_payout_fee_lem_example :
    (ready_offer.status ≢ OfferStatus.refunded)
    × (ready_offer.status ≢ OfferStatus.settled)
    × ((lnurlw : String) × (most : ℕ) × (ready_offer.lnurlw ≡ some lnurlw)
        × (some 2489500 ≡ some most)
        × (most ≤ to_msats ready_offer.amount)
        × (to_msats ready_offer.amount ≤ most + payout_fee.sats * 1000)
        × (most + payout_fee.sats * 1000 < to_msats ready_offer.amount + 1000))
calculate_payout_fee_lem_example =
    calculate_payout_fee_lem (λ _. some 2489500) sample_support ready_offer sample_world
      (rw ready_msats (omega arith)) payout_fee_eq

abbrev withdraw_data : LnUrlWithdrawRequestData
withdraw_data = record {
  callback = "https://lipa.swiss";
  min_withdrawable = 1;
  max_withdrawable = 9000;
}

collection_is_guarded_example :
    Outcome
      (IsOwnWithdrawal (λ _. some withdraw_data) ready_offer)
      sample_world
      (request_collection (λ _. some withdraw_data) sample_support 7 ready_offer sample_world)
collection_is_guarded_example =
    collection_is_guarded (λ _. some withdraw_data) sample_support 7 ready_offer sample_world
