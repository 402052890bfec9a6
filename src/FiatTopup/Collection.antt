-- ===== src/FiatTopup/Collection.antt =====
-- src/fiat_topup.rs: the collection of an offer. The LNURL-withdraw data that the SDK's `parse` finds
-- in a text, `none` where it finds none, are a parameter.
use lipa_lightning_lib.FiatTopup.Setup.{hide_topup}
use lipa_lightning_lib.Prelude.{
  ℕ, String, Option, none, some, Result, ok, err, panic, or_err, invalid_input, permanent_failure,
  ◌≡◌, refl, add64, or_err-ok,
}
use lipa_lightning_lib.Prelude.Exec.{pure, fail, lift, map_err_of, ◌>>=◌, ◌>>◌}
use lipa_lightning_lib.Errors.{LibError, SdkLnUrlWithdrawError}
use lipa_lightning_lib.Amount.{as_msats, to_amount_up, to_msats}
use lipa_lightning_lib.Offer.{Offer, OfferInfo}
use lipa_lightning_lib.DataStore.{store_created_invoice}
use lipa_lightning_lib.SdkPayment.{
  LnUrlWithdrawRequestData, LnUrlWithdrawResult, succeeded, timed_out, error_status,
}
use lipa_lightning_lib.Sdk.{World, Call, ask, on_store}
use lipa_lightning_lib.Sdk.Broadcasts.{
  Quiet, quiet_rules, Quiet-on_store, Sends, Sends-lift, Sends-then, Outcome,
}
use lipa_lightning_lib.Support.{
  Support, Lib, request, lsp_service_unavailable, store_payment_info_of,
  calculate_lsp_fee_for_amount, amount_or_panic,
}
use lipa_lightning_lib.Onchain.Quotes.{lsp_fee-Quiet}
use lipa_lightning_lib.FiatTopup.Setup.{offer_service_unavailable}

unfoldable pub withdraw_error : SdkLnUrlWithdrawError → LibError
withdraw_error SdkLnUrlWithdrawError.generic = offer_service_unavailable
withdraw_error SdkLnUrlWithdrawError.service_connectivity = offer_service_unavailable
withdraw_error SdkLnUrlWithdrawError.invalid_amount = permanent_failure
withdraw_error SdkLnUrlWithdrawError.invalid_invoice = permanent_failure
withdraw_error SdkLnUrlWithdrawError.invalid_uri = permanent_failure
withdraw_error SdkLnUrlWithdrawError.invoice_no_routing_hints = permanent_failure

-- the fee for a new channel that the payment of an invoice needs, in msats
unfoldable pub channel_opening_fee_msat : Support → Option ℕ → Lib (Option ℕ)
channel_opening_fee_msat sup none = pure none
channel_opening_fee_msat sup (some amount_msat) = do
  params ← lift (or_err sup.cheaper_lsp_fee lsp_service_unavailable)
  amount ← amount_or_panic (to_amount_up (as_msats amount_msat) none)
  response ← calculate_lsp_fee_for_amount sup amount.sats params
  pure (some (to_msats response.lsp_fee))

-- the answers to `lnurl_withdraw`
unfoldable pub after_withdraw :
    Support → ℕ → Offer → Result SdkLnUrlWithdrawError LnUrlWithdrawResult → Lib String
unfolding withdraw_error channel_opening_fee_msat hide_topup
after_withdraw sup now offer (err e) = fail (withdraw_error e)
after_withdraw sup now offer panic = lift panic
after_withdraw sup now offer (ok (timed_out invoice)) = fail offer_service_unavailable
after_withdraw sup now offer (ok error_status) = fail offer_service_unavailable
after_withdraw sup now offer (ok (succeeded invoice)) = do
  hide_topup sup offer.id
  on_store (store_payment_info_of sup now invoice.payment_hash (some offer))
  fee_msat ← channel_opening_fee_msat sup invoice.amount_msat
  map_err_of (λ _. permanent_failure)
      (on_store (
        store_created_invoice invoice.payment_hash invoice.bolt11 fee_msat
          (add64 invoice.timestamp invoice.expiry)))
  pure invoice.payment_hash

unfoldable pub collected :
    Support → ℕ → Offer → Result SdkLnUrlWithdrawError LnUrlWithdrawResult → Lib String
unfolding after_withdraw
collected sup now offer answer = do
  hash ← after_withdraw sup now offer answer
  on_store (store_payment_info_of sup now hash (some offer))
  pure hash

unfoldable pub request_collection :
    (String → Option LnUrlWithdrawRequestData) → Support → ℕ → OfferInfo → Lib String
unfolding collected
request_collection withdraw_data_of sup now offer = do
  lnurlw ← lift (or_err offer.lnurlw invalid_input)
  data_ ← lift (or_err (withdraw_data_of lnurlw) permanent_failure)
  answer ← ask (Call.lnurl_withdraw data_ data_.max_withdrawable) sup.sdk.answer_lnurl_withdraw
  collected sup now offer.offer answer

fee-Quiet :
    (sup : Support) (amount_msat : Option ℕ) → Quiet (channel_opening_fee_msat sup amount_msat)
unfolding channel_opening_fee_msat
fee-Quiet sup none = search (quiet_rules) depth 24
fee-Quiet sup (some amount_msat) = search (quiet_rules, lsp_fee-Quiet) depth 24

after_withdraw-Quiet :
    (sup : Support) (now : ℕ) (offer : Offer)
    (answer : Result SdkLnUrlWithdrawError LnUrlWithdrawResult)
    → Quiet (after_withdraw sup now offer answer)
unfolding after_withdraw request store_payment_info_of
after_withdraw-Quiet sup now offer (err e) = search (quiet_rules) depth 24
after_withdraw-Quiet sup now offer panic = search (quiet_rules) depth 24
after_withdraw-Quiet sup now offer (ok (timed_out invoice)) = search (quiet_rules) depth 24
after_withdraw-Quiet sup now offer (ok error_status) = search (quiet_rules) depth 24
after_withdraw-Quiet sup now offer (ok (succeeded invoice)) =
    search (quiet_rules, fee-Quiet, Quiet-on_store) depth 24

collected-Quiet :
    (sup : Support) (now : ℕ) (offer : Offer)
    (answer : Result SdkLnUrlWithdrawError LnUrlWithdrawResult)
    → Quiet (collected sup now offer answer)
unfolding collected store_payment_info_of
collected-Quiet sup now offer answer =
    search (quiet_rules, after_withdraw-Quiet, Quiet-on_store) depth 24

-- What a collection may ask for: the most that can be withdrawn with the offer's own LNURL.
abbrev pub IsOwnWithdrawal : (String → Option LnUrlWithdrawRequestData) → OfferInfo → Call → Type 0
IsOwnWithdrawal withdraw_data_of offer c =
    (lnurlw : String) × (d : LnUrlWithdrawRequestData) × (offer.lnurlw ≡ some lnurlw)
    × (withdraw_data_of lnurlw ≡ some d)
    × (c ≡ Call.lnurl_withdraw d d.max_withdrawable)

-- A collection of an offer either fails and moves no funds, or makes one withdrawal: of the most
-- that the LNURL of that offer allows.
pub collection_is_guarded :
    (withdraw_data_of : String → Option LnUrlWithdrawRequestData) (sup : Support) (now : ℕ)
    (offer : OfferInfo) (w : World)
    → Outcome
        (IsOwnWithdrawal withdraw_data_of offer)
        w
        (request_collection withdraw_data_of sup now offer w)
unfolding request_collection
collection_is_guarded withdraw_data_of sup now offer w =
    let withdrawal : LnUrlWithdrawRequestData → Lib String = λ d.
      ask (Call.lnurl_withdraw d d.max_withdrawable) sup.sdk.answer_lnurl_withdraw
      >>= collected sup now offer.offer in
    let sends : Sends (IsOwnWithdrawal withdraw_data_of offer)
        (request_collection withdraw_data_of sup now offer) =
      Sends-lift (or_err offer.lnurlw invalid_input)
        (λ lnurlw. lift (or_err (withdraw_data_of lnurlw) permanent_failure) >>= withdrawal)
        λ lnurlw e.
          Sends-lift (or_err (withdraw_data_of lnurlw) permanent_failure) withdrawal λ d f.
            Sends-then (Call.lnurl_withdraw d d.max_withdrawable) sup.sdk.answer_lnurl_withdraw
              (collected sup now offer.offer) refl
              (lnurlw, d, or_err-ok _ invalid_input e, or_err-ok _ permanent_failure f, refl)
              (collected-Quiet sup now offer.offer) in
    sends.at w
