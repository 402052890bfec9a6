-- ===== src/Lightning/Lnurl.antt =====
-- src/lightning/lnurl.rs: payments with LNURL-pay and LNURL-withdraw.
pub mod Metadata
mod Examples
use lipa_lightning_lib.Prelude.{
  ℕ, String, Bool, true, false, not, Option, none, some, List, [], ◌∷◌, Result, ok, err, panic,
  runtime_error, invalid_input, Error, map_err, ltb, str_eq, if◌then◌else◌, byte_len,
}
use lipa_lightning_lib.Prelude.Exec.{Exec, pure, fail, lift, ensure, ◌>>=◌, ◌>>◌}
use lipa_lightning_lib.Config.{ExchangeRate}
use lipa_lightning_lib.Errors.{
  LnUrlPayErrorCode, LnUrlWithdrawErrorCode, map_lnurl_pay_error, map_lnurl_withdraw_error,
}
use lipa_lightning_lib.Amount.{Amount, as_sats, as_msats, to_amount_up}
use lipa_lightning_lib.Payment.{LnInvoice}
use lipa_lightning_lib.SdkPayment.{
  LnUrlPayRequestData, LnUrlWithdrawRequestData, LnUrlPayResult, endpoint_success, endpoint_error,
  pay_error, LnUrlWithdrawResult, succeeded, timed_out, error_status,
}
use lipa_lightning_lib.Sdk.{World, Call, ask, on_store}
use lipa_lightning_lib.Support.{Support, store_payment_info_of, report_send_payment_issue}

abbrev pub LnurlPay : Type 0 → Type 0
LnurlPay A = Exec World (Error LnUrlPayErrorCode) A

abbrev pub LnurlWithdraw : Type 0 → Type 0
LnurlWithdraw A = Exec World (Error LnUrlWithdrawErrorCode) A

-- The length of a comment is that of its UTF-8 encoding.
unfoldable pub is_too_long : Option String → ℕ → Bool
is_too_long none comment_allowed = false
is_too_long (some comment) comment_allowed = ltb comment_allowed (byte_len comment)

-- the `match` on the result of `lnurl_pay`
unfoldable pub payment_hash_of : LnUrlPayResult → LnurlPay String
payment_hash_of (endpoint_success id) = pure id
payment_hash_of endpoint_error = fail (runtime_error LnUrlPayErrorCode.ln_url_server_error)
payment_hash_of (pay_error payment_hash) = do
  report_send_payment_issue payment_hash
  fail (runtime_error LnUrlPayErrorCode.payment_failed)

unfoldable pub pay : Support → ℕ → LnUrlPayRequestData → ℕ → Option String → LnurlPay String
unfolding is_too_long payment_hash_of
pay sup now data_ amount_sat comment = do
  ensure (not (is_too_long comment data_.comment_allowed)) invalid_input
  answer ← ask (Call.lnurl_pay data_ (as_sats amount_sat).msats comment) sup.sdk.answer_lnurl_pay
  result ← lift (map_err map_lnurl_pay_error answer)
  payment_hash ← payment_hash_of result
  on_store (store_payment_info_of sup now payment_hash none)
  pure payment_hash

-- the `match` on the result of `lnurl_withdraw`
unfoldable pub withdrawn_hash_of : LnUrlWithdrawResult → LnurlWithdraw String
withdrawn_hash_of (succeeded invoice) = pure invoice.payment_hash
withdrawn_hash_of (timed_out invoice) = pure invoice.payment_hash
withdrawn_hash_of error_status = fail (runtime_error LnUrlWithdrawErrorCode.ln_url_server_error)

unfoldable pub withdraw : Support → ℕ → LnUrlWithdrawRequestData → ℕ → LnurlWithdraw String
unfolding withdrawn_hash_of
withdraw sup now data_ amount_sat = do
  answer ← ask (Call.lnurl_withdraw data_ (as_sats amount_sat).msats) sup.sdk.answer_lnurl_withdraw
  result ← lift (map_err map_lnurl_withdraw_error answer)
  payment_hash ← withdrawn_hash_of result
  on_store (store_payment_info_of sup now payment_hash none)
  pure payment_hash

-- the SDK's `MetadataItem`
pub record MetadataItem : Type 0 where
  pub key : String
  pub value : String

-- what `parse_metadata` fails with
pub data MetadataError : Type 0 where
  invalid_json missing_short_description : MetadataError

-- the loop of `parse_metadata`, with its two variables
unfoldable pub scan_metadata : List MetadataItem → String → Option String → String × Option String
scan_metadata [] short_description long_description = (short_description, long_description)
scan_metadata (item ∷ items) short_description long_description =
    scan_metadata items (if str_eq item.key "text/plain" then item.value else short_description) (
      if str_eq item.key "text/plain"
      then long_description
      else if str_eq item.key "text/long-desc"
      then some item.value
      else long_description)

unfoldable pub ensure_described :
    String × Option String → Result MetadataError (String × Option String)
ensure_described d = if str_eq d.0 "" then err missing_short_description else ok d

-- of the items of the JSON text, `none` where it is none
unfoldable pub parse_metadata :
    Option (List MetadataItem) → Result MetadataError (String × Option String)
unfolding scan_metadata ensure_described
parse_metadata none = err invalid_json
parse_metadata (some items) = ensure_described (scan_metadata items "" none)

pub record LnUrlPayDetails : Type 0 where
  pub domain : String
  pub short_description : String
  pub long_description : Option String
  pub min_sendable : Amount
  pub max_sendable : Amount
  pub max_comment_length : ℕ
  pub request_data : LnUrlPayRequestData

-- `items_of` parses JSON; a panic is that of a rate of 0
unfoldable pub from_lnurl_pay_request_data :
    (String → Option (List MetadataItem))
    → LnUrlPayRequestData
    → Option ExchangeRate
    → Result MetadataError LnUrlPayDetails
from_lnurl_pay_request_data items_of data_ rate =
    elim (parse_metadata (items_of data_.metadata_str)) [
      | err e ↦ err e
      | panic ↦ panic
      | ok d ↦ elim (to_amount_up (as_msats data_.min_sendable) rate) [
        | none ↦ panic
        | some least ↦ elim (to_amount_up (as_msats data_.max_sendable) rate) [
          | none ↦ panic
          | some most ↦ ok (record {
            domain = data_.domain;
            short_description = d.0;
            long_description = d.1;
            min_sendable = least;
            max_sendable = most;
            max_comment_length = data_.comment_allowed;
            request_data = data_;
          })
        ]
      ]
    ]

pub record LnUrlWithdrawDetails : Type 0 where
  pub min_withdrawable : Amount
  pub max_withdrawable : Amount
  pub request_data : LnUrlWithdrawRequestData

-- `none` is the panic of the conversion with a rate of 0
unfoldable pub from_lnurl_withdraw_request_data :
    LnUrlWithdrawRequestData → Option ExchangeRate → Option LnUrlWithdrawDetails
from_lnurl_withdraw_request_data data_ rate =
    elim (to_amount_up (as_msats data_.min_withdrawable) rate) [
      | none ↦ none
      | some least ↦ elim (to_amount_up (as_msats data_.max_withdrawable) rate) [
        | none ↦ none
        | some most ↦
            some
              (record { min_withdrawable = least; max_withdrawable = most; request_data = data_ })
      ]
    ]
