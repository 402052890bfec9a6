-- ===== src/Errors.antt =====
-- src/errors.rs: the codes of runtime errors, and how the errors of the Breez SDK are mapped to
-- them. An error of the SDK keeps its constructor and loses its text.
use lipa_lightning_lib.Prelude.{ℕ, Error, invalid_input, permanent_failure, runtime_error}

pub data RuntimeErrorCode : Type 0 where
  auth_service_unavailable offer_service_unavailable lsp_service_unavailable : RuntimeErrorCode
  backup_service_unavailable backup_not_found node_unavailable : RuntimeErrorCode

-- `crate::errors::Error`
abbrev pub LibError : Type 0
LibError = Error RuntimeErrorCode

pub data PayErrorCode : Type 0 where
  already_used_invoice invoice_expired no_route_found paying_to_self payment_failed : PayErrorCode
  payment_timeout route_too_expensive node_unavailable unexpected_error : PayErrorCode

pub data LnUrlPayErrorCode : Type 0 where
  ln_url_server_error no_route_found payment_failed payment_timeout : LnUrlPayErrorCode
  route_too_expensive service_connectivity unexpected_error invalid_network : LnUrlPayErrorCode

pub data LnUrlWithdrawErrorCode : Type 0 where
  ln_url_server_error service_connectivity unexpected_error : LnUrlWithdrawErrorCode

pub data NotificationHandlingErrorCode : Type 0 where
  node_unavailable in_progress_swap_not_found : NotificationHandlingErrorCode
  expected_payment_not_received insufficient_inbound_liquidity : NotificationHandlingErrorCode
  lipa_service_unavailable : NotificationHandlingErrorCode
  notification_disabled_in_notification_toggles : NotificationHandlingErrorCode

pub data ParsePhoneNumberError : Type 0 where
  parsing_error missing_country_code invalid_country_code : ParsePhoneNumberError
  invalid_phone_number unsupported_country : ParsePhoneNumberError

pub data ParsePhoneNumberPrefixError : Type 0 where
  incomplete unsupported_country : ParsePhoneNumberPrefixError
  invalid_character : ℕ → ParsePhoneNumberPrefixError

-- the SDK's `SendPaymentError`
pub data SendPaymentError : Type 0 where
  already_paid generic invalid_amount invalid_invoice invoice_expired : SendPaymentError
  payment_failed payment_timeout route_not_found route_too_expensive : SendPaymentError
  service_connectivity invalid_network : SendPaymentError

unfoldable pub map_send_payment_error : SendPaymentError → Error PayErrorCode
map_send_payment_error SendPaymentError.already_paid =
    runtime_error PayErrorCode.already_used_invoice
map_send_payment_error SendPaymentError.generic = runtime_error PayErrorCode.unexpected_error
map_send_payment_error SendPaymentError.invalid_amount = invalid_input
map_send_payment_error SendPaymentError.invalid_invoice = invalid_input
map_send_payment_error SendPaymentError.invoice_expired = runtime_error PayErrorCode.invoice_expired
map_send_payment_error SendPaymentError.payment_failed = runtime_error PayErrorCode.payment_failed
map_send_payment_error SendPaymentError.payment_timeout = runtime_error PayErrorCode.payment_timeout
map_send_payment_error SendPaymentError.route_not_found = runtime_error PayErrorCode.no_route_found
map_send_payment_error SendPaymentError.route_too_expensive =
    runtime_error PayErrorCode.route_too_expensive
map_send_payment_error SendPaymentError.service_connectivity =
    runtime_error PayErrorCode.node_unavailable
map_send_payment_error SendPaymentError.invalid_network = invalid_input

-- the SDK's `LnUrlPayError`
pub data SdkLnUrlPayError : Type 0 where
  invalid_uri already_paid generic invalid_amount invalid_invoice invoice_expired : SdkLnUrlPayError
  payment_failed payment_timeout route_not_found route_too_expensive : SdkLnUrlPayError
  service_connectivity invalid_network : SdkLnUrlPayError

unfoldable pub map_lnurl_pay_error : SdkLnUrlPayError → Error LnUrlPayErrorCode
map_lnurl_pay_error SdkLnUrlPayError.invalid_uri = invalid_input
map_lnurl_pay_error SdkLnUrlPayError.already_paid = permanent_failure
map_lnurl_pay_error SdkLnUrlPayError.generic = runtime_error LnUrlPayErrorCode.unexpected_error
map_lnurl_pay_error SdkLnUrlPayError.invalid_amount =
    runtime_error LnUrlPayErrorCode.ln_url_server_error
map_lnurl_pay_error SdkLnUrlPayError.invalid_invoice =
    runtime_error LnUrlPayErrorCode.ln_url_server_error
map_lnurl_pay_error SdkLnUrlPayError.invoice_expired = permanent_failure
map_lnurl_pay_error SdkLnUrlPayError.payment_failed = runtime_error LnUrlPayErrorCode.payment_failed
map_lnurl_pay_error SdkLnUrlPayError.payment_timeout =
    runtime_error LnUrlPayErrorCode.payment_timeout
map_lnurl_pay_error SdkLnUrlPayError.route_not_found =
    runtime_error LnUrlPayErrorCode.no_route_found
map_lnurl_pay_error SdkLnUrlPayError.route_too_expensive =
    runtime_error LnUrlPayErrorCode.route_too_expensive
map_lnurl_pay_error SdkLnUrlPayError.service_connectivity =
    runtime_error LnUrlPayErrorCode.service_connectivity
map_lnurl_pay_error SdkLnUrlPayError.invalid_network =
    runtime_error LnUrlPayErrorCode.invalid_network

-- the SDK's `LnUrlWithdrawError`
pub data SdkLnUrlWithdrawError : Type 0 where
  generic invalid_amount invalid_invoice invalid_uri : SdkLnUrlWithdrawError
  service_connectivity invoice_no_routing_hints : SdkLnUrlWithdrawError

unfoldable pub map_lnurl_withdraw_error : SdkLnUrlWithdrawError → Error LnUrlWithdrawErrorCode
map_lnurl_withdraw_error SdkLnUrlWithdrawError.generic =
    runtime_error LnUrlWithdrawErrorCode.unexpected_error
map_lnurl_withdraw_error SdkLnUrlWithdrawError.invalid_amount = invalid_input
map_lnurl_withdraw_error SdkLnUrlWithdrawError.invalid_invoice = permanent_failure
map_lnurl_withdraw_error SdkLnUrlWithdrawError.invalid_uri = invalid_input
map_lnurl_withdraw_error SdkLnUrlWithdrawError.service_connectivity =
    runtime_error LnUrlWithdrawErrorCode.service_connectivity
map_lnurl_withdraw_error SdkLnUrlWithdrawError.invoice_no_routing_hints = permanent_failure

unfoldable pub from_runtime_error : RuntimeErrorCode → NotificationHandlingErrorCode
from_runtime_error _ = NotificationHandlingErrorCode.node_unavailable

-- `map_runtime_error_using(NotificationHandlingErrorCode::from_runtime_error)`
unfoldable pub to_notification_error : LibError → Error NotificationHandlingErrorCode
unfolding from_runtime_error
to_notification_error invalid_input = invalid_input
to_notification_error permanent_failure = permanent_failure
to_notification_error (runtime_error c) = runtime_error (from_runtime_error c)
