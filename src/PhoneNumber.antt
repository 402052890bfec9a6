-- ===== src/PhoneNumber.antt =====
-- src/phone_number.rs: phone numbers, and the lightning addresses that stand for them. What the
-- crate `phonenumber` makes of a text is a parameter, and so is the encryption of a number.
pub mod RoundTrip
pub mod Prefix
mod Examples
use lipa_lightning_lib.Prelude.{
  ℕ, String, Char, Bool, true, false, Option, none, some, List, [], ◌∷◌, text_append, Result, ok,
  err, panic, invalid_input, permanent_failure, or_err, map_err, find, filter_map, any, str_eq,
  if◌then◌else◌, starts_with_char, strip_prefix_char, strip_suffix, replace_first, all_chars,
  is_ascii_digit,
}
use lipa_lightning_lib.Prelude.Exec.{pure, lift, ◌>>=◌, ◌>>◌}
use lipa_lightning_lib.Errors.{
  LibError, ParsePhoneNumberError, parsing_error, missing_country_code, invalid_country_code,
  invalid_phone_number, unsupported_country,
}
use lipa_lightning_lib.DataStore.Addresses.{
  enabled, store_lightning_address, retrieve_lightning_addresses, with_status,
}
use lipa_lightning_lib.Sdk.{Call, on_store}
use lipa_lightning_lib.Support.{Support, Lib, request, auth_service_unavailable}

-- a number that was parsed: whether it is valid, its E164 format, and the id of its country
pub record Number : Type 0 where
  pub is_valid : Bool
  pub e164 : String
  pub country : Option String

-- `none` is the error for a missing country code
pub record PhoneNumberCrate : Type 0 where
  pub parse : String → Result (Option (Unit {0})) Number
  -- the hexadecimal encryption of a number under the key of the wallet
  pub encrypted : String → Option String

pub record PhoneNumberRecipient : Type 0 where
  pub e164 : String
  pub country_code : String

unfoldable pub recipient_of : Number → Result ParsePhoneNumberError PhoneNumberRecipient
recipient_of number =
    if number.is_valid
    then elim number.country [
      | none ↦ err invalid_country_code
      | some c ↦ ok (record { e164 = number.e164; country_code = c })
    ]
    else err invalid_phone_number

-- `PhoneNumberRecipient::parse`
unfoldable pub parse_recipient :
    Result (Option (Unit {0})) Number → Result ParsePhoneNumberError PhoneNumberRecipient
unfolding recipient_of
parse_recipient (err none) = err missing_country_code
parse_recipient (err (some _)) = err parsing_error
parse_recipient panic = panic
parse_recipient (ok number) = recipient_of number

unfoldable pub ensure_supported :
    List String
    → Result ParsePhoneNumberError PhoneNumberRecipient
    → Result ParsePhoneNumberError PhoneNumberRecipient
ensure_supported countries (err e) = err e
ensure_supported countries panic = panic
ensure_supported countries (ok r) =
    if any (λ c. str_eq c r.country_code) countries then ok r else err unsupported_country

unfoldable pub to_lightning_address : String → String → String
to_lightning_address e164 domain = text_append (replace_first "+" "-" e164) domain

unfoldable pub phone_number_of : Option String → Option String
phone_number_of none = none
phone_number_of (some username) =
    if all_chars is_ascii_digit username then some (text_append "+" username) else none

unfoldable pub username_of : Option String → String → Option String
username_of none domain = none
username_of (some rest) domain = strip_suffix rest domain

unfoldable pub lightning_address_to_phone_number : String → String → Option String
unfolding phone_number_of username_of
lightning_address_to_phone_number address domain =
    phone_number_of (username_of (strip_prefix_char "-" address) domain)

-- the `and_then` of `get`
unfoldable pub phone_number_at : Support → Option String → Option String
phone_number_at sup none = none
phone_number_at sup (some a) = lightning_address_to_phone_number a sup.lipa_lightning_domain

unfoldable pub get : Support → Lib (Option String)
unfolding phone_number_at
get sup = do
  l ← on_store retrieve_lightning_addresses
  pure (phone_number_at sup (find (starts_with_char "-") (filter_map (with_status enabled) l)))

module _ (crate : PhoneNumberCrate) (sup : Support) where
  unfoldable pub parse_phone_number : String → Result ParsePhoneNumberError PhoneNumberRecipient
  unfolding parse_recipient ensure_supported
  parse_phone_number number =
      ensure_supported sup.allowed_countries_country_iso_3166_1_alpha_2
        (parse_recipient (crate.parse number))

  unfoldable pub parse_to_lightning_address : String → Result ParsePhoneNumberError String
  unfolding parse_phone_number
  parse_to_lightning_address number = elim (parse_phone_number number) [
    | err e ↦ err e
    | panic ↦ panic
    | ok r ↦ ok (to_lightning_address r.e164 sup.lipa_lightning_domain)
  ]

  unfoldable pub register : String → Lib (Unit {0})
  register number = do
    r ← lift (map_err (λ _. invalid_input) (parse_phone_number number))
    encrypted ← lift (or_err (crate.encrypted r.e164) permanent_failure)
    request (Call.request_phone_number_verification r.e164 encrypted)
        sup.services.answer_request_phone_number_verification auth_service_unavailable

  unfoldable pub verify : ℕ → String → String → Lib (Unit {0})
  verify now number otp = do
    r ← lift (map_err (λ _. invalid_input) (parse_phone_number number))
    request (Call.verify_phone_number r.e164 otp) sup.services.answer_verify_phone_number
        auth_service_unavailable
    on_store (store_lightning_address now (to_lightning_address r.e164 sup.lipa_lightning_domain))
