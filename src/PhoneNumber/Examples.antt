-- ===== src/PhoneNumber/Examples.antt =====
-- Phone numbers and addresses of the tests of src/phone_number.rs.
use lipa_lightning_lib.Prelude.{
  drop_chars, filter_chars, starts_with, take_chars, [], ◌∷◌, ◌≢◌, All, List, String, err, ok,
  text_append, all_chars, replace_first, strip_prefix_char, strip_suffix, ◌≡◌, ◌↔◌, refl, none,
  some,
}
use lipa_lightning_lib.Parser.Standard.{char_result, standard, standard-IsNom}
use lipa_lightning_lib.Parser.PhoneNumber.{phone_number, is_digit_or_symbol}
use lipa_lightning_lib.Parser.Combinators.{and_then}
use lipa_lightning_lib.Parser.{parse_phone_number}
use lipa_lightning_lib.PhoneNumber.Prefix.{parse_prefix}
use lipa_lightning_lib.PhoneNumber.Prefix.Verdicts.{
  IsCode, accepted_lasts, unsupported_lasts, incomplete_completes,
}
use lipa_lightning_lib.Errors.{incomplete, unsupported_country}
use lipa_lightning_lib.PhoneNumber.{to_lightning_address, lightning_address_to_phone_number}
use lipa_lightning_lib.PhoneNumber.RoundTrip.{IsPlusDigits, phone_number-iff-address}

address_lem : to_lightning_address "+41446681800" "@lipa.swiss" ≡ "-41446681800@lipa.swiss"
unfolding to_lightning_address replace_first
address_lem = refl

letters_lem : lightning_address_to_phone_number "-4144668aa1800@lipa.swiss" "@lipa.swiss" ≡ none
unfolding lightning_address_to_phone_number strip_prefix_char strip_suffix all_chars
letters_lem = refl

domain_lem : lightning_address_to_phone_number "-41446681800@other.domain" "@lipa.swiss" ≡ none
unfolding lightning_address_to_phone_number strip_prefix_char strip_suffix
domain_lem = refl

phone_number-iff-address_example :
    (lightning_address_to_phone_number "-41446681800@lipa.swiss" "@lipa.swiss"
      ≡ some "+41446681800")
    ↔ (IsPlusDigits "+41446681800"
        × (to_lightning_address "+41446681800" "@lipa.swiss" ≡ "-41446681800@lipa.swiss"))
phone_number-iff-address_example =
    phone_number-iff-address "-41446681800@lipa.swiss" "@lipa.swiss" "+41446681800"

abbrev country_codes : List String
country_codes = "41" ∷ "1" ∷ []

country_codes_are_codes : All IsCode country_codes
unfolding all_chars
country_codes_are_codes = ((refl, λ e. cc), ((refl, λ e. cc), tt))

accepted_eq : parse_prefix standard country_codes "+41 (" ≡ ok tt
unfolding parse_prefix parse_phone_number and_then phone_number char_result drop_chars filter_chars
    take_chars starts_with
accepted_eq = refl

unsupported_eq : parse_prefix standard country_codes "+3" ≡ err unsupported_country
unfolding parse_prefix parse_phone_number and_then phone_number char_result drop_chars filter_chars
    take_chars starts_with
unsupported_eq = refl

incomplete_eq : parse_prefix standard country_codes "+4 " ≡ err incomplete
unfolding parse_prefix parse_phone_number and_then phone_number char_result drop_chars filter_chars
    take_chars starts_with
incomplete_eq = refl

accepted_lasts_example : parse_prefix standard country_codes (text_append "+41 (" "935)") ≡ ok tt
unfolding all_chars is_digit_or_symbol
accepted_lasts_example =
    accepted_lasts standard standard-IsNom country_codes "+41 (" "935)" accepted_eq refl

unsupported_lasts_example : parse_prefix standard country_codes (text_append "+3" "41") ≢ ok tt
unsupported_lasts_example =
    unsupported_lasts standard standard-IsNom country_codes "+3" "41" unsupported_eq

incomplete_completes_example :
    (e : String) × (parse_prefix standard country_codes (text_append "+4 " e) ≡ ok tt)
incomplete_completes_example =
    incomplete_completes standard standard-IsNom "41" ("1" ∷ []) "+4 " country_codes_are_codes
      incomplete_eq
