-- ===== src/PhoneNumber/Prefix.antt =====
-- src/phone_number.rs: PhoneNumberPrefixParser. The country code of an id, in decimal, in the database of
-- the crate `phonenumber` is a parameter.
pub mod Continued
pub mod Verdicts
use lipa_lightning_lib.Prelude.{
  ℕ, ◌%◌, String, Option, List, Result, ok, err, panic, any, filter_map, starts_with, if◌then◌else◌,
}
use lipa_lightning_lib.Errors.{
  ParsePhoneNumberPrefixError, incomplete, unsupported_country, invalid_character,
}
use lipa_lightning_lib.Parser.{ParseError, unexpected_character, excess_suffix, parse_phone_number}
use lipa_lightning_lib.Parser.Combinators.{Nom}

-- `PhoneNumberPrefixParser::new`
unfoldable pub allowed_country_codes : (String → Option String) → List String → List String
allowed_country_codes country_code_of ids = filter_map country_code_of ids

unfoldable pub judge_digits : List String → String → Result ParsePhoneNumberPrefixError (Unit {0})
judge_digits codes digits =
    if any (λ c. starts_with c digits) codes
    then ok tt
    else if any (λ c. starts_with digits c) codes
    then err incomplete
    else err unsupported_country

unfoldable pub judge :
    List String → Result ParseError String → Result ParsePhoneNumberPrefixError (Unit {0})
unfolding judge_digits
judge codes (ok digits) = judge_digits codes digits
judge codes (err ParseError.incomplete) = err incomplete
judge codes (err (unexpected_character index)) = err (invalid_character (index % 4294967296))
judge codes (err (excess_suffix index)) = err (invalid_character (index % 4294967296))
judge codes panic = panic

-- `PhoneNumberPrefixParser::parse`
unfoldable pub parse_prefix :
    Nom → List String → String → Result ParsePhoneNumberPrefixError (Unit {0})
unfolding judge
parse_prefix nom codes prefix = judge codes (parse_phone_number nom prefix)
