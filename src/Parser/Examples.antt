-- ===== src/Parser/Examples.antt =====
-- The parsers on texts of the tests in parser/src/lib.rs.
use lipa_lightning_lib.Parser.PhoneNumber.{phone_number}
use lipa_lightning_lib.Prelude.{
  all_chars, byte_len, filter_chars, starts_with_char, ◌≡◌, refl, String, inr, take_chars,
  drop_chars, head_is, count_chars, Result, ok, err,
}
use lipa_lightning_lib.Parser.Domain.{domain}
use lipa_lightning_lib.Parser.LightningAddress.{lightning_address}
use lipa_lightning_lib.Parser.Combinators.{and_then}
use lipa_lightning_lib.Parser.{
  ParseError, incomplete, unexpected_character, excess_suffix, parse_lightning_address,
  parse_phone_number,
}
use lipa_lightning_lib.Parser.Positions.{StandsAt, error_index_StandsAt}
use lipa_lightning_lib.Parser.Standard.{
  standard, standard-IsNom, strip_no_case, tag_result, more, char_result,
}

address : String → Result ParseError (Unit {0})
address = parse_lightning_address standard count_chars

address_eq : address "  ab@a.uk.com  c" ≡ err (excess_suffix 15)
unfolding address parse_lightning_address and_then lightning_address head_is drop_chars char_result
    domain tag_result strip_no_case more count_chars starts_with_char take_chars all_chars byte_len
address_eq = refl

short_eq : address "ab@a.uk.c" ≡ err incomplete
unfolding address parse_lightning_address and_then lightning_address head_is drop_chars char_result
    domain tag_result strip_no_case more count_chars starts_with_char take_chars
short_eq = refl

tagged_eq : address "ab@xn--bcher-kva.ex" ≡ ok tt
unfolding address parse_lightning_address and_then lightning_address head_is drop_chars char_result
    domain tag_result strip_no_case more count_chars starts_with_char take_chars all_chars
tagged_eq = refl

hyphens_eq : address "ab@1--" ≡ err (unexpected_character 5)
unfolding address parse_lightning_address and_then lightning_address head_is drop_chars char_result
    domain tag_result strip_no_case more count_chars starts_with_char byte_len
hyphens_eq = refl

spaced_eq : parse_phone_number standard " +12 3" ≡ ok "123"
unfolding address parse_phone_number and_then phone_number char_result drop_chars filter_chars
    take_chars
spaced_eq = refl

excess_eq : parse_phone_number standard "+123~" ≡ err (excess_suffix 4)
unfolding address parse_phone_number and_then phone_number char_result drop_chars byte_len
excess_eq = refl

error_index_StandsAt_example : StandsAt "+123~" 4
error_index_StandsAt_example =
    error_index_StandsAt standard standard-IsNom count_chars "+123~" (excess_suffix 4)
      (inr excess_eq) refl
