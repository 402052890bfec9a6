-- ===== src/Facade/Examples.antt =====
-- A number with a character that is no part of one.
use lipa_lightning_lib.Prelude.{◌<◌}
use lipa_lightning_lib.Prelude.{
  ◌≡◌, refl, [], ◌∷◌, inr, arith, err, byte_len, count_chars, drop_chars,
}
use lipa_lightning_lib.Errors.{ParsePhoneNumberPrefixError}
use lipa_lightning_lib.Parser.{parse_phone_number}
use lipa_lightning_lib.Parser.Combinators.{and_then}
use lipa_lightning_lib.Parser.PhoneNumber.{phone_number}
use lipa_lightning_lib.Parser.Positions.{StandsAt}
use lipa_lightning_lib.Parser.Standard.{standard, standard-IsNom, char_result}
use lipa_lightning_lib.PhoneNumber.Prefix.{parse_prefix}
use lipa_lightning_lib.Facade.Positions.{invalid_character_StandsAt}

tilde_lem :
    parse_prefix standard ("41" ∷ []) "+123~"
    ≡ err (ParsePhoneNumberPrefixError.invalid_character 4)
unfolding parse_prefix parse_phone_number and_then phone_number char_result drop_chars byte_len
tilde_lem = refl

short_lem : byte_len "+123~" < 4294967296
unfolding byte_len
short_lem = omega arith

invalid_character_StandsAt_example : StandsAt "+123~" 4
invalid_character_StandsAt_example =
    invalid_character_StandsAt standard standard-IsNom count_chars ("41" ∷ []) "+123~" short_lem
      (inr tilde_lem)
