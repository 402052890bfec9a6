-- ===== src/Parser.antt =====
-- parser/src/lib.rs: lightning addresses and phone numbers that a user types. An index counts the bytes
-- of the text in UTF-8.
pub mod Combinators
pub mod PhoneNumber
pub mod Domain
pub mod LightningAddress
pub mod Consuming
pub mod Positions
pub mod Numbers
pub mod Standard
mod Examples
use lipa_lightning_lib.Prelude.{ℕ, ◌-◌, String, byte_len, str_eq, if◌then◌else◌, Result, ok, err}
use lipa_lightning_lib.Parser.Combinators.{Nom, IResult, done, error, failure}
use lipa_lightning_lib.Parser.PhoneNumber.{phone_number}
use lipa_lightning_lib.Parser.LightningAddress.{lightning_address}

pub data ParseError : Type 0 where
  incomplete : ParseError
  unexpected_character excess_suffix : ℕ → ParseError

-- the `match` on an error, at what is left of the text
unfoldable pub error_at : {A : Type 0} → String → String → Result ParseError A
error_at s at =
    if str_eq at "" then err incomplete else err (unexpected_character (byte_len s - byte_len at))

unfoldable pub address_result : String → IResult (Unit {0}) → Result ParseError (Unit {0})
unfolding error_at
address_result s (done rest u) =
    if str_eq rest "" then ok tt else err (excess_suffix (byte_len s - byte_len rest))
address_result s (error at) = error_at s at
address_result s (failure at) = error_at s at

unfoldable pub number_result : String → IResult String → Result ParseError String
unfolding error_at
number_result s (done rest digits) =
    if str_eq rest ""
    then if str_eq digits "" then err incomplete else ok digits
    else err (excess_suffix (byte_len s - byte_len rest))
number_result s (error at) = error_at s at
number_result s (failure at) = error_at s at

unfoldable pub parse_lightning_address : Nom → (String → ℕ) → String → Result ParseError (Unit {0})
unfolding address_result
parse_lightning_address nom graphemes address =
    address_result address
      (nom.delimited nom.space0 (lightning_address nom graphemes) nom.space0 address)

unfoldable pub parse_phone_number : Nom → String → Result ParseError String
unfolding number_result
parse_phone_number nom number =
    number_result number (nom.delimited nom.space0 (phone_number nom) nom.space0 number)
