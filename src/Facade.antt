-- ===== src/Facade.antt =====
-- src/lib.rs and src/errors.rs: parse_lightning_address as the application calls it.
pub mod Positions
mod Examples
use lipa_lightning_lib.Prelude.{ℕ, ◌%◌, String, Result, map_err}
use lipa_lightning_lib.Parser as Parser
use lipa_lightning_lib.Parser.Combinators.{Nom}

pub data ParseError : Type 0 where
  incomplete : ParseError
  -- a u32
  invalid_character : ℕ → ParseError

-- `From<parser::ParseError>`
unfoldable pub from_parser : Parser.ParseError → ParseError
from_parser Parser.ParseError.incomplete = incomplete
from_parser (Parser.ParseError.unexpected_character at) = invalid_character (at % 4294967296)
from_parser (Parser.ParseError.excess_suffix at) = invalid_character (at % 4294967296)

unfoldable pub parse_address : Nom → (String → ℕ) → String → Result ParseError (Unit {0})
unfolding from_parser
parse_address nom graphemes address =
    map_err from_parser (Parser.parse_lightning_address nom graphemes address)
