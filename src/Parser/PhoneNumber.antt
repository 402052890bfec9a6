-- ===== src/Parser/PhoneNumber.antt =====
-- parser/src/phone_number.rs
use lipa_lightning_lib.Prelude.{
  String, Char, Bool, ◌||◌, filter_chars, contains_char, is_ascii_digit, is_whitespace,
}
use lipa_lightning_lib.Parser.Combinators.{Nom, Parse, done, and_then}

unfoldable pub is_digit_or_symbol : Char → Bool
unfolding contains_char is_whitespace
is_digit_or_symbol c = is_ascii_digit c || is_whitespace c || contains_char c ".-/()[]"

unfoldable pub phone_number : Nom → Parse String
unfolding is_digit_or_symbol and_then
phone_number nom s =
    and_then (nom.preceded (nom.char "+") (nom.take_while is_digit_or_symbol) s)
      (λ rest digits_and_symbols. done rest (filter_chars is_ascii_digit digits_and_symbols))
