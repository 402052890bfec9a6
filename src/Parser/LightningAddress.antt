-- ===== src/Parser/LightningAddress.antt =====
-- parser/src/lightning_address.rs
use lipa_lightning_lib.Prelude.{ℕ, String, Char, Bool, ◌||◌, same_char, is_ascii_alphanumeric}
use lipa_lightning_lib.Parser.Combinators.{Nom, Parse, done, and_then}
use lipa_lightning_lib.Parser.Domain.{domain}

unfoldable pub is_username_char : Char → Bool
is_username_char c =
    is_ascii_alphanumeric c || same_char c "-" || same_char c "_" || same_char c "."

unfoldable pub lightning_address : Nom → (String → ℕ) → Parse (Unit {0})
unfolding is_username_char
lightning_address nom graphemes s =
    and_then
      (nom.separated_pair (nom.take_while1 is_username_char) (nom.char "@") (domain nom graphemes)
        s)
      (λ rest parts. done rest tt)
