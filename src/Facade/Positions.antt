-- ===== src/Facade/Positions.antt =====
-- The positions that the application is told.
use mathlib.Core.Path.{subst}
use lipa_lightning_lib.Prelude.{
  Bool-cases, any, starts_with, ℕ, ◌%◌, ◌<◌, String, ◌≡◌, ◌≢◌, refl, sym, ap, ◌∙◌, ◌⊎◌, inl, inr,
  arith, List, Result, ok, err, panic, map_err, byte_len, byte_len-append, some,
}
use lipa_lightning_lib.Parser as Parser
use lipa_lightning_lib.Parser.Combinators.{Nom, IsNom}
use lipa_lightning_lib.Parser.Positions.{StandsAt, place_of, error_index_StandsAt}
use lipa_lightning_lib.Errors.{ParsePhoneNumberPrefixError}
use lipa_lightning_lib.PhoneNumber.Prefix.{judge, judge_digits, parse_prefix}
use lipa_lightning_lib.Facade.{ParseError, from_parser, parse_address}

-- A place in a text of less than 2^32 bytes is kept by the conversion to a u32.
place_is_kept :
    (s : String) (n : ℕ) → byte_len s < 4294967296 → StandsAt s n → StandsAt s (n % 4294967296)
place_is_kept s n h (before, after, split, at, more) =
    let len = sym (ap byte_len split) ∙ byte_len-append before after in
    let same : n ≡ n % 4294967296 = omega arith in (before, after, split, at ∙ same, more)

address_place :
    (r : Result Parser.ParseError (Unit {0})) {at : ℕ}
    → map_err from_parser r ≡ err (ParseError.invalid_character at)
    → (e : Parser.ParseError) × (n : ℕ) × (r ≡ err e)
      × (place_of e ≡ some n)
      × (n % 4294967296 ≡ at)
unfolding from_parser
address_place (ok u) h = cc
address_place (err Parser.ParseError.incomplete) h = cc
address_place (err (Parser.ParseError.unexpected_character n)) h = (_, n, refl, refl, cc)
address_place (err (Parser.ParseError.excess_suffix n)) h = (_, n, refl, refl, cc)
address_place panic h = cc

judge_digits_place :
    (codes : List String) (digits : String) {at : ℕ}
    → judge_digits codes digits ≢ err (ParsePhoneNumberPrefixError.invalid_character at)
unfolding judge_digits
judge_digits_place codes digits h = elim (Bool-cases (any (λ c. starts_with c digits) codes)) [
  | inl e ↦ (let k = rw e at h in cc)
  | inr e ↦ elim (Bool-cases (any (λ c. starts_with digits c) codes)) [
    | inl f ↦ (let k = rw (e, f) at h in cc)
    | inr f ↦ (let k = rw (e, f) at h in cc)
  ]
]

prefix_place :
    (codes : List String) (r : Result Parser.ParseError String) {at : ℕ}
    → judge codes r ≡ err (ParsePhoneNumberPrefixError.invalid_character at)
    → (e : Parser.ParseError) × (n : ℕ) × (r ≡ err e)
      × (place_of e ≡ some n)
      × (n % 4294967296 ≡ at)
unfolding judge
prefix_place codes (ok digits) h = absurd (judge_digits_place codes digits h)
prefix_place codes (err Parser.ParseError.incomplete) h = cc
prefix_place codes (err (Parser.ParseError.unexpected_character n)) h = (_, n, refl, refl, cc)
prefix_place codes (err (Parser.ParseError.excess_suffix n)) h = (_, n, refl, refl, cc)
prefix_place codes panic h = cc

-- The position of an invalid character, in an address or in a prefix of a phone number, is a place
-- between two characters of the text with something after it, if the text has less than 2^32 bytes.
pub invalid_character_StandsAt :
    (nom : Nom) (laws : IsNom nom) (graphemes : String → ℕ) (codes : List String) (s : String)
    {at : ℕ}
    → byte_len s < 4294967296
    → (parse_address nom graphemes s ≡ err (ParseError.invalid_character at))
      ⊎ (parse_prefix nom codes s ≡ err (ParsePhoneNumberPrefixError.invalid_character at))
    → StandsAt s at
unfolding parse_address parse_prefix
invalid_character_StandsAt nom laws graphemes codes s h (inl p) =
    let (e, n, q, place, at) = address_place (Parser.parse_lightning_address nom graphemes s) p in
    subst (StandsAt s) at
      (place_is_kept s n h (error_index_StandsAt nom laws graphemes s e (inl q) place))
invalid_character_StandsAt nom laws graphemes codes s h (inr p) =
    let (e, n, q, place, at) = prefix_place codes (Parser.parse_phone_number nom s) p in
    subst (StandsAt s) at
      (place_is_kept s n h (error_index_StandsAt nom laws graphemes s e (inr q) place))
