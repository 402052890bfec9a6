-- ===== src/Parser/Positions.antt =====
-- The places in a text that the errors of parser/src/lib.rs name.
use text.Mathlib.TextLemmas.{cons-append, nil-append}
use lipa_lightning_lib.Prelude.{
  ℕ, ◌+◌, ◌-◌, String, false, ◌≡◌, ◌≢◌, ap, ◌∙◌, ◌⊎◌, inl, inr, arith, Option, none, some, eq_iff,
  str_eq, text_append, byte_len, err,
}
use lipa_lightning_lib.Parser.Combinators.{
  Nom, IsNom, IResult, done, error, failure, IsEnd, whole, further, Leaves,
}
use lipa_lightning_lib.Parser.{
  ParseError, incomplete, unexpected_character, excess_suffix, error_at, address_result,
  number_result, parse_lightning_address, parse_phone_number,
}
use lipa_lightning_lib.Parser.Consuming.{
  delimited-Consumes, space0-Consumes, lightning_address-Consumes, phone_number-Consumes,
}

-- The text splits at byte `n`, between two characters, and something comes after.
abbrev pub StandsAt : String → ℕ → Type 0
StandsAt s n =
    (before : String) × (after : String) × (text_append before after ≡ s)
    × (byte_len before ≡ n)
    × (after ≢ "")

-- the index that an error names
abbrev pub place_of : ParseError → Option ℕ
place_of incomplete = none
place_of (unexpected_character n) = some n
place_of (excess_suffix n) = some n

IsEnd-split :
    {r s : String}
    → IsEnd r s
    → (before : String) × (text_append before r ≡ s) × (byte_len before + byte_len r ≡ byte_len s)
unfolding byte_len
IsEnd-split {r} whole = ("", nil-append r, omega arith)
IsEnd-split {r} (further c h) =
    let (before, split, len) = IsEnd-split h in
    (String.◌∷◌ c before, cons-append c before r ∙ ap (String.◌∷◌ c) split, omega arith)

-- an error that names the place where a rest of the text begins
placed :
    {r s : String} (n : ℕ)
    → IsEnd r s
    → str_eq r "" ≡ false
    → byte_len s - byte_len r ≡ n
    → StandsAt s n
placed {r} n h other e =
    let (before, split, len) = IsEnd-split h in
    (before, r, split, omega arith, λ (empty : r ≡ ""). ground (arith, eq_iff r ""))

error_at-index :
    {A : Type 0} (s at : String) (e : ParseError) {n : ℕ}
    → error_at {A = A} s at ≡ err e
    → place_of e ≡ some n
    → (str_eq at "" ≡ false) × (byte_len s - byte_len at ≡ n)
unfolding error_at
error_at-index s at incomplete p q = cc
error_at-index s at (unexpected_character m) p q = ground arith
error_at-index s at (excess_suffix m) p q = ground arith

error_at-StandsAt :
    {A : Type 0} (s at : String) (e : ParseError) {n : ℕ}
    → IsEnd at s
    → error_at {A = A} s at ≡ err e
    → place_of e ≡ some n
    → StandsAt s n
error_at-StandsAt {A} s at e h p q =
    let (other, same) = error_at-index {A = A} s at e p q in placed _ h other same

address_result-StandsAt :
    (s : String) (o : IResult (Unit {0})) (e : ParseError) {n : ℕ}
    → Leaves s o
    → address_result s o ≡ err e
    → place_of e ≡ some n
    → StandsAt s n
unfolding address_result
address_result-StandsAt s (error at) e h p q = error_at-StandsAt s at e h p q
address_result-StandsAt s (failure at) e h p q = error_at-StandsAt s at e h p q
address_result-StandsAt s (done rest u) incomplete h p q = cc
address_result-StandsAt s (done rest u) (unexpected_character m) h p q =
    placed _ h (ground arith) (ground arith)
address_result-StandsAt s (done rest u) (excess_suffix m) h p q =
    placed _ h (ground arith) (ground arith)

number_result-StandsAt :
    (s : String) (o : IResult String) (e : ParseError) {n : ℕ}
    → Leaves s o
    → number_result s o ≡ err e
    → place_of e ≡ some n
    → StandsAt s n
unfolding number_result
number_result-StandsAt s (error at) e h p q = error_at-StandsAt s at e h p q
number_result-StandsAt s (failure at) e h p q = error_at-StandsAt s at e h p q
number_result-StandsAt s (done rest digits) incomplete h p q = cc
number_result-StandsAt s (done rest digits) (unexpected_character m) h p q =
    placed _ h (ground arith) (ground arith)
number_result-StandsAt s (done rest digits) (excess_suffix m) h p q =
    placed _ h (ground arith) (ground arith)

module _ (nom : Nom) (laws : IsNom nom) (graphemes : String → ℕ) where
  -- The index in an error, of an address or of a number, is a place between two characters of the
  -- text, counted in bytes, and something comes after it: the application may cut the text there.
  pub error_index_StandsAt :
      (s : String) (e : ParseError) {n : ℕ}
      → (parse_lightning_address nom graphemes s ≡ err e) ⊎ (parse_phone_number nom s ≡ err e)
      → place_of e ≡ some n
      → StandsAt s n
  unfolding parse_lightning_address parse_phone_number
  error_index_StandsAt s e (inl p) q =
      address_result-StandsAt s _ e
        ((delimited-Consumes nom laws _ _ _ (space0-Consumes nom laws)
            (lightning_address-Consumes nom laws graphemes) (space0-Consumes nom laws)).at
          s)
        p q
  error_index_StandsAt s e (inr p) q =
      number_result-StandsAt s _ e
        ((delimited-Consumes nom laws _ _ _ (space0-Consumes nom laws)
            (phone_number-Consumes nom laws) (space0-Consumes nom laws)).at
          s)
        p q
