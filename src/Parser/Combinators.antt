-- ===== src/Parser/Combinators.antt =====
-- The combinators of the crate `nom` that the parser crate uses. They are no part of the repository:
-- `Nom` has the operations, and `IsNom` what its documentation says of them.
use lipa_lightning_lib.Prelude.{
  String, Char, Bool, ◌≡◌, List, take_chars, drop_chars, is_space_or_tab, head_is, same_char,
  if◌then◌else◌,
}

-- `IResult<&str, A>`: the rest of the text and a value, an error that other parsers may recover from,
-- or a failure; both with the rest of the text at which they happened
pub data IResult (A : Type 0) : Type 0 where
  done : String → A → IResult A
  error failure : String → IResult A

abbrev pub Parse : Type 0 → Type 0
Parse A = String → IResult A

-- the `?` operator
unfoldable pub and_then : {A B : Type 0} → IResult A → (String → A → IResult B) → IResult B
and_then (done rest a) f = f rest a
and_then (error at) f = error at
and_then (failure at) f = failure at

pub record Nom : Type 1 where
  pub take_while : (Char → Bool) → Parse String
  pub take_while1 : (Char → Bool) → Parse String
  pub char : Char → Parse Char
  pub tag_no_case : String → Parse String
  pub space0 : Parse String
  pub mapped : {A B : Type 0} → (A → B) → Parse A → Parse B
  pub preceded : {A B : Type 0} → Parse A → Parse B → Parse B
  pub delimited : {A B C : Type 0} → Parse A → Parse B → Parse C → Parse B
  pub separated_pair : {A B C : Type 0} → Parse A → Parse B → Parse C → Parse (A × C)
  pub separated_list1 : {A B : Type 0} → Parse A → Parse B → Parse (List B)

-- `r` is an end of the text
pub data IsEnd (r : String) : String → Type 0 where
  whole : IsEnd r r
  further : (c : Char) {s : String} → IsEnd r s → IsEnd r (String.◌∷◌ c s)

abbrev pub Leaves : {A : Type 0} → String → IResult A → Type 0
Leaves s (done rest a) = IsEnd rest s
Leaves s (error at) = IsEnd at s
Leaves s (failure at) = IsEnd at s

-- What a parser leaves of a text, and the place of its error, is an end of the text.
pub record Consumes {A : Type 0} (p : Parse A) : Type 0 where
  pub at : (s : String) → Leaves s (p s)

pub record IsNom (n : Nom) : Type 1 where
  pub take_while_lem :
      (p : Char → Bool) (s : String) → n.take_while p s ≡ done (drop_chars p s) (take_chars p s)
  pub take_while1_lem :
      (p : Char → Bool) (s : String)
      → n.take_while1 p s
        ≡ (if head_is p s then done (drop_chars p s) (take_chars p s) else error s)
  pub char_lem :
      (c d : Char) (s : String)
      → n.char c (String.◌∷◌ d s) ≡ (if same_char c d then done s c else error (String.◌∷◌ d s))
  pub char_end : (c : Char) → n.char c String.[] ≡ error String.[]
  pub space0_lem :
      (s : String) → n.space0 s ≡ done (drop_chars is_space_or_tab s) (take_chars is_space_or_tab s)
  pub mapped_lem :
      {A B : Type 0} (f : A → B) (p : Parse A) (s : String)
      → n.mapped f p s ≡ and_then (p s) (λ rest a. done rest (f a))
  pub preceded_lem :
      {A B : Type 0} (p : Parse A) (q : Parse B) (s : String)
      → n.preceded p q s ≡ and_then (p s) (λ rest _. q rest)
  pub delimited_lem :
      {A B C : Type 0} (p : Parse A) (q : Parse B) (r : Parse C) (s : String)
      → n.delimited p q r s
        ≡ and_then
            (p s)
            (λ rest _. and_then (q rest) (λ rest' b. and_then (r rest') (λ end _. done end b)))
  pub separated_pair_lem :
      {A B C : Type 0} (p : Parse A) (q : Parse B) (r : Parse C) (s : String)
      → n.separated_pair p q r s
        ≡ and_then
            (p s)
            (λ rest a. and_then (q rest) (λ rest' _. and_then (r rest') (λ end c. done end (a, c))))
  pub tag_no_case-Consumes : (t : String) → Consumes (n.tag_no_case t)
  pub separated_list1-Consumes :
      {A B : Type 0} (p : Parse A) (q : Parse B)
      → Consumes p
      → Consumes q
      → Consumes (n.separated_list1 p q)
