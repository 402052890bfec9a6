-- ===== src/Parser/Numbers.antt =====
-- The texts that parse_phone_number of parser/src/lib.rs reads.
use text.Mathlib.TextEquality.{Char-path}
use lipa_lightning_lib.Prelude.{
  String, Char, false, ◌≡◌, ◌≢◌, refl, sym, ap, ◌∙◌, arith, Bool-cases, ◌⊎◌, inl, inr, eq_iff,
  str_eq, if◌then◌else◌, drop_chars, take_chars, filter_chars, is_space_or_tab, same_char,
  is_ascii_digit, ok, err, take_all, drop-drop,
}
use lipa_lightning_lib.Parser.Combinators.{Nom, IsNom, IResult, done, error, failure, and_then}
use lipa_lightning_lib.Parser.PhoneNumber.{is_digit_or_symbol, phone_number}
use lipa_lightning_lib.Parser.{incomplete, error_at, number_result, parse_phone_number}

-- a phone number at the head of a text
pub phone_at : String → IResult String
phone_at String.[] = error ""
phone_at (String.◌∷◌ c u) =
    if same_char "+" c
    then done (drop_chars is_digit_or_symbol u)
        (filter_chars is_ascii_digit (take_chars is_digit_or_symbol u))
    else error (String.◌∷◌ c u)

abbrev pub trimmed : String → String
trimmed s = drop_chars is_space_or_tab s

symbol_space : (c : Char) → is_digit_or_symbol c ≡ false → is_space_or_tab c ≡ false
unfolding is_digit_or_symbol
symbol_space c h = ground arith

spaces-phone : (s : String) → and_then (phone_at s) (λ rest d. done (trimmed rest) d) ≡ phone_at s
unfolding and_then phone_at
spaces-phone String.[] = refl
spaces-phone (String.◌∷◌ c u) = elim (Bool-cases (same_char "+" c)) [
  | inl e ↦ rw e (
      ap (λ r. done r (filter_chars is_ascii_digit (take_chars is_digit_or_symbol u)))
        (drop-drop is_space_or_tab is_digit_or_symbol u symbol_space))
  | inr e ↦ rw e refl
]

module _ (nom : Nom) (laws : IsNom nom) where
  phone_number_lem : (s : String) → phone_number nom s ≡ phone_at s
  unfolding phone_number phone_at and_then
  phone_number_lem String.[] =
      rw
        (
          laws.preceded_lem (nom.char "+") (nom.take_while is_digit_or_symbol) String.[],
          laws.char_end "+",
        )
        refl
  phone_number_lem (String.◌∷◌ c u) = elim (Bool-cases (same_char "+" c)) [
    | inl e ↦
        rw
          (
            laws.preceded_lem (nom.char "+") (nom.take_while is_digit_or_symbol) (String.◌∷◌ c u),
            laws.char_lem "+" c u,
            e,
            laws.take_while_lem is_digit_or_symbol u,
          )
          refl
    | inr e ↦
        rw
          (
            laws.preceded_lem (nom.char "+") (nom.take_while is_digit_or_symbol) (String.◌∷◌ c u),
            laws.char_lem "+" c u,
            e,
          )
          refl
  ]

  spaces_after :
      (o : IResult String)
      → and_then o (λ rest d. and_then (nom.space0 rest) (λ end _. done end d))
        ≡ and_then o (λ rest d. done (trimmed rest) d)
  unfolding and_then
  spaces_after (done rest d) = rw (laws.space0_lem rest) refl
  spaces_after (error at) = refl
  spaces_after (failure at) = refl

  -- The parser reads the text without leading spaces, from the plus sign on.
  pub parse_phone_number_lem :
      (s : String) → parse_phone_number nom s ≡ number_result s (phone_at (trimmed s))
  unfolding parse_phone_number and_then
  parse_phone_number_lem s =
      rw
        (
          laws.delimited_lem nom.space0 (phone_number nom) nom.space0 s,
          laws.space0_lem s,
          phone_number_lem (trimmed s),
          spaces_after (phone_at (trimmed s)),
          spaces-phone (trimmed s),
        )
        refl

str_ne : (d : String) → d ≢ "" → str_eq d "" ≡ false
str_ne d h = elim (Bool-cases (str_eq d "")) [ inl e ↦ absurd (h ((eq_iff d "").0 e)) | inr e ↦ e ]

error_at-ne-ok : (s at : String) {d : String} → error_at s at ≢ ok d
unfolding error_at
error_at-ne-ok s at h = ground arith

number_result-done :
    (s rest digits : String) {d : String}
    → number_result s (done rest digits) ≡ ok d
    → (rest ≡ "") × (digits ≡ d) × (str_eq digits "" ≡ false)
unfolding number_result
number_result-done s rest digits h = ground (arith, eq_iff rest "")

number_result-incomplete :
    (s rest digits : String)
    → number_result s (done rest digits) ≡ err incomplete
    → (rest ≡ "") × (digits ≡ "")
unfolding number_result
number_result-incomplete s rest digits h = ground (arith, eq_iff rest "", eq_iff digits "")

error_at_complete :
    (s : String) (c : Char) (u : String) → error_at {A = String} s (String.◌∷◌ c u) ≢ err incomplete
unfolding error_at
error_at_complete s c u h = elim (Bool-cases (str_eq (String.◌∷◌ c u) "")) [
  | inl e ↦ (let empty : String.◌∷◌ c u ≡ "" = (eq_iff _ _).0 e in cc)
  | inr e ↦ (let k = rw e at h in cc)
]

-- The text is read as these digits.
pub record IsNumber (s digits : String) : Type 0 where
  pub after_plus : String
  pub plus : trimmed s ≡ String.◌∷◌ "+" after_plus
  pub symbols : drop_chars is_digit_or_symbol after_plus ≡ ""
  pub digits_of : filter_chars is_ascii_digit after_plus ≡ digits
  pub some_digits : digits ≢ ""

module _ (nom : Nom) (laws : IsNom nom) where
  pub IsNumber-parse : (s : String) {d : String} → IsNumber s d → parse_phone_number nom s ≡ ok d
  unfolding phone_at number_result
  IsNumber-parse s {d} h =
      parse_phone_number_lem nom laws s
      ∙ rw (h.plus, h.symbols, take_all is_digit_or_symbol h.after_plus h.symbols, h.digits_of)
          (let e : str_eq d "" ≡ false = str_ne d h.some_digits in rw e refl)

  number_result-IsNumber :
      (s t : String) {d : String}
      → trimmed s ≡ t
      → number_result s (phone_at t) ≡ ok d
      → IsNumber s d
  unfolding phone_at number_result error_at
  number_result-IsNumber s String.[] e h = cc
  number_result-IsNumber s (String.◌∷◌ c u) {d} e h = elim (Bool-cases (same_char "+" c)) [
    | inr other ↦ (let k = rw other at h in absurd (error_at-ne-ok s (String.◌∷◌ c u) k))
    | inl plus ↦
        let (none_left, same, nonempty) =
          number_result-done s (drop_chars is_digit_or_symbol u)
            (filter_chars is_ascii_digit (take_chars is_digit_or_symbol u)) (rw plus at h) in
        let c_plus : c ≡ "+" = Char-path c "+" (ground arith) in
        record {
          after_plus = u;
          plus = e ∙ ap (λ x. String.◌∷◌ x u) c_plus;
          symbols = none_left;
          digits_of =
              ap (filter_chars is_ascii_digit) (sym (take_all is_digit_or_symbol u none_left))
              ∙ same;
          some_digits = λ empty. ground (arith, eq_iff d "");
        }
  ]

  pub parse-IsNumber : (s : String) {d : String} → parse_phone_number nom s ≡ ok d → IsNumber s d
  parse-IsNumber s h =
      number_result-IsNumber s (trimmed s) refl (sym (parse_phone_number_lem nom laws s) ∙ h)

  -- A text that is no number yet: nothing but spaces, or a plus sign and symbols.
  incomplete-cases :
      (s t : String)
      → trimmed s ≡ t
      → number_result s (phone_at t) ≡ err incomplete
      → (trimmed s ≡ "")
        ⊎ ((u : String) × (trimmed s ≡ String.◌∷◌ "+" u)
            × (drop_chars is_digit_or_symbol u ≡ "")
            × (filter_chars is_ascii_digit u ≡ ""))
  unfolding phone_at number_result error_at
  incomplete-cases s String.[] e h = inl e
  incomplete-cases s (String.◌∷◌ c u) e h = elim (Bool-cases (same_char "+" c)) [
    | inr other ↦ (let k = rw other at h in absurd (error_at_complete s c u k))
    | inl plus ↦
        let (none_left, no_digits) =
          number_result-incomplete s (drop_chars is_digit_or_symbol u)
            (filter_chars is_ascii_digit (take_chars is_digit_or_symbol u)) (rw plus at h) in
        let c_plus : c ≡ "+" = Char-path c "+" (ground arith) in
        inr (
          u,
          e ∙ ap (λ x. String.◌∷◌ x u) c_plus,
          none_left,
          ap (filter_chars is_ascii_digit) (sym (take_all is_digit_or_symbol u none_left))
              ∙ no_digits,
        )
  ]

  pub parse-incomplete :
      (s : String)
      → parse_phone_number nom s ≡ err incomplete
      → (trimmed s ≡ "")
        ⊎ ((u : String) × (trimmed s ≡ String.◌∷◌ "+" u)
            × (drop_chars is_digit_or_symbol u ≡ "")
            × (filter_chars is_ascii_digit u ≡ ""))
  parse-incomplete s h =
      incomplete-cases s (trimmed s) refl (sym (parse_phone_number_lem nom laws s) ∙ h)
