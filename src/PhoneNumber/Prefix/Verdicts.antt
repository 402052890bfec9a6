-- ===== src/PhoneNumber/Prefix/Verdicts.antt =====
-- What the verdicts on a prefix of a phone number say of the texts that continue it.
use lipa_lightning_lib.Prelude.{
  String, Char, true, false, ◌≡◌, ◌≢◌, refl, ap, ◌∙◌, ◌⊎◌, inl, inr, List, [], ◌∷◌, arith,
  Bool-cases, any, All, text_append, drop_chars, filter_chars, all_chars, is_ascii_digit,
  starts_with, Result, ok, err, panic, starts_with-rest, all_chars-append, all_chars_mono,
  starts_with_refl, drop-append, filter-append, filter_all, drop_all, is_space_or_tab,
}
use text.Mathlib.TextLemmas.{nil-append}
use lipa_lightning_lib.Errors.{incomplete, unsupported_country}
use lipa_lightning_lib.Parser.{ParseError, parse_phone_number}
use lipa_lightning_lib.Parser.Combinators.{Nom, IsNom}
use lipa_lightning_lib.Parser.PhoneNumber.{is_digit_or_symbol}
use lipa_lightning_lib.Parser.Numbers.{
  IsNumber, IsNumber-parse, parse-IsNumber, parse-incomplete, trimmed,
}
use lipa_lightning_lib.PhoneNumber.Prefix.{judge, parse_prefix}
use lipa_lightning_lib.PhoneNumber.Prefix.Continued.{
  plus-append, IsNumber-append, digits-append, any-append, any-longer,
}

-- what the database gives for a country
abbrev pub IsCode : String → Type 0
IsCode c = (all_chars is_ascii_digit c ≡ true) × (c ≢ "")

-- a code that the digits begin, and what is missing
any-missing :
    (codes : List String) (d : String)
    → All IsCode codes
    → any (λ c. starts_with d c) codes ≡ true
    → (missing : String) × (any (λ c. starts_with c (text_append d missing)) codes ≡ true)
      × (all_chars is_ascii_digit missing ≡ true)
any-missing [] d are_codes h = cc
any-missing (c ∷ codes) d (is_code, are_codes) h = elim (Bool-cases (starts_with d c)) [
  | inl e ↦
      let (missing, same) = starts_with-rest d c e in
      let found : starts_with c (text_append d missing) ≡ true =
        ap (starts_with c) same ∙ starts_with_refl c in
      (
        missing,
        rw found refl,
        all_chars-append is_ascii_digit d missing (ap (all_chars is_ascii_digit) same ∙ is_code.0),
      )
  | inr e ↦
      let (missing, found, digits) = any-missing codes d are_codes (rw e at h) in
      (missing, ground arith, digits)
]

symbol_digit : (c : Char) → is_ascii_digit c ≡ true → is_digit_or_symbol c ≡ true
unfolding is_digit_or_symbol
symbol_digit c h = ground arith

judge-ok :
    (codes : List String) (r : Result ParseError String)
    → judge codes r ≡ ok tt
    → (d : String) × (r ≡ ok d) × (any (λ c. starts_with c d) codes ≡ true)
unfolding judge
judge-ok codes (ok d) h = (d, refl, ground arith)
judge-ok codes (err ParseError.incomplete) h = cc
judge-ok codes (err (ParseError.unexpected_character n)) h = cc
judge-ok codes (err (ParseError.excess_suffix n)) h = cc
judge-ok codes panic h = cc

judge-unsupported :
    (codes : List String) (r : Result ParseError String)
    → judge codes r ≡ err unsupported_country
    → (d : String) × (r ≡ ok d)
      × (any (λ c. starts_with c d) codes ≡ false)
      × (any (λ c. starts_with d c) codes ≡ false)
unfolding judge
judge-unsupported codes (ok d) h = (d, refl, ground arith, ground arith)
judge-unsupported codes (err ParseError.incomplete) h = cc
judge-unsupported codes (err (ParseError.unexpected_character n)) h = cc
judge-unsupported codes (err (ParseError.excess_suffix n)) h = cc
judge-unsupported codes panic h = cc

judge-incomplete :
    (codes : List String) (r : Result ParseError String)
    → judge codes r ≡ err incomplete
    → (r ≡ err ParseError.incomplete)
      ⊎ ((d : String) × (r ≡ ok d) × (any (λ c. starts_with d c) codes ≡ true))
unfolding judge
judge-incomplete codes (ok d) h = inr (d, refl, ground arith)
judge-incomplete codes (err ParseError.incomplete) h = inl refl
judge-incomplete codes (err (ParseError.unexpected_character n)) h = cc
judge-incomplete codes (err (ParseError.excess_suffix n)) h = cc
judge-incomplete codes panic h = cc

judge-of_ok :
    (codes : List String) (d : String)
    → any (λ c. starts_with c d) codes ≡ true
    → judge codes (ok d) ≡ ok tt
unfolding judge
judge-of_ok codes d h = rw h refl

module _ (nom : Nom) (laws : IsNom nom) (codes : List String) where
  accepted-of_IsNumber :
      (s : String) {d : String}
      → IsNumber s d
      → any (λ c. starts_with c d) codes ≡ true
      → parse_prefix nom codes s ≡ ok tt
  unfolding parse_prefix
  accepted-of_IsNumber s h found =
      ap (judge codes) (IsNumber-parse nom laws s h) ∙ judge-of_ok codes _ found

  -- A prefix that was accepted stays accepted whatever digits and symbols follow.
  pub accepted_lasts :
      (s e : String)
      → parse_prefix nom codes s ≡ ok tt
      → all_chars is_digit_or_symbol e ≡ true
      → parse_prefix nom codes (text_append s e) ≡ ok tt
  unfolding parse_prefix
  accepted_lasts s e h symbols =
      let (d, parsed, found) = judge-ok codes (parse_phone_number nom s) h in
      accepted-of_IsNumber (text_append s e)
        (IsNumber-append s e (parse-IsNumber nom laws s parsed)
          (drop_all is_digit_or_symbol e symbols))
        (any-longer codes d _ found)

  -- A prefix of no allowed country is never accepted, whatever follows it.
  pub unsupported_lasts :
      (s e : String)
      → parse_prefix nom codes s ≡ err unsupported_country
      → parse_prefix nom codes (text_append s e) ≢ ok tt
  unfolding parse_prefix
  unsupported_lasts s e h accepted =
      let (d, parsed, no_code, no_start) = judge-unsupported codes (parse_phone_number nom s) h in
      let (d', parsed', found) =
        judge-ok codes (parse_phone_number nom (text_append s e)) accepted in
      let same =
        digits-append s e (parse-IsNumber nom laws s parsed)
          (parse-IsNumber nom laws (text_append s e) parsed') in
      let none = any-append codes d (filter_chars is_ascii_digit e) no_code no_start in
      let found' = rw same at found in cc

space_plus : is_space_or_tab "+" ≡ false
space_plus = refl

digits_are_symbols :
    (s : String) → all_chars is_ascii_digit s ≡ true → drop_chars is_digit_or_symbol s ≡ ""
digits_are_symbols s h =
    drop_all is_digit_or_symbol s
      (all_chars_mono is_ascii_digit is_digit_or_symbol s symbol_digit h)

-- Spaces, and then a plus sign and a code.
IsNumber-spaces :
    (s code : String)
    → trimmed s ≡ ""
    → IsCode code
    → IsNumber (text_append s (String.◌∷◌ "+" code)) code
unfolding drop_chars
IsNumber-spaces s code h (digits, some_digits) = record {
  after_plus = code;
  plus = drop-append is_space_or_tab s (String.◌∷◌ "+" code) h;
  symbols = digits_are_symbols code digits;
  digits_of = filter_all is_ascii_digit code digits;
  some_digits = some_digits;
}

-- A plus sign and symbols, and then a code.
IsNumber-plus :
    (s code u : String)
    → trimmed s ≡ String.◌∷◌ "+" u
    → drop_chars is_digit_or_symbol u ≡ ""
    → filter_chars is_ascii_digit u ≡ ""
    → IsCode code
    → IsNumber (text_append s code) code
IsNumber-plus s code u h symbols no_digits (digits, some_digits) = record {
  after_plus = text_append u code;
  plus = plus-append s code h;
  symbols = drop-append is_digit_or_symbol u code symbols ∙ digits_are_symbols code digits;
  digits_of =
      filter-append is_ascii_digit u code
      ∙ ap (λ t. text_append t (filter_chars is_ascii_digit code)) no_digits
      ∙ nil-append _
      ∙ filter_all is_ascii_digit code digits;
  some_digits = some_digits;
}

module _ (nom : Nom) (laws : IsNom nom) (code : String) (codes : List String) where
  begins_with_code : any (λ c. starts_with c code) (code ∷ codes) ≡ true
  begins_with_code = rw (starts_with_refl code) refl

  completed :
      (s : String)
      → IsCode code
      → (trimmed s ≡ "")
        ⊎ ((u : String) × (trimmed s ≡ String.◌∷◌ "+" u)
            × (drop_chars is_digit_or_symbol u ≡ "")
            × (filter_chars is_ascii_digit u ≡ ""))
      → (e : String) × (parse_prefix nom (code ∷ codes) (text_append s e) ≡ ok tt)
  completed s is_code (inl spaces) = (
    String.◌∷◌ "+" code,
    accepted-of_IsNumber nom laws (code ∷ codes) _ (IsNumber-spaces s code spaces is_code)
        begins_with_code,
  )
  completed s is_code (inr (u, plus, symbols, no_digits)) = (
    code,
    accepted-of_IsNumber nom laws (code ∷ codes) _
        (IsNumber-plus s code u plus symbols no_digits is_code) begins_with_code,
  )

  -- A prefix that is called incomplete can be completed: where the allowed countries have codes of
  -- digits, and there is one, some text makes it an accepted prefix when it is appended.
  pub incomplete_completes :
      (s : String)
      → All IsCode (code ∷ codes)
      → parse_prefix nom (code ∷ codes) s ≡ err incomplete
      → (e : String) × (parse_prefix nom (code ∷ codes) (text_append s e) ≡ ok tt)
  unfolding parse_prefix
  incomplete_completes s are_codes h =
      elim (judge-incomplete (code ∷ codes) (parse_phone_number nom s) h) [
        | inl nothing ↦ completed s are_codes.0 (parse-incomplete nom laws s nothing)
        | inr (d, parsed, starts) ↦
            let (missing, found, digits) = any-missing (code ∷ codes) d are_codes starts in
            (
              missing,
              accepted-of_IsNumber nom laws (code ∷ codes) (text_append s missing)
                  (IsNumber-append s missing (parse-IsNumber nom laws s parsed)
                    (digits_are_symbols missing digits))
                  (ap (λ t. any (λ c. starts_with c (text_append d t)) (code ∷ codes))
                      (filter_all is_ascii_digit missing digits)
                    ∙ found),
            )
      ]
