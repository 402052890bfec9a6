-- ===== src/PhoneNumber/Prefix/Continued.antt =====
-- Numbers, and texts that continue them.
use lipa_lightning_lib.Prelude.{
  String, Char, true, false, ◌≡◌, ◌≢◌, refl, sym, ap, ◌∙◌, inl, inr, List, [], ◌∷◌, arith,
  Bool-cases, any, text_append, drop_chars, filter_chars, is_ascii_digit, starts_with,
  starts_with-append, starts_with-either, drop-append, drop-append_more, filter-append,
  is_space_or_tab,
}
use text.Mathlib.TextLemmas.{cons-append}
use lipa_lightning_lib.Parser.PhoneNumber.{is_digit_or_symbol}
use lipa_lightning_lib.Parser.Numbers.{IsNumber, trimmed}

cons_ne : (c : Char) (s : String) → String.◌∷◌ c s ≢ String.[]
cons_ne c s h = cc

append_ne : (d e : String) → d ≢ "" → text_append d e ≢ ""
append_ne String.[] e h k = h refl
append_ne (String.◌∷◌ c d) e h k = cons_ne c (text_append d e) (sym (cons-append c d e) ∙ k)

trimmed_ne : (s : String) {u : String} → trimmed s ≡ String.◌∷◌ "+" u → trimmed s ≢ ""
trimmed_ne s {u} h k = cons_ne "+" u (sym h ∙ k)

pub plus-append :
    (s e : String) {u : String}
    → trimmed s ≡ String.◌∷◌ "+" u
    → trimmed (text_append s e) ≡ String.◌∷◌ "+" (text_append u e)
plus-append s e {u} h =
    drop-append_more is_space_or_tab s e (trimmed_ne s h)
    ∙ ap (λ t. text_append t e) h
    ∙ cons-append "+" u e

-- A number that is continued by digits and symbols is the number with the digits that come after.
pub IsNumber-append :
    (s e : String) {d : String}
    → IsNumber s d
    → drop_chars is_digit_or_symbol e ≡ ""
    → IsNumber (text_append s e) (text_append d (filter_chars is_ascii_digit e))
IsNumber-append s e {d} h all_symbols = record {
  after_plus = text_append h.after_plus e;
  plus = plus-append s e h.plus;
  symbols = drop-append is_digit_or_symbol h.after_plus e h.symbols ∙ all_symbols;
  digits_of =
      filter-append is_ascii_digit h.after_plus e
      ∙ ap (λ t. text_append t (filter_chars is_ascii_digit e)) h.digits_of;
  some_digits = append_ne d _ h.some_digits;
}

plus_inj : {u v : String} → String.◌∷◌ "+" u ≡ String.◌∷◌ "+" v → u ≡ v
plus_inj h = cc

-- The digits of a text that continues a number.
pub digits-append :
    (s e : String) {d d' : String}
    → IsNumber s d
    → IsNumber (text_append s e) d'
    → d' ≡ text_append d (filter_chars is_ascii_digit e)
digits-append s e {d} {d'} h h' =
    sym h'.digits_of
    ∙ ap (filter_chars is_ascii_digit) (plus_inj (sym h'.plus ∙ plus-append s e h.plus))
    ∙ filter-append is_ascii_digit h.after_plus e
    ∙ ap (λ t. text_append t (filter_chars is_ascii_digit e)) h.digits_of

-- A code that begins no digits, and that they do not begin, begins no longer digits either.
pub any-append :
    (codes : List String) (d x : String)
    → any (λ c. starts_with c d) codes ≡ false
    → any (λ c. starts_with d c) codes ≡ false
    → any (λ c. starts_with c (text_append d x)) codes ≡ false
any-append [] d x h k = refl
any-append (c ∷ codes) d x h k = elim (Bool-cases (starts_with c (text_append d x))) [
  | inl e ↦ elim (starts_with-either c d x e) [ inl a ↦ ground arith | inr b ↦ ground arith ]
  | inr e ↦ ground (arith, any-append codes d x)
]

pub any-longer :
    (codes : List String) (d x : String)
    → any (λ c. starts_with c d) codes ≡ true
    → any (λ c. starts_with c (text_append d x)) codes ≡ true
any-longer [] d x h = cc
any-longer (c ∷ codes) d x h = ground (arith, starts_with-append c d x, any-longer codes d x)
