-- ===== src/PhoneNumber/RoundTrip.antt =====
-- A phone number and the lightning address that stands for it.
use text.Mathlib.TextLemmas.{append_assoc}
use lipa_lightning_lib.Prelude.{
  String, true, ◌≡◌, ◌↔◌, refl, sym, ap, ◌∙◌, Option, none, some, text_append, inl, inr, Bool-cases,
  all_chars, is_ascii_digit, strip_suffix, strip_suffix-append, append-strip_suffix,
  replace_first-head, strip_prefix_char-head, head-strip_prefix_char,
}
use lipa_lightning_lib.PhoneNumber.{
  to_lightning_address, lightning_address_to_phone_number, phone_number_of, username_of,
}

-- A plus sign and digits, of any number, none included. The code asks no more of a number, so this is wider
-- than the E164 format.
abbrev pub IsPlusDigits : String → Type 0
IsPlusDigits e164 =
    (digits : String) × (e164 ≡ text_append "+" digits) × (all_chars is_ascii_digit digits ≡ true)

address_of-digits :
    (digits domain : String)
    → to_lightning_address (text_append "+" digits) domain
      ≡ text_append (text_append "-" digits) domain
unfolding to_lightning_address
address_of-digits digits domain = ap (λ t. text_append t domain) (replace_first-head "+" "-" digits)

number_at-digits :
    (digits domain : String)
    → all_chars is_ascii_digit digits ≡ true
    → lightning_address_to_phone_number (text_append "-" (text_append digits domain)) domain
      ≡ some (text_append "+" digits)
unfolding lightning_address_to_phone_number phone_number_of username_of
number_at-digits digits domain h =
    rw
      (strip_prefix_char-head "-" (text_append digits domain), strip_suffix-append digits domain, h)
      refl

phone_number_of-some :
    (o : Option String) {e164 : String}
    → phone_number_of o ≡ some e164
    → (u : String) × (o ≡ some u) × (e164 ≡ text_append "+" u) × (all_chars is_ascii_digit u ≡ true)
unfolding phone_number_of
phone_number_of-some none h = cc
phone_number_of-some (some u) h = elim (Bool-cases (all_chars is_ascii_digit u)) [
  | inl digits ↦ (let k = rw digits at h in (u, refl, cc, digits))
  | inr other ↦ (let k = rw other at h in cc)
]

username_of-some :
    (o : Option String) (domain : String) {u : String}
    → username_of o domain ≡ some u
    → (r : String) × (o ≡ some r) × (strip_suffix r domain ≡ some u)
unfolding username_of
username_of-some none domain h = cc
username_of-some (some r) domain h = (r, refl, h)

number_at-inverse :
    (address domain e164 : String)
    → lightning_address_to_phone_number address domain ≡ some e164
    → IsPlusDigits e164 × (to_lightning_address e164 domain ≡ address)
unfolding lightning_address_to_phone_number
number_at-inverse address domain e164 h =
    let (u, f, e, digits) = phone_number_of-some _ h in
    let (r, g, k) = username_of-some _ domain f in
    (
      (u, e, digits),
      ap (λ t. to_lightning_address t domain) e
          ∙ address_of-digits u domain
          ∙ append_assoc "-" u domain
          ∙ ap (λ t. text_append "-" t) (append-strip_suffix r domain k)
          ∙ head-strip_prefix_char "-" address g,
    )

-- An address stands for a number exactly where the number is a plus sign followed by digits, as many as
-- there may be and also none, and the address is the one that is made from it: the two conversions are inverse to each other, for any
-- domain.
pub phone_number-iff-address :
    (address domain e164 : String)
    → (lightning_address_to_phone_number address domain ≡ some e164)
      ↔ (IsPlusDigits e164 × (to_lightning_address e164 domain ≡ address))
phone_number-iff-address address domain e164 = (
  number_at-inverse address domain e164,
  λ ((digits, e, d), same).
      rw (sym same, e, address_of-digits digits domain, append_assoc "-" digits domain)
        (number_at-digits digits domain d),
)
