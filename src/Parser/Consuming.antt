-- ===== src/Parser/Consuming.antt =====
-- What the parsers of the parser crate leave of a text is an end of the text.
use lipa_lightning_lib.Prelude.{
  ℕ, String, Char, Bool, true, false, inl, inr, List, [], ◌∷◌, Bool-cases, if◌then◌else◌,
  drop_chars, head_is, starts_with_char, is_space_or_tab, same_char,
}
use lipa_lightning_lib.Parser.Combinators.{
  Nom, IsNom, Parse, IResult, done, error, failure, and_then, IsEnd, whole, further, Leaves,
  Consumes,
}
use lipa_lightning_lib.Parser.Domain.{
  label_of_parts, punycode_label, unicode_label, label_after_tag, label, is_domain, domain,
}
use lipa_lightning_lib.Parser.PhoneNumber.{phone_number}
use lipa_lightning_lib.Parser.LightningAddress.{lightning_address}

pub IsEnd-trans : {r s t : String} → IsEnd r s → IsEnd s t → IsEnd r t
IsEnd-trans h whole = h
IsEnd-trans h (further c k) = further c (IsEnd-trans h k)

pub Leaves-trans : {A : Type 0} {r s : String} (o : IResult A) → IsEnd r s → Leaves r o → Leaves s o
Leaves-trans (done rest a) h k = IsEnd-trans k h
Leaves-trans (error at) h k = IsEnd-trans k h
Leaves-trans (failure at) h k = IsEnd-trans k h

pub Leaves-and_then :
    {A B : Type 0} (s : String) (o : IResult A) (f : String → A → IResult B)
    → Leaves s o
    → ((rest : String) (a : A) → Leaves rest (f rest a))
    → Leaves s (and_then o f)
unfolding and_then
Leaves-and_then s (done rest a) f h hf = Leaves-trans (f rest a) h (hf rest a)
Leaves-and_then s (error at) f h hf = h
Leaves-and_then s (failure at) f h hf = h

Leaves-if :
    {A : Type 0} (s : String) (b : Bool) (o o' : IResult A)
    → Leaves s o
    → Leaves s o'
    → Leaves s (if b then o else o')
Leaves-if s true o o' h k = h
Leaves-if s false o o' h k = k

pub drop_chars-IsEnd : (p : Char → Bool) (s : String) → IsEnd (drop_chars p s) s
unfolding drop_chars
drop_chars-IsEnd p String.[] = whole
drop_chars-IsEnd p (String.◌∷◌ c s) = elim (Bool-cases (p c)) [
  | inl e ↦ rw e (further c (drop_chars-IsEnd p s))
  | inr e ↦ rw e whole
]

module _ (nom : Nom) (laws : IsNom nom) where
  pub take_while-Consumes : (p : Char → Bool) → Consumes (nom.take_while p)
  take_while-Consumes p = record { at = λ s. rw (laws.take_while_lem p s) (drop_chars-IsEnd p s) }

  pub take_while1-Consumes : (p : Char → Bool) → Consumes (nom.take_while1 p)
  take_while1-Consumes p = record {
    at = λ s.
        rw (laws.take_while1_lem p s) (Leaves-if s (head_is p s) _ _ (drop_chars-IsEnd p s) whole);
  }

  pub space0-Consumes : Consumes nom.space0
  space0-Consumes = record { at = λ s. rw (laws.space0_lem s) (drop_chars-IsEnd is_space_or_tab s) }

  char-Leaves : (c : Char) (s : String) → Leaves s (nom.char c s)
  char-Leaves c String.[] = rw (laws.char_end c) whole
  char-Leaves c (String.◌∷◌ d s) =
      rw (laws.char_lem c d s) (Leaves-if _ (same_char c d) _ _ (further d whole) whole)

  pub char-Consumes : (c : Char) → Consumes (nom.char c)
  char-Consumes c = record { at = char-Leaves c }

  pub preceded-Consumes :
      {A B : Type 0} (p : Parse A) (q : Parse B)
      → Consumes p
      → Consumes q
      → Consumes (nom.preceded p q)
  preceded-Consumes p q hp hq = record {
    at = λ s.
        rw (laws.preceded_lem p q s) (Leaves-and_then s (p s) _ (hp.at s) (λ rest _. hq.at rest));
  }

  pub mapped-Consumes :
      {A B : Type 0} (f : A → B) (p : Parse A) → Consumes p → Consumes (nom.mapped f p)
  mapped-Consumes f p hp = record {
    at = λ s. rw (laws.mapped_lem f p s) (Leaves-and_then s (p s) _ (hp.at s) (λ rest _. whole));
  }

  pub separated_pair-Consumes :
      {A B C : Type 0} (p : Parse A) (q : Parse B) (r : Parse C)
      → Consumes p
      → Consumes q
      → Consumes r
      → Consumes (nom.separated_pair p q r)
  separated_pair-Consumes p q r hp hq hr = record {
    at = λ s. rw (laws.separated_pair_lem p q r s) (
        Leaves-and_then s (p s) _ (hp.at s) λ rest a.
          Leaves-and_then rest (q rest) _ (hq.at rest)
            λ rest' _. Leaves-and_then rest' (r rest') _ (hr.at rest') (λ rest'' c. whole));
  }

  pub delimited-Consumes :
      {A B C : Type 0} (p : Parse A) (q : Parse B) (r : Parse C)
      → Consumes p
      → Consumes q
      → Consumes r
      → Consumes (nom.delimited p q r)
  delimited-Consumes p q r hp hq hr = record {
    at = λ s. rw (laws.delimited_lem p q r s) (
        Leaves-and_then s (p s) _ (hp.at s) λ rest a.
          Leaves-and_then rest (q rest) _ (hq.at rest)
            λ rest' _. Leaves-and_then rest' (r rest') _ (hr.at rest') (λ rest'' c. whole));
  }

  pub ruleset consumes = (
    take_while-Consumes, take_while1-Consumes, space0-Consumes, char-Consumes, preceded-Consumes,
    mapped-Consumes, separated_pair-Consumes, delimited-Consumes,
  )

  label_of_parts-Leaves : (s : String) (parts : List String) → Leaves s (label_of_parts s parts)
  unfolding label_of_parts
  label_of_parts-Leaves s [] = whole
  label_of_parts-Leaves s (part ∷ []) = whole
  label_of_parts-Leaves s (part ∷ other ∷ parts) = whole

  pub unicode_label-Consumes : Consumes (unicode_label nom)
  unfolding unicode_label
  unicode_label-Consumes = record {
    at = λ s.
        Leaves-and_then s _ _
          ((laws.separated_list1-Consumes (nom.char "-") _ (char-Consumes "-")
              (take_while1-Consumes _)).at
            s)
          λ rest parts.
            Leaves-if rest (starts_with_char "-" rest) _ _
              ((preceded-Consumes _ _ (char-Consumes "-")
                  (mapped-Consumes _ _ (take_while1-Consumes _))).at
                rest)
              (label_of_parts-Leaves rest parts);
  }

  label_after_tag-Leaves :
      (s : String) (o : IResult String) → Leaves s o → Leaves s (label_after_tag nom s o)
  unfolding label_after_tag punycode_label
  label_after_tag-Leaves s (done rest tag) h =
      Leaves-trans _ h ((mapped-Consumes _ _ (take_while1-Consumes _)).at rest)
  label_after_tag-Leaves s (error at) h = unicode_label-Consumes.at s
  label_after_tag-Leaves s (failure at) h = unicode_label-Consumes.at s

  pub label-Consumes : Consumes (label nom)
  unfolding label
  label-Consumes = record {
    at = λ s. label_after_tag-Leaves s _ ((laws.tag_no_case-Consumes "xn--").at s);
  }

  pub domain-Consumes : (graphemes : String → ℕ) → Consumes (domain nom graphemes)
  unfolding domain
  domain-Consumes graphemes = record {
    at = λ s.
        Leaves-and_then s _ _
          ((laws.separated_list1-Consumes (nom.char ".") (label nom) (char-Consumes ".")
              label-Consumes).at
            s)
          λ rest labels.
            Leaves-if {A = Unit {0}} rest (is_domain graphemes rest labels) (done rest tt) _ whole (
              (preceded-Consumes _ _ (char-Consumes ".")
                  (mapped-Consumes (λ _. tt) _ label-Consumes)).at
                rest);
  }

  pub lightning_address-Consumes :
      (graphemes : String → ℕ) → Consumes (lightning_address nom graphemes)
  unfolding lightning_address
  lightning_address-Consumes graphemes = record {
    at = λ s.
        Leaves-and_then s _ _
          ((separated_pair-Consumes _ _ _ (take_while1-Consumes _) (char-Consumes "@")
              (domain-Consumes graphemes)).at
            s)
          (λ rest parts. whole);
  }

  pub phone_number-Consumes : Consumes (phone_number nom)
  unfolding phone_number
  phone_number-Consumes = record {
    at = λ s.
        Leaves-and_then s _ _
          ((preceded-Consumes _ _ (char-Consumes "+") (take_while-Consumes _)).at s)
          (λ rest symbols. whole);
  }
