-- ===== src/Parser/Domain.antt =====
-- parser/src/domain.rs. The number of graphemes of a text, of the crate `unicode_segmentation`, is a
-- parameter.
use lipa_lightning_lib.Prelude.{
  ℕ, String, Char, Bool, false, not, ◌&&◌, ◌||◌, Option, none, some, List, [], ◌∷◌, leb, ltb,
  length, if◌then◌else◌, same_char, is_ascii, is_ascii_alphabetic, is_ascii_alphanumeric, all_chars,
  count_chars, starts_with_char,
}
use lipa_lightning_lib.Db.{last}
use lipa_lightning_lib.Parser.Combinators.{Nom, Parse, IResult, done, error, failure, and_then}

unfoldable pub is_label_char : Char → Bool
is_label_char c = is_ascii_alphanumeric c || not (is_ascii c)

unfoldable pub is_punycode_char : Char → Bool
is_punycode_char c = is_ascii_alphanumeric c || same_char c "-"

pub data Label : Type 0 where
  unicode : String → Label
  unicode_with_hyphens : Label
  punycode : String → Label

-- the `match` on the parts of a label
unfoldable pub label_of_parts : String → List String → IResult Label
label_of_parts s [] = failure s
label_of_parts s (part ∷ []) = done s (unicode part)
label_of_parts s (part ∷ other ∷ parts) = done s unicode_with_hyphens

unfoldable pub is_valid_top_level_domain : (String → ℕ) → Label → Bool
unfolding is_punycode_char
is_valid_top_level_domain graphemes (unicode label) =
    leb 2 (graphemes label) && all_chars (λ c. is_ascii_alphabetic c || not (is_ascii c)) label
is_valid_top_level_domain graphemes unicode_with_hyphens = false
is_valid_top_level_domain graphemes (punycode label) =
    leb 4 (count_chars label) && all_chars is_punycode_char label

unfoldable pub ends_in_top_level_domain : (String → ℕ) → Option Label → Bool
unfolding is_valid_top_level_domain
ends_in_top_level_domain graphemes none = false
ends_in_top_level_domain graphemes (some l) = is_valid_top_level_domain graphemes l

-- the two conditions under which the labels make a domain
unfoldable pub is_domain : (String → ℕ) → String → List Label → Bool
unfolding ends_in_top_level_domain
is_domain graphemes rest labels =
    not (starts_with_char "." rest)
    && ltb 1 (length labels)
    && ends_in_top_level_domain graphemes (last labels)

module _ (nom : Nom) where
  unfoldable pub punycode_label : Parse Label
  unfolding is_punycode_char
  punycode_label = nom.mapped punycode (nom.take_while1 is_punycode_char)

  unfoldable pub unicode_label : Parse Label
  unfolding is_label_char label_of_parts
  unicode_label s =
      and_then (nom.separated_list1 (nom.char "-") (nom.take_while1 is_label_char) s) (λ rest parts.
        if starts_with_char "-" rest
        then nom.preceded (nom.char "-")
            (nom.mapped (λ (t : String). unicode_with_hyphens) (nom.take_while1 is_label_char)) rest
        else label_of_parts rest parts)

  -- the `match` on the outcome of `tag_no_case`
  unfoldable pub label_after_tag : String → IResult String → IResult Label
  unfolding punycode_label unicode_label
  label_after_tag s (done rest tag) = punycode_label rest
  label_after_tag s (error at) = unicode_label s
  label_after_tag s (failure at) = unicode_label s

  unfoldable pub label : Parse Label
  unfolding label_after_tag
  label s = label_after_tag s (nom.tag_no_case "xn--" s)

  unfoldable pub domain : (String → ℕ) → Parse (Unit {0})
  unfolding label is_domain
  domain graphemes s = and_then (nom.separated_list1 (nom.char ".") label s) (λ rest labels.
      if is_domain graphemes rest labels
      then done rest tt
      else nom.preceded (nom.char ".") (nom.mapped (λ _. tt) label) rest)
