-- ===== src/Parser/Standard.antt =====
-- Combinators that behave as `nom` documents it, on which the parsers are tried.
use lipa_lightning_lib.Prelude.{
  ℕ, zero, suc, ◌+◌, refl, String, Char, inl, inr, Bool-cases, ◌&&◌, ◌==◌, leb, Option, none, some,
  List, [], ◌∷◌, if◌then◌else◌, take_chars, drop_chars, head_is, same_char, is_space_or_tab,
  count_chars,
}
use Prim.Native.Char.{code}
use lipa_lightning_lib.Parser.Combinators.{
  Nom, IsNom, Parse, IResult, done, error, failure, and_then, IsEnd, whole, further, Leaves,
  Consumes,
}
use lipa_lightning_lib.Parser.Consuming.{IsEnd-trans, Leaves-trans, Leaves-and_then}

unfoldable pub lower : ℕ → ℕ
lower c = if leb 65 c && leb c 90 then c + 32 else c

unfoldable pub strip_no_case : String → String → Option String
unfolding lower
strip_no_case String.[] s = some s
strip_no_case (String.◌∷◌ c t) String.[] = none
strip_no_case (String.◌∷◌ c t) (String.◌∷◌ d s) =
    let rest = strip_no_case t s in if lower (code c) == lower (code d) then rest else none

unfoldable pub tag_result : String → String → Option String → IResult String
tag_result t s none = error s
tag_result t s (some rest) = done rest t

-- the list ends where a parser is in error
unfoldable pub recover :
    {A B : Type 0} → String → IResult A → (String → A → IResult (List B)) → IResult (List B)
recover s (done rest a) f = f rest a
recover s (error at) f = done s []
recover s (failure at) f = failure at

-- the elements after the first, with fuel
unfoldable pub more : {A B : Type 0} → Parse A → Parse B → ℕ → Parse (List B)
unfolding recover and_then
more p q zero s = done s []
more p q (suc fuel) s = recover s (p s) (λ rest _.
    recover s (q rest) (λ rest' x. and_then (more p q fuel rest') (λ end ys. done end (x ∷ ys))))

unfoldable pub char_result : Char → String → IResult Char
char_result c String.[] = error ""
char_result c (String.◌∷◌ d s) = if same_char c d then done s c else error (String.◌∷◌ d s)

abbrev pub standard : Nom
standard = record {
  take_while = λ p s. done (drop_chars p s) (take_chars p s);
  take_while1 = λ p s. if head_is p s then done (drop_chars p s) (take_chars p s) else error s;
  char = char_result;
  tag_no_case = λ t s. tag_result t s (strip_no_case t s);
  space0 = λ s. done (drop_chars is_space_or_tab s) (take_chars is_space_or_tab s);
  mapped = λ f p s. and_then (p s) (λ rest a. done rest (f a));
  preceded = λ p q s. and_then (p s) (λ rest _. q rest);
  delimited = λ p q r s.
      and_then (p s)
        (λ rest _. and_then (q rest) (λ rest' b. and_then (r rest') (λ end _. done end b)));
  separated_pair = λ p q r s.
      and_then (p s)
        (λ rest a. and_then (q rest) (λ rest' _. and_then (r rest') (λ end c. done end (a, c))));
  separated_list1 = λ p q s.
      and_then (q s)
        (λ rest x. and_then (more p q (count_chars rest) rest) (λ end xs. done end (x ∷ xs)));
}

strip_no_case-Leaves :
    (r t s u : String) → IsEnd s u → Leaves u (tag_result r u (strip_no_case t s))
unfolding strip_no_case tag_result
strip_no_case-Leaves r String.[] s u h = h
strip_no_case-Leaves r (String.◌∷◌ c t) String.[] u h = whole
strip_no_case-Leaves r (String.◌∷◌ c t) (String.◌∷◌ d s) u h =
    elim (Bool-cases (lower (code c) == lower (code d))) [
      | inl e ↦ rw e (strip_no_case-Leaves r t s u (IsEnd-trans (further d whole) h))
      | inr e ↦ rw e whole
    ]

recover-Leaves :
    {A B : Type 0} (s : String) (o : IResult A) (f : String → A → IResult (List B))
    → Leaves s o
    → ((rest : String) (a : A) → IsEnd rest s → Leaves s (f rest a))
    → Leaves s (recover s o f)
unfolding recover
recover-Leaves s (done rest a) f h hf = hf rest a h
recover-Leaves s (error at) f h hf = whole
recover-Leaves s (failure at) f h hf = h

module _ {A B : Type 0} (p : Parse A) (q : Parse B) (hp : Consumes p) (hq : Consumes q) where
  more-Leaves : (fuel : ℕ) (s : String) → Leaves s (more p q fuel s)
  unfolding more
  more-Leaves zero s = whole
  more-Leaves (suc fuel) s = recover-Leaves s (p s) _ (hp.at s) λ rest a h.
      recover-Leaves s (q rest) _ (Leaves-trans (q rest) h (hq.at rest)) λ rest' x h'.
        Leaves-and_then s (more p q fuel rest') _
          (Leaves-trans (more p q fuel rest') h' (more-Leaves fuel rest')) (λ end ys. whole)

  list-Consumes : Consumes (standard.separated_list1 p q)
  list-Consumes = record {
    at = λ s. Leaves-and_then s (q s) _ (hq.at s) λ rest x.
        Leaves-and_then rest (more p q (count_chars rest) rest) _ (more-Leaves _ rest)
          (λ end xs. whole);
  }

pub standard-IsNom : IsNom standard
unfolding char_result
standard-IsNom = record {
  take_while_lem = λ p s. refl;
  take_while1_lem = λ p s. refl;
  char_lem = λ c d s. refl;
  char_end = λ c. refl;
  space0_lem = λ s. refl;
  mapped_lem = λ f p s. refl;
  preceded_lem = λ p q s. refl;
  delimited_lem = λ p q r s. refl;
  separated_pair_lem = λ p q r s. refl;
  tag_no_case-Consumes = λ t. record { at = λ s. strip_no_case-Leaves t t s s whole };
  separated_list1-Consumes = λ p q hp hq. list-Consumes p q hp hq;
}
