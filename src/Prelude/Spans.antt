-- ===== src/Prelude/Spans.antt =====
-- The beginning of a text that satisfies a test, and texts that begin with another.
use Prim.Native.Nat.{◌+◌}
use lipa_lightning_lib.Prelude.Texts.{byte_len}
use Prim.Native.Char.{Char, code}
use Prim.Native.String.{String, [], ◌∷◌, ◌++◌}
use mathlib.Core.Path.{◌≡◌, refl, sym, ap, ◌∙◌}
use mathlib.Core.Logic.{◌⊎◌, inl, inr, ◌≢◌}
use mathlib.Core.Bool.{Bool, true, false}
use native.Mathlib.Omega.{arith}
use text.Mathlib.TextEquality.{Char-path}
use text.Mathlib.TextLemmas.{cons-append, nil-append}
use lipa_lightning_lib.Prelude.Tests.{◌==◌, Bool-cases}
use lipa_lightning_lib.Prelude.Find.{is_some}
use lipa_lightning_lib.Prelude.Texts.{all_chars, take_chars, drop_chars, filter_chars, strip_prefix}

module _ (p : Char → Bool) where
  pub drop-append : (s t : String) → drop_chars p s ≡ [] → drop_chars p (s ++ t) ≡ drop_chars p t
  unfolding drop_chars
  drop-append [] t h = ap (drop_chars p) (nil-append t)
  drop-append (c ∷ s) t h = elim (Bool-cases (p c)) [
    | inl e ↦ ap (drop_chars p) (cons-append c s t) ∙ rw e (drop-append s t (rw e at h))
    | inr e ↦ (let k = rw e at h in cc)
  ]

  pub drop-append_more :
      (s t : String) → drop_chars p s ≢ [] → drop_chars p (s ++ t) ≡ drop_chars p s ++ t
  unfolding drop_chars
  drop-append_more [] t h = absurd (h refl)
  drop-append_more (c ∷ s) t h = elim (Bool-cases (p c)) [
    | inl e ↦ ap (drop_chars p) (cons-append c s t) ∙ rw e (drop-append_more s t (rw e at h))
    | inr e ↦ ap (drop_chars p) (cons-append c s t) ∙ rw e (sym (cons-append c s t))
  ]

  pub take_all : (s : String) → drop_chars p s ≡ [] → take_chars p s ≡ s
  unfolding drop_chars take_chars
  take_all [] h = refl
  take_all (c ∷ s) h = elim (Bool-cases (p c)) [
    | inl e ↦ rw e (ap (λ r. c ∷ r) (take_all s (rw e at h)))
    | inr e ↦ (let k = rw e at h in cc)
  ]

  pub filter-append :
      (s t : String) → filter_chars p (s ++ t) ≡ filter_chars p s ++ filter_chars p t
  unfolding filter_chars
  filter-append [] t = ap (filter_chars p) (nil-append t) ∙ sym (nil-append _)
  filter-append (c ∷ s) t = elim (Bool-cases (p c)) [
    | inl e ↦
        ap (filter_chars p) (cons-append c s t)
        ∙ rw e (ap (λ r. c ∷ r) (filter-append s t) ∙ sym (cons-append c _ _))
    | inr e ↦ ap (filter_chars p) (cons-append c s t) ∙ rw e (filter-append s t)
  ]

  pub filter_all : (s : String) → all_chars p s ≡ true → filter_chars p s ≡ s
  unfolding filter_chars all_chars
  filter_all [] h = refl
  filter_all (c ∷ s) h = elim (Bool-cases (p c)) [
    | inl e ↦ rw e (ap (λ r. c ∷ r) (filter_all s (rw e at h)))
    | inr e ↦ (let k = rw e at h in cc)
  ]

  pub drop_all : (s : String) → all_chars p s ≡ true → drop_chars p s ≡ []
  unfolding drop_chars all_chars
  drop_all [] h = refl
  drop_all (c ∷ s) h = elim (Bool-cases (p c)) [
    | inl e ↦ rw e (drop_all s (rw e at h))
    | inr e ↦ (let k = rw e at h in cc)
  ]

-- What stops a test stops a narrower one.
pub drop-drop :
    (p q : Char → Bool) (s : String)
    → ((c : Char) → q c ≡ false → p c ≡ false)
    → drop_chars p (drop_chars q s) ≡ drop_chars q s
unfolding drop_chars
drop-drop p q [] h = refl
drop-drop p q (c ∷ s) h = elim (Bool-cases (q c)) [
  | inl e ↦ rw e (drop-drop p q s h)
  | inr e ↦ rw (e, h c e) refl
]

-- `starts_with`, of a text
unfoldable pub starts_with : String → String → Bool
unfolding strip_prefix
starts_with p s = is_some (strip_prefix p s)

code_self : (c : Char) → (code c == code c) ≡ true
code_self c = ground arith

pub starts_with_self : (p r : String) → starts_with p (p ++ r) ≡ true
unfolding starts_with strip_prefix
starts_with_self [] r = refl
starts_with_self (c ∷ p) r =
    ap (starts_with (c ∷ p)) (cons-append c p r) ∙ rw (code_self c) (starts_with_self p r)

pub starts_with-append : (p s t : String) → starts_with p s ≡ true → starts_with p (s ++ t) ≡ true
unfolding starts_with strip_prefix
starts_with-append [] s t h = refl
starts_with-append (c ∷ p) [] t h = cc
starts_with-append (c ∷ p) (d ∷ s) t h = elim (Bool-cases (code d == code c)) [
  | inl e ↦
      ap (starts_with (c ∷ p)) (cons-append d s t) ∙ rw e (starts_with-append p s t (rw e at h))
  | inr e ↦ (let k = rw e at h in cc)
]

-- A beginning of a longer text begins the shorter one, or the shorter one begins it.
pub starts_with-either :
    (p s t : String)
    → starts_with p (s ++ t) ≡ true
    → (starts_with p s ≡ true) ⊎ (starts_with s p ≡ true)
unfolding starts_with strip_prefix
starts_with-either [] s t h = inl refl
starts_with-either (c ∷ p) [] t h = inr refl
starts_with-either (c ∷ p) (d ∷ s) t h =
    let k = sym (ap (starts_with (c ∷ p)) (cons-append d s t)) ∙ h in
    elim (Bool-cases (code d == code c)) [
      | inl e ↦
          let e' : (code c == code d) ≡ true = ground arith in
          elim (starts_with-either p s t (rw e at k)) [
            | inl yes' ↦ inl (rw e yes')
            | inr no' ↦ inr (rw e' no')
          ]
      | inr e ↦ (let no' = rw e at k in cc)
    ]

-- What comes after the beginning.
pub starts_with-rest : (p s : String) → starts_with p s ≡ true → (r : String) × (p ++ r ≡ s)
unfolding starts_with strip_prefix
starts_with-rest [] s h = (s, nil-append s)
starts_with-rest (c ∷ p) [] h = cc
starts_with-rest (c ∷ p) (d ∷ s) h = elim (Bool-cases (code d == code c)) [
  | inl e ↦
      let (r, same) = starts_with-rest p s (rw e at h) in
      let f : c ≡ d = Char-path c d (ground arith) in
      (r, cons-append c p r ∙ ap (λ t. c ∷ t) same ∙ ap (λ x. x ∷ s) f)
  | inr e ↦ (let k = rw e at h in cc)
]

pub starts_with_refl : (p : String) → starts_with p p ≡ true
unfolding starts_with strip_prefix
starts_with_refl [] = refl
starts_with_refl (c ∷ p) = rw (code_self c) (starts_with_refl p)

pub all_chars-append :
    (p : Char → Bool) (s t : String) → all_chars p (s ++ t) ≡ true → all_chars p t ≡ true
unfolding all_chars
all_chars-append p [] t h = ap (all_chars p) (sym (nil-append t)) ∙ h
all_chars-append p (c ∷ s) t h =
    let k = sym (ap (all_chars p) (cons-append c s t)) ∙ h in all_chars-append p s t (ground arith)

pub all_chars_mono :
    (p q : Char → Bool) (s : String)
    → ((c : Char) → p c ≡ true → q c ≡ true)
    → all_chars p s ≡ true
    → all_chars q s ≡ true
unfolding all_chars
all_chars_mono p q [] f h = refl
all_chars_mono p q (c ∷ s) f h = ground (arith, f c, all_chars_mono p q s f)

pub byte_len-append : (s t : String) → byte_len (s ++ t) ≡ byte_len s + byte_len t
unfolding byte_len
byte_len-append [] t = ap byte_len (nil-append t) ∙ omega arith
byte_len-append (c ∷ s) t =
    let h = byte_len-append s t in ap byte_len (cons-append c s t) ∙ omega arith
