-- ===== src/Prelude/Find.antt =====
-- What `find` finds in a list that was appended to, filtered or mapped.
use text.Mathlib.TextPositions.{eq_refl}
use mathlib.Core.Path.{◌≡◌, refl, sym, ap, ◌∙◌}
use mathlib.Core.Bool.{Bool, true, false, not}
use mathlib.Core.Option.{Option, none, some}
use mathlib.Core.List.{List, [], ◌∷◌, ◌++◌}
use native.Mathlib.Omega.{arith}
use mathlib.Core.Logic.{◌⊎◌, inl, inr}
use lipa_lightning_lib.Prelude.Tests.{if◌then◌else◌}
use lipa_lightning_lib.Prelude.Lists.{find, filter, any}
use Prim.Native.String.{String}
use text.Mathlib.Text.{◌==◌}

-- `Option::or`
abbrev pub or_else {ℓ} : {A : Type ℓ} → Option A → Option A → Option A
or_else none y = y
or_else (some x) y = some x

abbrev pub is_some {ℓ} : {A : Type ℓ} → Option A → Bool
is_some none = false
is_some (some x) = true

abbrev pub map_option {ℓ κ} : {A : Type ℓ} {B : Type κ} → (A → B) → Option A → Option B
map_option f none = none
map_option f (some x) = some (f x)

module _ {ℓ} {A : Type ℓ} (p : A → Bool) where
  pub find-append : (xs ys : List A) → find p (xs ++ ys) ≡ or_else (find p xs) (find p ys)
  find-append [] ys = refl
  find-append (x ∷ xs) ys = ground (arith, find-append xs ys)

  pub any-eq-find : (xs : List A) → any p xs ≡ is_some (find p xs)
  any-eq-find [] = refl
  any-eq-find (x ∷ xs) = ground (arith, any-eq-find xs)

  find_here :
      (b : Bool) (y : A) (o : Option A) {x : A}
      → (if b then some y else o) ≡ some x
      → ((b ≡ true) × (y ≡ x)) ⊎ (o ≡ some x)
  find_here true y o h = inl (refl, cc)
  find_here false y o h = inr h

  -- What is found passes the test.
  pub find-holds : (xs : List A) {x : A} → find p xs ≡ some x → p x ≡ true
  find-holds [] h = cc
  find-holds (y ∷ xs) h = elim (find_here (p y) y (find p xs) h) [
    | inl (e, same) ↦ ap p (sym same) ∙ e
    | inr k ↦ find-holds xs k
  ]

  find-filter-not : (xs : List A) → find p (filter (λ x. not (p x)) xs) ≡ none
  find-filter-not [] = refl
  find-filter-not (x ∷ xs) = ground (arith, find-filter-not xs)

  -- A replaced row is found in its new form.
  pub find-replace :
      (xs : List A) (x : A) → p x ≡ true → find p (filter (λ y. not (p y)) xs ++ x ∷ []) ≡ some x
  find-replace xs x h =
      ground (arith, find-append (filter (λ y. not (p y)) xs) (x ∷ []), find-filter-not xs)

pub str_eq_refl : (s : String) → (s == s) ≡ true
str_eq_refl s = eq_refl s

-- `Option::and_then`, and `?` on an option
abbrev pub bind_option {ℓ κ} : {A : Type ℓ} {B : Type κ} → Option A → (A → Option B) → Option B
bind_option none f = none
bind_option (some a) f = f a
