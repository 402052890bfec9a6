-- ===== src/Prelude/Sublists.antt =====
-- Lists of which every element has a property, and parts of lists.
use Prim.Native.Nat.{ℕ, zero, suc, ◌+◌, ◌≤◌, ◌<◌, min}
use mathlib.Core.Path.{◌≡◌, refl, ap}
use mathlib.Core.Logic.{inl, inr}
use mathlib.Core.Bool.{Bool, true, false}
use mathlib.Core.List.{List, [], ◌∷◌, ◌++◌}
use native.Mathlib.Omega.{arith}
use lipa_lightning_lib.Prelude.Tests.{leb, leb→le, if◌then◌else◌, Bool-cases}
use lipa_lightning_lib.Prelude.Lists.{length, take, drop, filter, All}

module _ {A : Type 0} where
  pub All-take : (P : A → Type 0) (n : ℕ) (xs : List A) → All P xs → All P (take n xs)
  All-take P zero xs h = tt
  All-take P (suc n) [] h = tt
  All-take P (suc n) (x ∷ xs) (p, h) = (p, All-take P n xs h)

  pub filter-cases :
      (P : List A → Type 0) (b : Bool) (xs ys : List A) → P xs → P ys → P (if b then xs else ys)
  filter-cases P true xs ys h k = h
  filter-cases P false xs ys h k = k

  pub All-filter : (P : A → Type 0) (p : A → Bool) (xs : List A) → All P xs → All P (filter p xs)
  All-filter P p [] h = tt
  All-filter P p (x ∷ xs) (q, h) =
      filter-cases (All P) (p x) _ _ (q, All-filter P p xs h) (All-filter P p xs h)

  pub All-mono : {P Q : A → Type 0} (xs : List A) → ((x : A) → P x → Q x) → All P xs → All Q xs
  All-mono [] f h = tt
  All-mono (x ∷ xs) f (p, h) = (f x p, All-mono xs f h)

  pub filter-satisfied : (p : A → Bool) (xs : List A) → All (λ x. p x ≡ true) (filter p xs)
  filter-satisfied p [] = tt
  filter-satisfied p (x ∷ xs) = elim (Bool-cases (p x)) [
    | inl e ↦ rw e (e, filter-satisfied p xs)
    | inr e ↦ rw e (filter-satisfied p xs)
  ]

  pub filter-take-drop :
      (p : A → Bool) (n : ℕ) (xs : List A)
      → filter p (take n xs) ++ filter p (drop n xs) ≡ filter p xs
  filter-take-drop p zero xs = refl
  filter-take-drop p (suc n) [] = refl
  filter-take-drop p (suc n) (x ∷ xs) = ground (arith, filter-take-drop p n xs)

  pub All-append : (P : A → Type 0) (xs ys : List A) → All P xs → All P ys → All P (xs ++ ys)
  All-append P [] ys h k = k
  All-append P (x ∷ xs) ys (p, h) k = (p, All-append P xs ys h k)

  pub count-append :
      (p : A → Bool) (xs ys : List A)
      → length (filter p (xs ++ ys)) ≡ length (filter p xs) + length (filter p ys)
  count-append p [] ys = omega arith
  count-append p (x ∷ xs) ys = ground (arith, count-append p xs ys)

  take-all : (n : ℕ) (xs : List A) → length xs ≤ n → take n xs ≡ xs
  take-all zero [] h = refl
  take-all zero (x ∷ xs) h = absurd (omega arith)
  take-all (suc n) [] h = refl
  take-all (suc n) (x ∷ xs) h = ap (λ l. x ∷ l) (take-all n xs (omega arith))

  pub take-min : (n : ℕ) (xs : List A) → take (min n (length xs)) xs ≡ take n xs
  take-min n xs = elim (Bool-cases (leb n (length xs))) [
    | inl e ↦ let le = leb→le _ _ e in let m : min n (length xs) ≡ n = omega arith in rw m refl
    | inr e ↦
        let lt : length xs < n = ground arith in
        let m : min n (length xs) ≡ length xs = omega arith in
        rw (m, take-all (length xs) xs (omega arith), take-all n xs (omega arith)) refl
  ]

  pub length-take : (n : ℕ) (xs : List A) → length (take n xs) ≤ n
  length-take zero xs = omega arith
  length-take (suc n) [] = omega arith
  length-take (suc n) (x ∷ xs) = let ih = length-take n xs in omega arith
