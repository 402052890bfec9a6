-- ===== src/Prelude/Sorting.antt =====
-- `sort` and `sort_by_key` of Rust's slices, which are stable, and the order of texts.
use mathlib.Core.Path.{subst}
use Prim.Native.Char.{code}
use Prim.Native.String.{String}
use mathlib.Core.Path.{◌≡◌, refl, sym, ap, ◌∙◌}
use mathlib.Core.Logic.{◌⊎◌, inl, inr, ◌↔◌}
use mathlib.Core.Bool.{Bool, true, false}
use mathlib.Core.List.{List, [], ◌∷◌, Memᴰ}
use mathlib.Core.List.Memᴰ
use mathlib.Core.List.Memᴰ.{head, tail}
use native.Mathlib.Omega.{arith}
use text.Mathlib.TextEquality.{Char-path}
use lipa_lightning_lib.Prelude.Tests.{ltb, ◌==◌, if◌then◌else◌, Bool-cases}
use lipa_lightning_lib.Prelude.Lists.{All}
use lipa_lightning_lib.Prelude.Sublists.{All-mono}

module _ {A : Type 0} where
  pub All-at : (P : A → Type 0) {e : A} (xs : List A) → All P xs → Memᴰ e xs → P e
  All-at P [] h m = absurd (Memᴰ.not-nil m)
  All-at P (x ∷ xs) (p, h) (head e) = subst P (sym e) p
  All-at P (x ∷ xs) (p, h) (tail m) = All-at P xs h m

  pub All-of_at : {P : A → Type 0} (xs : List A) → ((e : A) → Memᴰ e xs → P e) → All P xs
  All-of_at [] f = tt
  All-of_at (x ∷ xs) f = (f x (head refl), All-of_at xs (λ e m. f e (tail m)))

  -- Every element is related to the later ones.
  abbrev pub IsPairwise : (A → A → Type 0) → List A → Type 0
  IsPairwise R [] = Unit
  IsPairwise R (x ∷ xs) = All (R x) xs × IsPairwise R xs

  pub IsPairwise-mono :
      {R S : A → A → Type 0} (xs : List A)
      → ((x y : A) → R x y → S x y)
      → IsPairwise R xs
      → IsPairwise S xs
  IsPairwise-mono [] f h = tt
  IsPairwise-mono (x ∷ xs) f (p, h) = (All-mono xs (f x) p, IsPairwise-mono xs f h)

  Memᴰ_swapped :
      (e x y : A) (xs ys : List A)
      → Memᴰ e ys ↔ Memᴰ e (x ∷ xs)
      → Memᴰ e (y ∷ ys) ↔ Memᴰ e (x ∷ y ∷ xs)
  Memᴰ_swapped e x y xs ys (f, g) = (
    λ m. elim (Memᴰ.cases_cons m) [
      | inl p ↦ tail (head p)
      | inr n ↦ elim (Memᴰ.cases_cons (f n)) [ inl p ↦ head p | inr k ↦ tail (tail k) ]
    ],
    λ m. elim (Memᴰ.cases_cons m) [
      | inl p ↦ tail (g (head p))
      | inr n ↦ elim (Memᴰ.cases_cons n) [ inl p ↦ head p | inr k ↦ tail (g (tail k)) ]
    ],
  )

  module _ (le : A → A → Bool) where
    unfoldable pub insert_sorted : A → List A → List A
    insert_sorted x [] = x ∷ []
    insert_sorted x (y ∷ ys) =
        let rest = insert_sorted x ys in if le x y then x ∷ y ∷ ys else y ∷ rest

    unfoldable pub sort_by : List A → List A
    unfolding insert_sorted
    sort_by [] = []
    sort_by (x ∷ xs) = insert_sorted x (sort_by xs)

    -- Every element may stand before the later ones.
    abbrev pub IsSorted : List A → Type 0
    IsSorted xs = IsPairwise (λ x y. le x y ≡ true) xs

    Memᴰ-insert_sorted : (e x : A) (xs : List A) → Memᴰ e (insert_sorted x xs) ↔ Memᴰ e (x ∷ xs)
    unfolding insert_sorted
    Memᴰ-insert_sorted e x [] = (λ m. m, λ m. m)
    Memᴰ-insert_sorted e x (y ∷ ys) = elim (Bool-cases (le x y)) [
      | inl h ↦ rw h (λ m. m, λ m. m)
      | inr h ↦ rw h (Memᴰ_swapped e x y _ _ (Memᴰ-insert_sorted e x ys))
    ]

    pub Memᴰ-sort_by : (e : A) (xs : List A) → Memᴰ e (sort_by xs) ↔ Memᴰ e xs
    unfolding sort_by
    Memᴰ-sort_by e [] = (λ m. m, λ m. m)
    Memᴰ-sort_by e (x ∷ xs) = (
      λ m. elim (Memᴰ.cases_cons ((Memᴰ-insert_sorted e x (sort_by xs)).0 m)) [
        | inl p ↦ head p
        | inr n ↦ tail ((Memᴰ-sort_by e xs).0 n)
      ],
      λ m.
          (Memᴰ-insert_sorted e x (sort_by xs)).1
            (elim (Memᴰ.cases_cons m) [ inl p ↦ head p | inr n ↦ tail ((Memᴰ-sort_by e xs).1 n) ]),
    )

    module _ (R : A → A → Type 0) (mirror : (x y : A) → R x y → R y x) where
      insert_sorted-IsPairwise :
          (x : A) (xs : List A) → All (R x) xs → IsPairwise R xs → IsPairwise R (insert_sorted x xs)
      unfolding insert_sorted
      insert_sorted-IsPairwise x [] r h = (tt, tt)
      insert_sorted-IsPairwise x (y ∷ ys) (r, rs) (p, h) = elim (Bool-cases (le x y)) [
        | inl e ↦ rw e ((r, rs), (p, h))
        | inr e ↦ rw e (
          All-of_at (insert_sorted x ys) (λ z m.
              elim (Memᴰ.cases_cons ((Memᴰ-insert_sorted z x ys).0 m)) [
                | inl same ↦ subst (R y) (sym same) (mirror x y r)
                | inr later ↦ All-at _ ys p later
              ]),
          insert_sorted-IsPairwise x ys rs h,
        )
      ]

      pub sort_by-IsPairwise : (xs : List A) → IsPairwise R xs → IsPairwise R (sort_by xs)
      unfolding sort_by
      sort_by-IsPairwise [] h = tt
      sort_by-IsPairwise (x ∷ xs) (r, h) =
          insert_sorted-IsPairwise x (sort_by xs)
            (All-of_at (sort_by xs) (λ e m. All-at _ xs r ((Memᴰ-sort_by e xs).0 m)))
            (sort_by-IsPairwise xs h)

    module _ (total : (x y : A) → le x y ≡ false → le y x ≡ true)
        (trans : (x y z : A) → le x y ≡ true → le y z ≡ true → le x z ≡ true) where
      insert_sorted-IsSorted : (x : A) (xs : List A) → IsSorted xs → IsSorted (insert_sorted x xs)
      unfolding insert_sorted
      insert_sorted-IsSorted x [] h = (tt, tt)
      insert_sorted-IsSorted x (y ∷ ys) (p, h) = elim (Bool-cases (le x y)) [
        | inl e ↦ rw e ((e, All-mono ys (λ z q. trans x y z e q) p), (p, h))
        | inr e ↦ rw e (
          All-of_at (insert_sorted x ys) (λ z m.
              elim (Memᴰ.cases_cons ((Memᴰ-insert_sorted z x ys).0 m)) [
                | inl same ↦ subst (λ u. le y u ≡ true) (sym same) (total x y e)
                | inr later ↦ All-at _ ys p later
              ]),
          insert_sorted-IsSorted x ys h,
        )
      ]

      pub sort_by-IsSorted : (xs : List A) → IsSorted (sort_by xs)
      unfolding sort_by
      sort_by-IsSorted [] = tt
      sort_by-IsSorted (x ∷ xs) = insert_sorted-IsSorted x (sort_by xs) (sort_by-IsSorted xs)

-- `str < str`, by the characters, whose order is that of their bytes in UTF-8
unfoldable pub text_ltb : String → String → Bool
text_ltb s String.[] = false
text_ltb String.[] (String.◌∷◌ d t) = true
text_ltb (String.◌∷◌ c s) (String.◌∷◌ d t) =
    let rest = text_ltb s t in if code c == code d then rest else ltb (code c) (code d)

pub text_ltb_irrefl : (s : String) → text_ltb s s ≡ false
unfolding text_ltb
text_ltb_irrefl String.[] = refl
text_ltb_irrefl (String.◌∷◌ c s) = ground (arith, text_ltb_irrefl s)

pub text_ltb_trans :
    (s t u : String) → text_ltb s t ≡ true → text_ltb t u ≡ true → text_ltb s u ≡ true
unfolding text_ltb
text_ltb_trans s t String.[] h k = cc
text_ltb_trans s String.[] (String.◌∷◌ e u) h k = cc
text_ltb_trans String.[] (String.◌∷◌ d t) (String.◌∷◌ e u) h k = refl
text_ltb_trans (String.◌∷◌ c s) (String.◌∷◌ d t) (String.◌∷◌ e u) h k =
    ground (arith, text_ltb_trans s t u)

pub text_ltb_total : (s t : String) → (text_ltb s t ≡ true) ⊎ ((text_ltb t s ≡ true) ⊎ (s ≡ t))
unfolding text_ltb
text_ltb_total String.[] String.[] = inr (inr refl)
text_ltb_total String.[] (String.◌∷◌ d t) = inl refl
text_ltb_total (String.◌∷◌ c s) String.[] = inr (inl refl)
text_ltb_total (String.◌∷◌ c s) (String.◌∷◌ d t) = elim (Bool-cases (code c == code d)) [
  | inl e ↦
      let e' : (code d == code c) ≡ true = ground arith in
      let same : c ≡ d = Char-path c d (ground arith) in
      elim (text_ltb_total s t) [
        | inl lt ↦ inl (rw e lt)
        | inr (inl gt) ↦ inr (inl (rw e' gt))
        | inr (inr eq) ↦ inr (inr (ap (λ x. String.◌∷◌ x s) same ∙ ap (λ r. String.◌∷◌ d r) eq))
      ]
  | inr e ↦ elim (Bool-cases (ltb (code c) (code d))) [
    | inl lt ↦ inl (rw (e, lt) refl)
    | inr ge ↦ inr (inl (ground arith))
  ]
]
