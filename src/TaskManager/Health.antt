-- ===== src/TaskManager/Health.antt =====
-- What the callback is told over many health checks.
use lipa_lightning_lib.Prelude.{
  false, ◌≡◌, refl, ◌∙◌, Option, none, some, List, [], ◌∷◌, or_else, cons_some, Bool-cases, inl,
  inr,
}
use lipa_lightning_lib.Db.{last}
use lipa_lightning_lib.TaskManager.{HealthStatus, check_health, is_known}

-- The checks one after the other: what the callback is told, and the status that is kept.
abbrev pub told : Option HealthStatus → List (Option HealthStatus) → List HealthStatus
told kept [] = []
told kept (c ∷ checks) = cons_some (check_health kept c).1 (told (check_health kept c).0 checks)

abbrev pub kept_after : Option HealthStatus → List (Option HealthStatus) → Option HealthStatus
kept_after kept [] = kept
kept_after kept (c ∷ checks) = kept_after (check_health kept c).0 checks

-- Each status of the list differs from the one before it, the first from the one given.
abbrev pub Changes : Option HealthStatus → List HealthStatus → Type 0
Changes kept [] = Unit
Changes kept (x ∷ xs) = (is_known kept x ≡ false) × Changes (some x) xs

last-some : {A : Type 0} (x : A) (xs : List A) → (v : A) × (last (x ∷ xs) ≡ some v)
last-some x [] = (x, refl)
last-some x (y ∷ xs) = last-some y xs

or_else-last :
    (x : HealthStatus) (xs : List HealthStatus) (kept : Option HealthStatus)
    → or_else (last xs) (some x) ≡ or_else (last (x ∷ xs)) kept
or_else-last x [] kept = refl
or_else-last x (y ∷ xs) kept = let (v, e) = last-some y xs in rw e refl

-- Over any sequence of checks, failed ones among them, the callback is told a status exactly when it
-- differs from the one told before, and what it was told last is the status that is kept.
told-Changes :
    (kept : Option HealthStatus) (checks : List (Option HealthStatus))
    → Changes kept (told kept checks)
      × (kept_after kept checks ≡ or_else (last (told kept checks)) kept)
unfolding check_health
told-Changes kept [] = (tt, refl)
told-Changes kept (none ∷ checks) = told-Changes kept checks
told-Changes kept (some x ∷ checks) = elim (Bool-cases (is_known kept x)) [
  | inl e ↦ rw e (told-Changes kept checks)
  | inr e ↦
      let (h, k) = told-Changes (some x) checks in
      rw e ((e, h), k ∙ or_else-last x (told (some x) checks) kept)
]
