-- ===== src/Prelude/Exec.antt =====
-- Code that changes a state and may fail. What was changed before a failure stays changed, so the
-- state comes back beside every outcome.
use mathlib.Core.Path.{◌≡◌, refl}
use mathlib.Core.Bool.{Bool, true, false}
use lipa_lightning_lib.Prelude.Results.{Result, ok, err, panic, map_err}

abbrev pub Exec {ℓ κ μ} : Type ℓ → Type κ → Type μ → Type (ℓ ⊔ κ ⊔ μ)
Exec S E A = S → Result E A × S

abbrev pub pure {ℓ κ μ} : {S : Type ℓ} {E : Type κ} {A : Type μ} → A → Exec S E A
pure a s = (ok a, s)

abbrev pub fail {ℓ κ μ} : {S : Type ℓ} {E : Type κ} {A : Type μ} → E → Exec S E A
fail e s = (err e, s)

abbrev pub lift {ℓ κ μ} : {S : Type ℓ} {E : Type κ} {A : Type μ} → Result E A → Exec S E A
lift r s = (r, s)

-- `ensure!`
abbrev pub ensure {ℓ κ} : {S : Type ℓ} {E : Type κ} → Bool → E → Exec S E (Unit {0})
ensure true e s = (ok tt, s)
ensure false e s = (err e, s)

abbrev pub continue {ℓ κ μ ν} :
    {S : Type ℓ} {E : Type κ} {A : Type μ} {B : Type ν} → Result E A → (A → Exec S E B) → Exec S E B
continue (ok a) f s = f a s
continue (err e) f s = (err e, s)
continue panic f s = (panic, s)

infixl 10 ◌>>=◌ ◌>>◌
abbrev pub ◌>>=◌ {ℓ κ μ ν} :
    {S : Type ℓ} {E : Type κ} {A : Type μ} {B : Type ν} → Exec S E A → (A → Exec S E B) → Exec S E B
◌>>=◌ m f s = let (r, s') = m s in continue r f s'

abbrev pub ◌>>◌ {ℓ κ ν} :
    {S : Type ℓ} {E : Type κ} {B : Type ν} → Exec S E (Unit {0}) → Exec S E B → Exec S E B
m >> k = m >>= λ _. k

continue-ok {ℓ κ μ ν} :
    {S : Type ℓ} {E : Type κ} {A : Type μ} {B : Type ν} (r : Result E A) (f : A → Exec S E B)
    (s : S) {b : B}
    → (continue r f s).0 ≡ ok b
    → (a : A) × (r ≡ ok a) × ((f a s).0 ≡ ok b) × (continue r f s ≡ f a s)
continue-ok (ok a) f s h = (a, refl, h, refl)
continue-ok (err e) f s h = cc
continue-ok panic f s h = cc

-- A sequence that succeeds is two actions that succeed.
pub >>=-ok {ℓ κ μ ν} :
    {S : Type ℓ} {E : Type κ} {A : Type μ} {B : Type ν} (m : Exec S E A) (f : A → Exec S E B)
    (s : S) {b : B}
    → ((m >>= f) s).0 ≡ ok b
    → (a : A) × ((m s).0 ≡ ok a) × ((f a (m s).1).0 ≡ ok b) × ((m >>= f) s ≡ f a (m s).1)
>>=-ok m f s h = let (r, s') = m s in continue-ok r f s' h

continue-of_ok {ℓ κ μ ν} :
    {S : Type ℓ} {E : Type κ} {A : Type μ} {B : Type ν} (r : Result E A) (f : A → Exec S E B)
    (s : S) {a : A}
    → r ≡ ok a
    → continue r f s ≡ f a s
continue-of_ok (ok b) f s h = cc
continue-of_ok (err e) f s h = cc
continue-of_ok panic f s h = cc

-- The first action of a sequence succeeds: what the sequence does.
pub >>=-of_ok {ℓ κ μ ν} :
    {S : Type ℓ} {E : Type κ} {A : Type μ} {B : Type ν} (m : Exec S E A) (f : A → Exec S E B)
    (s : S) {a : A}
    → (m s).0 ≡ ok a
    → (m >>= f) s ≡ f a (m s).1
>>=-of_ok m f s h = let (r, s') = m s in continue-of_ok r f s' h

-- `map_err` on an action
abbrev pub map_err_of {ℓ κ μ ν} :
    {S : Type ℓ} {E : Type κ} {F : Type μ} {A : Type ν} → (E → F) → Exec S E A → Exec S F A
map_err_of f m s = let (r, s') = m s in (map_err f r, s')
