-- ===== src/Prelude/Results.antt =====
-- `perro::Error` and the results of fallible code. Messages are texts for logs and are left out.
-- A Rust panic is a third outcome, which no `?` or `match` of the program catches.
use mathlib.Core.Path.{◌≡◌, refl}
use mathlib.Core.Bool.{Bool, true, false}
use mathlib.Core.Option.{Option, none, some}

-- `perro::Error<C>`, for a type `C` of runtime error codes.
pub data Error {ℓ} (C : Type ℓ) : Type ℓ where
  invalid_input : Error C
  permanent_failure : Error C
  runtime_error : C → Error C

pub data Result {ℓ κ} (E : Type ℓ) (A : Type κ) : Type (ℓ ⊔ κ) where
  ok : A → Result E A
  err : E → Result E A
  panic : Result E A

module _ {ℓ κ} {E : Type ℓ} {A : Type κ} where
  -- `map_to_runtime_error`, `ok_or_permanent_failure` and the like, on a call whose error is a text.
  abbrev pub or_err : Option A → E → Result E A
  or_err none e = err e
  or_err (some a) e = ok a

  -- The outcome of an expression that may panic, `none` for the panic.
  abbrev pub or_panic : Option A → Result E A
  or_panic none = panic
  or_panic (some a) = ok a

-- `map_err`
abbrev pub map_err {ℓ κ μ} :
    {E : Type ℓ} {F : Type κ} {A : Type μ} → (E → F) → Result E A → Result F A
map_err f (ok a) = ok a
map_err f (err e) = err (f e)
map_err f panic = panic

-- `map_runtime_error_to` of perro: the code of a runtime error is replaced
abbrev pub map_runtime_error_to {ℓ κ} : {C : Type ℓ} {D : Type κ} → D → Error C → Error D
map_runtime_error_to d invalid_input = invalid_input
map_runtime_error_to d permanent_failure = permanent_failure
map_runtime_error_to d (runtime_error c) = runtime_error d

-- the `?` operator
infixl 10 ◌>>=?◌
abbrev pub ◌>>=?◌ {ℓ κ μ} :
    {E : Type ℓ} {A : Type κ} {B : Type μ} → Result E A → (A → Result E B) → Result E B
ok a >>=? f = f a
err e >>=? f = err e
panic >>=? f = panic

pub >>=?-ok {ℓ κ μ} :
    {E : Type ℓ} {A : Type κ} {B : Type μ} (r : Result E A) (f : A → Result E B) {b : B}
    → (r >>=? f) ≡ ok b
    → (a : A) × (r ≡ ok a) × (f a ≡ ok b)
>>=?-ok (ok a) f h = (a, refl, h)
>>=?-ok (err e) f h = cc
>>=?-ok panic f h = cc

-- `Result::is_ok`
abbrev pub is_ok {ℓ κ} : {E : Type ℓ} {A : Type κ} → Result E A → Bool
is_ok (ok a) = true
is_ok (err e) = false
is_ok panic = false

-- An error that is mapped is still an error.
pub map_err-ok {ℓ κ μ} :
    {E : Type ℓ} {F : Type κ} {A : Type μ} (f : E → F) (r : Result E A) {a : A}
    → map_err f r ≡ ok a
    → r ≡ ok a
map_err-ok f (ok b) h = cc
map_err-ok f (err e) h = cc
map_err-ok f panic h = cc

pub or_err-ok {ℓ κ} :
    {E : Type ℓ} {A : Type κ} (o : Option A) (e : E) {a : A} → or_err o e ≡ ok a → o ≡ some a
or_err-ok none e h = cc
or_err-ok (some b) e h = cc
