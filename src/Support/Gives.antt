-- ===== src/Support/Gives.antt =====
-- What is known of the outcome of an operation that succeeds.
use mathlib.Core.Path.{subst}
use lipa_lightning_lib.Prelude.{◌≡◌, Result, ok}
use lipa_lightning_lib.Prelude.Exec.{pure, ◌>>=◌, >>=-ok}
use lipa_lightning_lib.Errors.{LibError}
use lipa_lightning_lib.Sdk.{World}
use lipa_lightning_lib.Support.{Lib}

-- Every outcome of an action has a property.
pub record Gives {A : Type 0} (P : A → Type 0) (m : Lib A) : Type 0 where
  pub at : (w : World) {a : A} → (m w).0 ≡ ok a → P a

pub ok-inj : {A : Type 0} {a b : A} → Path (Result LibError A) (ok a) (ok b) → a ≡ b
ok-inj e = cc

pub Gives-pure : {A : Type 0} (P : A → Type 0) (a : A) → P a → Gives P (pure a)
Gives-pure P a h = record { at = λ w e. subst P (ok-inj e) h }

module _ {A B : Type 0} where
  -- what is known of the first outcome is used for the second
  pub Gives-bind :
      {P : A → Type 0} {Q : B → Type 0} (m : Lib A) (f : A → Lib B)
      → Gives P m
      → ((a : A) → P a → Gives Q (f a))
      → Gives Q (m >>= f)
  Gives-bind m f hm hf = record {
    at = λ w h. let (a, first, rest, _) = >>=-ok m f w h in (hf a (hm.at w first)).at (m w).1 rest;
  }

  pub Gives-any :
      {Q : B → Type 0} (m : Lib A) (f : A → Lib B) → ((a : A) → Gives Q (f a)) → Gives Q (m >>= f)
  Gives-any m f hf = record {
    at = λ w h. let (a, first, rest, _) = >>=-ok m f w h in (hf a).at (m w).1 rest;
  }
