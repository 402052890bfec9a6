-- ===== src/Sdk/Broadcasts.antt =====
-- The calls that move funds, or that give an invoice of the user to a payer: actions that make none,
-- and actions that make one at their end.
use lipa_lightning_lib.Prelude.{
  ◌≡◌, ◌⊎◌, inl, inr, refl, ap, ◌∙◌, Bool, true, false, some, List, ◌∷◌, filter, Result, ok, err,
  panic, is_ok, if◌then◌else◌,
}
use lipa_lightning_lib.Prelude.Exec.{Exec, pure, fail, lift, ensure, map_err_of, continue, ◌>>=◌}
use lipa_lightning_lib.Db.Connection.{DataStore}
use lipa_lightning_lib.Sdk.{Call, World, ask, on_store}

abbrev pub is_broadcast : Call → Bool
is_broadcast (Call.refund a b n) = true
is_broadcast (Call.redeem_onchain_funds a n) = true
is_broadcast (Call.pay_onchain a p) = true
is_broadcast (Call.send_payment i n) = true
is_broadcast (Call.lnurl_pay d n c) = true
is_broadcast (Call.lnurl_withdraw d n) = true
is_broadcast (Call.redeem_swap a) = true
is_broadcast (Call.claim_reverse_swap a) = true
is_broadcast (Call.submit_lnurl_pay_invoice id (some invoice)) = true
is_broadcast c = false

abbrev pub broadcasts : World → List Call
broadcasts w = filter is_broadcast w.calls

-- The action asks for no transfer of funds, however it ends.
pub record Quiet {E A : Type 0} (m : Exec World E A) : Type 0 where
  pub at : (w : World) → broadcasts (m w).1 ≡ broadcasts w

module _ {E A : Type 0} where
  pub Quiet-pure : (a : A) → Quiet (pure {E = E} a)
  Quiet-pure a = record { at = λ w. refl }

  pub Quiet-fail : (e : E) → Quiet (fail {A = A} e)
  Quiet-fail e = record { at = λ w. refl }

  pub Quiet-lift : (r : Result E A) → Quiet (lift r)
  Quiet-lift r = record { at = λ w. refl }

  pub Quiet-ask :
      (c : Call) (answer : List Call → A) → is_broadcast c ≡ false → Quiet (ask {E = E} c answer)
  unfolding ask
  Quiet-ask c answer h = record { at = λ w. rw h refl }

  pub Quiet-if : (b : Bool) (m n : Exec World E A) → Quiet m → Quiet n → Quiet (if b then m else n)
  Quiet-if true m n hm hn = hm
  Quiet-if false m n hm hn = hn

pub Quiet-ensure : {E : Type 0} (b : Bool) (e : E) → Quiet (ensure b e)
Quiet-ensure true e = record { at = λ w. refl }
Quiet-ensure false e = record { at = λ w. refl }

pub Quiet-map_err :
    {E F A : Type 0} (f : E → F) (m : Exec World E A) → Quiet m → Quiet (map_err_of f m)
Quiet-map_err f m hm = record { at = hm.at }

Quiet-continue :
    {E A B : Type 0} (r : Result E A) (f : A → Exec World E B) (w : World)
    → ((a : A) → Quiet (f a))
    → broadcasts (continue r f w).1 ≡ broadcasts w
Quiet-continue (ok a) f w hf = (hf a).at w
Quiet-continue (err e) f w hf = refl
Quiet-continue panic f w hf = refl

pub Quiet-bind :
    {E A B : Type 0} (m : Exec World E A) (f : A → Exec World E B)
    → Quiet m
    → ((a : A) → Quiet (f a))
    → Quiet (m >>= f)
Quiet-bind m f hm hf = record { at = λ w. Quiet-continue (m w).0 f (m w).1 hf ∙ hm.at w }

-- The action that starts in `w` fails and asks for no transfer, or it makes a single such call, of
-- which `P` holds.
abbrev pub Outcome : {E A : Type 0} → (Call → Type 0) → World → Result E A × World → Type 0
Outcome P w r =
    ((is_ok r.0 ≡ false) × (broadcasts r.1 ≡ broadcasts w))
    ⊎ ((c : Call) × (broadcasts r.1 ≡ c ∷ broadcasts w) × P c)

pub record Sends {E A : Type 0} (P : Call → Type 0) (m : Exec World E A) : Type 0 where
  pub at : (w : World) → Outcome P w (m w)

Outcome-continue :
    {E A B : Type 0} {P : Call → Type 0} (r : Result E A) (f : A → Exec World E B) (w w0 : World)
    → broadcasts w ≡ broadcasts w0
    → ((a : A) → r ≡ ok a → Outcome P w (f a w))
    → Outcome P w0 (continue r f w)
Outcome-continue (ok a) f w w0 h hf = elim (hf a refl) [
  | inl (bad, same) ↦ inl (bad, same ∙ h)
  | inr (c, sent, good) ↦ inr (c, sent ∙ ap (λ l. c ∷ l) h, good)
]
Outcome-continue (err e) f w w0 h hf = inl (refl, h)
Outcome-continue panic f w w0 h hf = inl (refl, h)

-- What comes after an action that moves no funds may use its outcome.
pub Sends-after :
    {E A B : Type 0} {P : Call → Type 0} (m : Exec World E A) (f : A → Exec World E B)
    → Quiet m
    → ((w : World) (a : A) → (m w).0 ≡ ok a → Sends P (f a))
    → Sends P (m >>= f)
Sends-after m f hm hf = record {
  at = λ w. Outcome-continue (m w).0 f (m w).1 w (hm.at w) λ a h. (hf w a h).at (m w).1;
}

module _ {E B : Type 0} {P : Call → Type 0} where
  pub Sends-ask :
      {A : Type 0} (c : Call) (answer : List Call → A) (f : A → Exec World E B)
      → is_broadcast c ≡ false
      → ((calls : List Call) → Sends P (f (answer (c ∷ calls))))
      → Sends P (ask c answer >>= f)
  unfolding ask
  Sends-ask c answer f h hf =
      Sends-after _ f (Quiet-ask c answer h)
        λ w a e. let same : a ≡ answer (c ∷ w.calls) = cc in rw same (hf w.calls)

  pub Sends-lift :
      {A : Type 0} (r : Result E A) (f : A → Exec World E B)
      → ((a : A) → r ≡ ok a → Sends P (f a))
      → Sends P (lift r >>= f)
  Sends-lift r f hf = Sends-after _ f (Quiet-lift r) λ w. hf

  pub Sends-ensure :
      (b : Bool) (e : E) (k : Exec World E B)
      → (b ≡ true → Sends P k)
      → Sends P (ensure b e >>= λ _. k)
  Sends-ensure true e k hk = hk refl
  Sends-ensure false e k hk = record { at = λ w. inl (refl, refl) }

-- One call that moves funds, and its answer.
pub Sends-call :
    {E A B : Type 0} {P : Call → Type 0} (c : Call) (answer : List Call → B) (f : B → Result E A)
    → is_broadcast c ≡ true
    → P c
    → Sends P (ask c answer >>= λ b. lift (f b))
unfolding ask
Sends-call c answer f h good = record { at = λ w. inr (c, rw h refl, good) }

-- A call that moves funds, and what follows without another.
pub Sends-then :
    {E A B : Type 0} {P : Call → Type 0} (c : Call) (answer : List Call → B)
    (f : B → Exec World E A)
    → is_broadcast c ≡ true
    → P c
    → ((b : B) → Quiet (f b))
    → Sends P (ask c answer >>= f)
unfolding ask
Sends-then c answer f h good hf = record {
  at = λ w.
      inr (c, (hf (answer (c ∷ w.calls))).at (record w { calls = c ∷ w.calls }) ∙ rw h refl, good);
}

-- What comes after an action that moves no funds, from the world that it leaves.
pub Outcome-after :
    {E A B : Type 0} {P : Call → Type 0} (m : Exec World E A) (f : A → Exec World E B) (w : World)
    → Quiet m
    → ((a : A) → (m w).0 ≡ ok a → Outcome P (m w).1 (f a (m w).1))
    → Outcome P w ((m >>= f) w)
Outcome-after m f w hm hf = Outcome-continue (m w).0 f (m w).1 w (hm.at w) hf

pub Outcome-map :
    {E A : Type 0} {P Q : Call → Type 0} (w : World) (r : Result E A × World)
    → ((c : Call) → P c → Q c)
    → Outcome P w r
    → Outcome Q w r
Outcome-map w r f (inl failed) = inl failed
Outcome-map w r f (inr (c, sent, good)) = inr (c, sent, f c good)

pub Sends-map :
    {E A : Type 0} {P Q : Call → Type 0} (m : Exec World E A)
    → ((c : Call) → P c → Q c)
    → Sends P m
    → Sends Q m
Sends-map m f h = record { at = λ w. Outcome-map w (m w) f (h.at w) }

Outcome-Quiet :
    {E A B : Type 0} {P : Call → Type 0} (r : Result E A) (f : A → Exec World E B) (w w0 : World)
    → Outcome P w0 (r, w)
    → ((a : A) → Quiet (f a))
    → Outcome P w0 (continue r f w)
Outcome-Quiet (ok a) f w w0 (inl (h, same)) hf = cc
Outcome-Quiet (ok a) f w w0 (inr (c, sent, good)) hf = inr (c, (hf a).at w ∙ sent, good)
Outcome-Quiet (err e) f w w0 (inl (h, same)) hf = inl (refl, same)
Outcome-Quiet (err e) f w w0 (inr (c, sent, good)) hf = inr (c, sent, good)
Outcome-Quiet panic f w w0 (inl (h, same)) hf = inl (refl, same)
Outcome-Quiet panic f w w0 (inr (c, sent, good)) hf = inr (c, sent, good)

-- What follows the call that moves funds makes none.
pub Sends-bind :
    {E A B : Type 0} {P : Call → Type 0} (m : Exec World E A) (f : A → Exec World E B)
    → Sends P m
    → ((a : A) → Quiet (f a))
    → Sends P (m >>= f)
Sends-bind m f hm hf = record { at = λ w. Outcome-Quiet (m w).0 f (m w).1 w (hm.at w) hf }

pub Quiet-on_store : {E A : Type 0} (m : DataStore → Result E A × DataStore) → Quiet (on_store m)
unfolding on_store
Quiet-on_store m = record { at = λ w. refl }

pub ruleset quiet_rules = (
  Quiet-pure, Quiet-fail, Quiet-lift, Quiet-ask, Quiet-if, Quiet-ensure, Quiet-map_err, Quiet-bind,
)
