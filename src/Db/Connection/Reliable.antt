-- ===== src/Db/Connection/Reliable.antt =====
-- Actions that succeed on a connection whose statements do not fail, one rule for each way to build
-- an action.
use lipa_lightning_lib.Prelude.{ℕ, Bool, true, false, ◌≡◌, refl, ap, ◌∙◌, ok, if◌then◌else◌}
use lipa_lightning_lib.Prelude.Exec.{pure, ◌>>=◌, >>=-of_ok}
use lipa_lightning_lib.Errors.{LibError}
use lipa_lightning_lib.Db.{Tables}
use lipa_lightning_lib.Db.Connection.{
  DataStore, Store, mark_for_backup, statement, settle, settle-of_ok,
}

-- No statement of the connection fails.
abbrev pub IsReliable : DataStore → Type 0
IsReliable s = (n : ℕ) → s.fails n ≡ false

pub record Succeeds {A : Type 0} (m : Store A) : Type 0 where
  pub at : (s : DataStore) → IsReliable s → (a : A) × ((m s).0 ≡ ok a) × ((m s).1.fails ≡ s.fails)

module _ {A : Type 0} where
  pub Succeeds-pure : (a : A) → Succeeds (pure a)
  Succeeds-pure a = record { at = λ s h. (a, refl, refl) }

  pub Succeeds-statement : (e : LibError) (run : Tables → A × Tables) → Succeeds (statement e run)
  unfolding statement
  Succeeds-statement e run = record {
    at = λ s h.
        ((run s.tables).0, rw (h s.executed, statement) refl, rw (h s.executed, statement) refl);
  }

  pub Succeeds-if :
      (b : Bool) (m n : Store A) → Succeeds m → Succeeds n → Succeeds (if b then m else n)
  Succeeds-if true m n hm hn = hm
  Succeeds-if false m n hm hn = hn

  pub Succeeds-settle : (m : Store A) → Succeeds m → Succeeds (λ s. settle s.tables (m s))
  Succeeds-settle m hm = record {
    at = λ s h.
        let (a, e, f) = hm.at s h in
        let same = settle-of_ok s.tables (m s) e in
        (a, ap (λ r. r.0) same ∙ e, ap (λ r. r.1.fails) same ∙ f);
  }

pub Succeeds-mark : Succeeds mark_for_backup
Succeeds-mark = record { at = λ s h. (tt, refl, refl) }

pub Succeeds-bind :
    {A B : Type 0} (m : Store A) (f : A → Store B)
    → Succeeds m
    → ((a : A) → Succeeds (f a))
    → Succeeds (m >>= f)
Succeeds-bind m f hm hf = record {
  at = λ s h.
      let (a, e, k) = hm.at s h in
      let (b, e', k') = (hf a).at (m s).1 (λ n. ap (λ g. g n) k ∙ h n) in
      let same = >>=-of_ok m f s e in
      (b, ap (λ r. r.0) same ∙ e', ap (λ r. r.1.fails) same ∙ k' ∙ k);
}

pub ruleset succeeds_rules =
    (Succeeds-pure, Succeeds-statement, Succeeds-if, Succeeds-settle, Succeeds-mark, Succeeds-bind)
