-- ===== src/DataStore/Atomicity.antt =====
-- `store_payment_info` as a transaction.
use lipa_lightning_lib.Db.Connection.Reliable.{
  IsReliable, Succeeds, Succeeds-pure, Succeeds-mark, Succeeds-statement, Succeeds-settle,
  Succeeds-bind, succeeds_rules,
}
use lipa_lightning_lib.Prelude.{
  ℕ, String, ◌≡◌, ◌≢◌, refl, Option, none, some, List, [], ◌∷◌, Result, ok, err, panic,
  permanent_failure, Bool-cases, inl, inr,
}
use lipa_lightning_lib.Config.{UserPreferences, ExchangeRate}
use lipa_lightning_lib.Errors.{LibError}
use lipa_lightning_lib.Offer.{Offer}
use lipa_lightning_lib.Db.{Tables}
use lipa_lightning_lib.Db.Connection.{DataStore, statement, settle}
use lipa_lightning_lib.DataStore.{
  insert_rates, insert_exchange_rate_snapshot, insert_offer_if_any, store_payment_rows,
  store_payment_info,
}

settle-tables :
    (t : Tables) (r : Result LibError (Unit {0}) × DataStore)
    → (settle t r).0 ≢ ok tt
    → (settle t r).1.tables ≡ t
unfolding settle
settle-tables t (ok a, s) h = absurd (h refl)
settle-tables t (err e, s) h = refl
settle-tables t (panic, s) h = refl

-- A `store_payment_info` that does not succeed, at whichever statement it failed, leaves every
-- table as it was.
pub store_payment_info_atomic :
    (now : ℕ) (hash : String) (prefs : UserPreferences) (rates : List ExchangeRate)
    (offer : Option Offer) (on comment : Option String) (s : DataStore)
    → (store_payment_info now hash prefs rates offer on comment s).0 ≢ ok tt
    → (store_payment_info now hash prefs rates offer on comment s).1.tables ≡ s.tables
unfolding store_payment_info statement
store_payment_info_atomic now hash prefs rates offer on comment s h =
    elim (Bool-cases (s.fails s.executed)) [
      | inl bad ↦ rw bad
      | inr good ↦ rw good (settle-tables s.tables _ (rw good at h))
    ]

insert_rates-Succeeds : (id : ℕ) (rates : List ExchangeRate) → Succeeds (insert_rates id rates)
unfolding insert_rates
insert_rates-Succeeds id [] = Succeeds-pure tt
insert_rates-Succeeds id (r ∷ rates) =
    Succeeds-bind _ _ (Succeeds-statement _ _) (λ _. insert_rates-Succeeds id rates)

snapshot-Succeeds :
    (now : ℕ) (rates : List ExchangeRate) → Succeeds (insert_exchange_rate_snapshot now rates)
unfolding insert_exchange_rate_snapshot
snapshot-Succeeds now [] = search succeeds_rules
snapshot-Succeeds now (r ∷ rates) = search (succeeds_rules, insert_rates-Succeeds)

offer-Succeeds : (hash : String) (o : Option Offer) → Succeeds (insert_offer_if_any hash o)
unfolding insert_offer_if_any
offer-Succeeds hash none = search succeeds_rules
offer-Succeeds hash (some o) = search succeeds_rules

rows-Succeeds :
    (now : ℕ) (hash : String) (prefs : UserPreferences) (rates : List ExchangeRate)
    (offer : Option Offer) (on comment : Option String)
    → Succeeds (store_payment_rows now hash prefs rates offer on comment)
unfolding store_payment_rows
rows-Succeeds now hash prefs rates offer on comment =
    search (succeeds_rules, snapshot-Succeeds, offer-Succeeds)

store_payment_info-Succeeds :
    (now : ℕ) (hash : String) (prefs : UserPreferences) (rates : List ExchangeRate)
    (offer : Option Offer) (on comment : Option String)
    → Succeeds (store_payment_info now hash prefs rates offer on comment)
unfolding store_payment_info
store_payment_info-Succeeds now hash prefs rates offer on comment =
    let tick = Succeeds-statement {A = Unit {0}} permanent_failure (λ t. (tt, t)) in
    Succeeds-bind _ _ Succeeds-mark λ _. Succeeds-bind _ _ tick λ _.
      Succeeds-settle _
        (Succeeds-bind _ _ (rows-Succeeds now hash prefs rates offer on comment) λ _. tick)

-- On a connection whose statements do not fail, `store_payment_info` succeeds.
pub store_payment_info_total :
    (now : ℕ) (hash : String) (prefs : UserPreferences) (rates : List ExchangeRate)
    (offer : Option Offer) (on comment : Option String) (s : DataStore)
    → IsReliable s
    → (store_payment_info now hash prefs rates offer on comment s).0 ≡ ok tt
store_payment_info_total now hash prefs rates offer on comment s h =
    ((store_payment_info-Succeeds now hash prefs rates offer on comment).at s h).1
