-- ===== src/DataStore/Stored.antt =====
-- The tables that `store_payment_info` leaves.
use lipa_lightning_lib.Prelude.{
  ℕ, suc, String, true, false, ◌≡◌, refl, sym, ap, ◌∙◌, Option, none, some, List, [], ◌∷◌, ok,
  arith, str_eq, eq_iff, if◌then◌else◌, find, or_else, is_some, map_option, find-append,
  any-eq-find, str_eq_refl, Bool-cases, inl, inr, permanent_failure,
}
use lipa_lightning_lib.Config.{UserPreferences, ExchangeRate}
use lipa_lightning_lib.Offer.{Offer}
use lipa_lightning_lib.Db.{
  HistoryRow, OfferRow, Tables, insert_payment, insert_history, insert_offer, is_rate_of,
}
use lipa_lightning_lib.Db.Connection.{
  DataStore, statement, settle, execute, execute-ok, settle-ok, waiting_for_backup,
}
use lipa_lightning_lib.Prelude.Exec.{◌>>◌, >>=-ok}
use lipa_lightning_lib.DataStore.{
  insert_rates, insert_exchange_rate_snapshot, payment_row, offer_row, insert_offer_if_any,
  store_payment_rows, store_payment_info,
}

-- the row that the loop of the snapshot inserts
abbrev pub history_row : ℕ → ExchangeRate → HistoryRow
history_row id r = record {
  snapshot_id = id;
  fiat_currency = r.currency_code;
  rate = r.rate;
  updated_at = r.updated_at;
}

unfoldable pub add_rates : ℕ → List ExchangeRate → List HistoryRow → List HistoryRow
add_rates id [] rows = rows
add_rates id (r ∷ rates) rows = add_rates id rates (insert_history (history_row id r) rows)

-- A loop that succeeds has inserted every rate, and has changed nothing but the history.
insert_rates_tables :
    (id : ℕ) (rates : List ExchangeRate) (s : DataStore)
    → (insert_rates id rates s).0 ≡ ok tt
    → (insert_rates id rates s).1.tables
      ≡ record s.tables { history = add_rates id rates s.tables.history }
unfolding insert_rates add_rates statement
insert_rates_tables id [] s h = refl
insert_rates_tables id (r ∷ rates) s h = elim (Bool-cases (s.fails s.executed)) [
  | inl bad ↦ cc bad
  | inr good ↦ ground (
    arith,
    insert_rates_tables id rates (record s {
      tables = record s.tables { history = insert_history (history_row id r) s.tables.history };
      executed = suc s.executed;
    }),
  )
]

-- the offers after an optional insertion
abbrev pub add_offer : String → Option Offer → List OfferRow → List OfferRow
add_offer hash none rows = rows
add_offer hash (some o) rows = insert_offer (offer_row hash o) rows

abbrev pub snapshot_of : ℕ → List ExchangeRate → Option ℕ
snapshot_of now [] = none
snapshot_of now (r ∷ rates) = some now

-- The tables that a successful `store_payment_info` leaves.
unfoldable pub stored :
    ℕ
    → String
    → UserPreferences
    → List ExchangeRate
    → Option Offer
    → Option String
    → Option String
    → Tables
    → Tables
stored now hash prefs rates offer on comment t = record t {
  history = add_rates now rates t.history;
  payments = insert_payment (payment_row hash prefs (snapshot_of now rates) on comment) t.payments;
  offers = add_offer hash offer t.offers;
}

snapshot_tables :
    (now : ℕ) (rates : List ExchangeRate) (s : DataStore) {i : Option ℕ}
    → (insert_exchange_rate_snapshot now rates s).0 ≡ ok i
    → (i ≡ snapshot_of now rates)
      × ((insert_exchange_rate_snapshot now rates s).1.tables
          ≡ record s.tables { history = add_rates now rates s.tables.history })
unfolding insert_exchange_rate_snapshot add_rates
snapshot_tables now [] s h = (ground arith, refl)
snapshot_tables now (r ∷ rates) s h = ground (arith, insert_rates_tables now (r ∷ rates) s)

offer_tables :
    (hash : String) (o : Option Offer) (s : DataStore)
    → (insert_offer_if_any hash o s).0 ≡ ok tt
    → (insert_offer_if_any hash o s).1.tables
      ≡ record s.tables { offers = add_offer hash o s.tables.offers }
unfolding insert_offer_if_any statement
offer_tables hash none s h = refl
offer_tables hash (some o) s h = ground arith

is_rate_of-eq :
    (id : ℕ) (c : String) (row : HistoryRow)
    → is_rate_of id c row ≡ true
    → (row.snapshot_id ≡ id) × (row.fiat_currency ≡ c)
is_rate_of-eq id c row h = ground (arith, eq_iff row.fiat_currency c)

or_else-some {ℓ} : {A : Type ℓ} (x y : Option A) → is_some x ≡ true → or_else x y ≡ x
or_else-some none y h = cc
or_else-some (some a) y h = refl

or_else-none {ℓ} : {A : Type ℓ} (x : Option A) → or_else x none ≡ x
or_else-none none = refl
or_else-none (some a) = refl

find_history-insert_self :
    (row : HistoryRow) (rows : List HistoryRow)
    → find (is_rate_of row.snapshot_id row.fiat_currency) (insert_history row rows)
      ≡ or_else (find (is_rate_of row.snapshot_id row.fiat_currency) rows) (some row)
unfolding insert_history
find_history-insert_self row rows =
    let key = is_rate_of row.snapshot_id row.fiat_currency in
    ground (
      arith,
      any-eq-find key rows,
      find-append key rows (row ∷ []),
      or_else-some (find key rows) (some row),
      str_eq_refl row.fiat_currency,
    )

find_history-insert_ne :
    (row : HistoryRow) (rows : List HistoryRow) (id : ℕ) (c : String)
    → is_rate_of id c row ≡ false
    → find (is_rate_of id c) (insert_history row rows) ≡ find (is_rate_of id c) rows
unfolding insert_history
find_history-insert_ne row rows id c h =
    let key = is_rate_of id c in
    ground (arith, find-append key rows (row ∷ []), or_else-none (find key rows))

find_history-insert :
    (row : HistoryRow) (rows : List HistoryRow) (id : ℕ) (c : String)
    → find (is_rate_of id c) (insert_history row rows)
      ≡ or_else (find (is_rate_of id c) rows) (if is_rate_of id c row then some row else none)
find_history-insert row rows id c = elim (Bool-cases (is_rate_of id c row)) [
  | inl same ↦
      let (e, f) = is_rate_of-eq id c row same in
      rw same (rw (← e) (rw (← f) (find_history-insert_self row rows)))
  | inr other ↦ rw other (
      find_history-insert_ne row rows id c other ∙ sym (or_else-none (find (is_rate_of id c) rows)))
]

abbrev pub rate_for : String → List ExchangeRate → Option ExchangeRate
rate_for c = find (λ r. str_eq r.currency_code c)

pub find_history-add_rates :
    (id : ℕ) (rates : List ExchangeRate) (rows : List HistoryRow) (c : String)
    → find (is_rate_of id c) (add_rates id rates rows)
      ≡ or_else (find (is_rate_of id c) rows) (map_option (history_row id) (rate_for c rates))
unfolding add_rates
find_history-add_rates id [] rows c = ground arith
find_history-add_rates id (r ∷ rates) rows c = ground (
  arith,
  find_history-add_rates id rates (insert_history (history_row id r) rows) c,
  find_history-insert (history_row id r) rows id c,
)

payment_rows_tables :
    (now : ℕ) (hash : String) (prefs : UserPreferences) (rates : List ExchangeRate)
    (offer : Option Offer) (on comment : Option String) (s : DataStore)
    → (store_payment_rows now hash prefs rates offer on comment s).0 ≡ ok tt
    → (store_payment_rows now hash prefs rates offer on comment s).1.tables
      ≡ stored now hash prefs rates offer on comment s.tables
unfolding store_payment_rows stored
payment_rows_tables now hash prefs rates offer on comment s h =
    let snapshot = insert_exchange_rate_snapshot now rates in
    let add = λ (i : Option ℕ). execute permanent_failure (λ t. record t {
      payments = insert_payment (payment_row hash prefs i on comment) t.payments;
    }) in
    let last = insert_offer_if_any hash offer in
    let (i, hs, h', e) = >>=-ok snapshot (λ i. add i >> last) s h in
    let s' = (snapshot s).1 in
    let (u, hp, ho, e') = >>=-ok (add i) (λ _. last) s' h' in
    let (ei, es) = snapshot_tables now rates s hs in
    cc (
      e,
      e',
      es,
      ei,
      execute-ok permanent_failure
          (λ t. record t {
            payments = insert_payment (payment_row hash prefs i on comment) t.payments;
          })
          s' hp,
      offer_tables hash offer (add i s').1 ho,
    )

pub store_payment_info-tables :
    (now : ℕ) (hash : String) (prefs : UserPreferences) (rates : List ExchangeRate)
    (offer : Option Offer) (on comment : Option String) (s : DataStore)
    → (store_payment_info now hash prefs rates offer on comment s).0 ≡ ok tt
    → (store_payment_info now hash prefs rates offer on comment s).1.tables
      ≡ stored now hash prefs rates offer on comment s.tables
unfolding store_payment_info
store_payment_info-tables now hash prefs rates offer on comment s h =
    let s0 : DataStore = record s { backup_status = waiting_for_backup } in
    let tick = execute permanent_failure (λ t. t) in
    let rows = store_payment_rows now hash prefs rates offer on comment in
    let s1 = (tick s0).1 in
    let (u, hb, h1, e1) = >>=-ok tick (λ _ s. settle s.tables ((rows >> tick) s)) s0 h in
    let e2 = settle-ok s1.tables ((rows >> tick) s1) h1 in
    let (v, h3, h4, e3) = >>=-ok rows (λ _. tick) s1 (ap (λ r. r.0) (sym e2) ∙ h1) in
    let begun = execute-ok permanent_failure (λ t. t) s0 hb in
    let committed = execute-ok permanent_failure (λ t. t) (rows s1).1 h4 in
    cc (
      e1,
      e2,
      e3,
      begun,
      committed,
      payment_rows_tables now hash prefs rates offer on comment s1 h3,
    )
