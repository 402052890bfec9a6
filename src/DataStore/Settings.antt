-- ===== src/DataStore/Settings.antt =====
-- src/data_store.rs: the tables that keep a history and are read at their last row, the hidden
-- failed swaps, and the copy into the backup database.
use lipa_lightning_lib.Prelude.{
  ℕ, suc, String, ◌≡◌, refl, Option, none, some, List, [], ◌∷◌, ◌++◌, Result, ok, err,
  permanent_failure, arith, if◌then◌else◌, ◌==◌,
}
use lipa_lightning_lib.Prelude.Exec.{lift, ◌>>=◌, ◌>>◌}
use lipa_lightning_lib.Errors.{LibError}
use lipa_lightning_lib.Db.{last}
use lipa_lightning_lib.Db.Connection.{DataStore, Store, mark_for_backup, statement, execute, query}

-- src/analytics.rs, `AnalyticsConfig`, stored as a `u8`
pub data AnalyticsConfig : Type 0 where
  enabled disabled : AnalyticsConfig

abbrev to_u8 : AnalyticsConfig → ℕ
to_u8 enabled = 0
to_u8 disabled = 1

-- `TryFromPrimitive`
abbrev try_from_u8 : ℕ → Option AnalyticsConfig
try_from_u8 n = if n == 0 then some enabled else if n == 1 then some disabled else none

unfoldable pub append_analytics_config : AnalyticsConfig → Store (Unit {0})
append_analytics_config status = do
  mark_for_backup
  execute permanent_failure (λ t. record t { analytics = t.analytics ++ to_u8 status ∷ [] })

status_of_row : Option ℕ → Result LibError AnalyticsConfig
status_of_row none = err permanent_failure
status_of_row (some n) = elim (try_from_u8 n) [ none ↦ err permanent_failure | some c ↦ ok c ]

unfoldable pub retrieve_analytics_config : Store AnalyticsConfig
unfolding status_of_row
retrieve_analytics_config = do
  row ← query permanent_failure (λ t. last t.analytics)
  lift (status_of_row row)

unfoldable pub store_hidden_channel_close_onchain_funds_amount_sat : ℕ → Store (Unit {0})
store_hidden_channel_close_onchain_funds_amount_sat amount_sat = do
  mark_for_backup
  execute permanent_failure (λ t. record t {
    hidden_channel_close_amounts = t.hidden_channel_close_amounts ++ amount_sat ∷ [];
  })

unfoldable pub retrieve_hidden_channel_close_onchain_funds_amount_sat : Store (Option ℕ)
retrieve_hidden_channel_close_onchain_funds_amount_sat =
    query permanent_failure (λ t. last t.hidden_channel_close_amounts)

unfoldable pub store_hidden_unresolved_failed_swap : String → Store (Unit {0})
store_hidden_unresolved_failed_swap swap_address = do
  mark_for_backup
  execute permanent_failure
      (λ t. record t { hidden_failed_swaps = t.hidden_failed_swaps ++ swap_address ∷ [] })

unfoldable pub retrieve_hidden_unresolved_failed_swaps : Store (List String)
retrieve_hidden_unresolved_failed_swaps = query permanent_failure (λ t. t.hidden_failed_swaps)

unfoldable pub store_selected_fiat_currency : String → Store (Unit {0})
store_selected_fiat_currency currency = do
  mark_for_backup
  execute permanent_failure (λ t. record t { fiat_currencies = t.fiat_currencies ++ currency ∷ [] })

unfoldable pub retrieve_last_set_fiat_currency : Store (Option String)
retrieve_last_set_fiat_currency = query permanent_failure (λ t. last t.fiat_currencies)

-- The backup API copies the whole database, or fails.
unfoldable pub backup_db : Store (Unit {0})
backup_db s =
    if s.fails s.executed
    then (err permanent_failure, record s { executed = suc s.executed })
    else (ok tt, record s { backup = s.tables; executed = suc s.executed })

pub last-append {ℓ} : {A : Type ℓ} (xs : List A) (x : A) → last (xs ++ x ∷ []) ≡ some x
last-append [] x = refl
last-append (y ∷ []) x = refl
last-append (y ∷ z ∷ xs) x = last-append (z ∷ xs) x

read_status :
    (status : AnalyticsConfig) (s : DataStore) {r : AnalyticsConfig}
    → (append_analytics_config status s).0 ≡ ok tt
    → (retrieve_analytics_config (append_analytics_config status s).1).0 ≡ ok r
    → r ≡ status
unfolding append_analytics_config retrieve_analytics_config statement
read_status enabled s h k = ground (arith, last-append s.tables.analytics 0)
read_status disabled s h k = ground (arith, last-append s.tables.analytics 1)

read_amount :
    (amount : ℕ) (s : DataStore) {r : Option ℕ}
    → (store_hidden_channel_close_onchain_funds_amount_sat amount s).0 ≡ ok tt
    → (retrieve_hidden_channel_close_onchain_funds_amount_sat
        (store_hidden_channel_close_onchain_funds_amount_sat amount s).1).0
      ≡ ok r
    → r ≡ some amount
unfolding store_hidden_channel_close_onchain_funds_amount_sat
    retrieve_hidden_channel_close_onchain_funds_amount_sat statement
read_amount amount s h k = ground (arith, last-append s.tables.hidden_channel_close_amounts amount)

read_currency :
    (currency : String) (s : DataStore) {r : Option String}
    → (store_selected_fiat_currency currency s).0 ≡ ok tt
    → (retrieve_last_set_fiat_currency (store_selected_fiat_currency currency s).1).0 ≡ ok r
    → r ≡ some currency
unfolding store_selected_fiat_currency retrieve_last_set_fiat_currency statement
read_currency currency s h k = ground (arith, last-append s.tables.fiat_currencies currency)

-- The analytics status, the hidden amount and the currency that were stored last are the ones that
-- are read, whatever was stored before.
pub last_stored_is_read :
    (status : AnalyticsConfig) (amount : ℕ) (currency : String) (s : DataStore)
    {status' : AnalyticsConfig} {amount' : Option ℕ} {currency' : Option String}
    → (append_analytics_config status s).0 ≡ ok tt
    → (store_hidden_channel_close_onchain_funds_amount_sat amount s).0 ≡ ok tt
    → (store_selected_fiat_currency currency s).0 ≡ ok tt
    → (retrieve_analytics_config (append_analytics_config status s).1).0 ≡ ok status'
    → (retrieve_hidden_channel_close_onchain_funds_amount_sat
        (store_hidden_channel_close_onchain_funds_amount_sat amount s).1).0
      ≡ ok amount'
    → (retrieve_last_set_fiat_currency (store_selected_fiat_currency currency s).1).0 ≡ ok currency'
    → (status' ≡ status) × (amount' ≡ some amount) × (currency' ≡ some currency)
last_stored_is_read status amount currency s h1 h2 h3 k1 k2 k3 =
    (read_status status s h1 k1, read_amount amount s h2 k2, read_currency currency s h3 k3)
