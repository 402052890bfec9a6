-- ===== src/UserConfig.antt =====
-- src/config.rs: the settings of the user, of which those in memory are the state `Preferences`.
pub mod FeatureFlags
mod Examples
use lipa_lightning_lib.Prelude.{
  ℕ, String, Bool, true, false, not, Option, none, some, List, [], ◌∷◌, Result, ok, err, panic,
  runtime_error, invalid_input, or_err, if◌then◌else◌, filter, filter_map, map, starts_with_char,
}
use lipa_lightning_lib.Prelude.Exec.{Exec, pure, lift, ◌>>=◌, ◌>>◌}
use lipa_lightning_lib.Config.{TzConfig, UserPreferences, ExchangeRate}
use lipa_lightning_lib.Errors.{RuntimeErrorCode, LibError}
use lipa_lightning_lib.Db.Connection.{DataStore, Store}
use lipa_lightning_lib.DataStore.Addresses.{
  EnableStatus, enabled, feature_disabled, update_lightning_address, retrieve_lightning_addresses,
  with_status,
}
use lipa_lightning_lib.DataStore.Settings.{
  AnalyticsConfig, append_analytics_config, retrieve_analytics_config, store_selected_fiat_currency,
}
use lipa_lightning_lib.Sdk.{World, Call, on_store}
use lipa_lightning_lib.Support.{Support, Lib, request, auth_service_unavailable}

-- `FeatureFlag` of src/lib.rs
pub data FeatureFlag : Type 0 where
  lightning_address phone_number : FeatureFlag

-- The settings that are shared in memory, beside the store.
pub record Settings : Type 0 where
  pub user_preferences : UserPreferences
  pub analytics_config : AnalyticsConfig
  pub store : DataStore

-- an operation on the store, in the settings
unfoldable pub in_store :
    {A : Type 0} → (DataStore → Result LibError A × DataStore) → Exec Settings LibError A
in_store m s = ((m s.store).0, record s { store = (m s.store).1 })

unfoldable pub set_fiat_currency : String → Exec Settings LibError (Unit {0})
unfolding in_store
set_fiat_currency currency = do
  in_store (store_selected_fiat_currency currency)
  λ s. (
    ok tt,
    record s { user_preferences = record s.user_preferences { fiat_currency = currency } },
  )

unfoldable pub set_timezone_config : TzConfig → Settings → Settings
set_timezone_config tz s = record s {
  user_preferences = record s.user_preferences { timezone_config = tz };
}

unfoldable pub set_analytics_config : AnalyticsConfig → Exec Settings LibError (Unit {0})
unfolding in_store
set_analytics_config config s =
    in_store (append_analytics_config config) (record s { analytics_config = config })

unfoldable pub get_analytics_config : Exec Settings LibError AnalyticsConfig
unfolding in_store
get_analytics_config = in_store retrieve_analytics_config

-- The codes of the crate `isolang` and `iso_country`, whose texts are the canonical ones.
pub record Codes : Type 0 where
  pub language_of : String → Option String
  pub country_of : String → Option String

unfoldable pub register_notification_token :
    Codes → Support → String → String → String → Lib (Unit {0})
register_notification_token codes sup token language country = do
  l ← lift (or_err (codes.language_of language) invalid_input)
  c ← lift (or_err (codes.country_of country) invalid_input)
  request (Call.register_notification_token token l c)
      sup.services.answer_register_notification_token
      (runtime_error RuntimeErrorCode.offer_service_unavailable)

-- An address that begins with a dash stands for a phone number.
unfoldable pub is_kind_of : FeatureFlag → String → Bool
is_kind_of lightning_address a = not (starts_with_char "-" a)
is_kind_of phone_number a = starts_with_char "-" a

unfoldable pub from_status : Bool → EnableStatus
from_status true = feature_disabled
from_status false = enabled

unfoldable pub to_status : Bool → EnableStatus
to_status true = enabled
to_status false = feature_disabled

unfoldable pub addresses_to_change : FeatureFlag → Bool → List (String × EnableStatus) → List String
unfolding from_status is_kind_of
addresses_to_change feature flag_enabled l =
    filter (is_kind_of feature) (filter_map (with_status (from_status flag_enabled)) l)

-- the `try_for_each`
unfoldable pub update_all : List String → EnableStatus → Store (Unit {0})
update_all [] status = pure tt
update_all (a ∷ addresses) status = do
  update_lightning_address a status
  update_all addresses status

unfoldable pub report_change : Support → Bool → List String → Lib (Unit {0})
report_change sup true addresses =
    request (Call.enable_lightning_addresses addresses)
      sup.services.answer_enable_lightning_addresses auth_service_unavailable
report_change sup false addresses =
    request (Call.disable_lightning_addresses addresses)
      sup.services.answer_disable_lightning_addresses auth_service_unavailable

unfoldable pub change_addresses : Support → Bool → List String → Lib (Unit {0})
unfolding report_change update_all to_status
change_addresses sup flag_enabled [] = pure tt
change_addresses sup flag_enabled (a ∷ addresses) = do
  report_change sup flag_enabled (a ∷ addresses)
  on_store (update_all (a ∷ addresses) (to_status flag_enabled))

unfoldable pub set_feature_flag : Support → FeatureFlag → Bool → Lib (Unit {0})
unfolding addresses_to_change change_addresses
set_feature_flag sup feature flag_enabled = do
  l ← on_store retrieve_lightning_addresses
  change_addresses sup flag_enabled (addresses_to_change feature flag_enabled l)

unfoldable pub list_currencies : Support → List String
list_currencies sup = map (λ (r : ExchangeRate). r.currency_code) sup.exchange_rates
