-- ===== src/Start.antt =====
-- src/lib.rs: LightningNode::new. The directory, the logger, the runtime, the authentication and the
-- opening of the database are parameters; the tasks that run in the background are in TaskManager.
pub mod Currency
mod Examples
use lipa_lightning_lib.Prelude.{
  ℕ, String, Option, none, some, List, [], ◌∷◌, Result, ok, err, panic, invalid_input, or_err,
  length, ◌==◌, if◌then◌else◌, ◌>>=?◌,
}
use lipa_lightning_lib.Prelude.Exec.{pure, lift, ◌>>=◌, ◌>>◌}
use lipa_lightning_lib.Config.{ExchangeRate, TzConfig, UserPreferences}
use lipa_lightning_lib.Errors.{LibError}
use lipa_lightning_lib.SymmetricEncryption.{Bytes}
use lipa_lightning_lib.KeyDerivation.{
  Bip32, derive_analytics_key, derive_persistence_encryption_key,
}
use lipa_lightning_lib.DataStore.{get_all_exchange_rates}
use lipa_lightning_lib.DataStore.Settings.{
  AnalyticsConfig, retrieve_analytics_config, retrieve_last_set_fiat_currency,
  store_selected_fiat_currency,
}
use lipa_lightning_lib.Sdk.{Sdk, Services, Call, ask, on_store}
use lipa_lightning_lib.Support.{Lib, request, node_unavailable}
use lipa_lightning_lib.Webhook.{WebhookConfig, register_webhook_url}

pub record StartConfig : Type 0 where
  pub create_dir_all : Result LibError (Unit {0})
  pub init_logger_once : Result LibError (Unit {0})
  pub new_runtime : Result LibError (Unit {0})
  pub build_auth : Bytes → Result LibError (Unit {0})
  pub build_async_auth : Bytes → Result LibError (Unit {0})
  pub open_data_store : Result LibError (Unit {0})
  pub seed : Bytes
  pub default_fiat_currency : String
  pub timezone_config : TzConfig
  pub webhook : WebhookConfig

-- what the started node keeps
pub record StartedNode : Type 0 where
  pub user_preferences : UserPreferences
  pub analytics_config : AnalyticsConfig
  pub exchange_rates : List ExchangeRate
  pub persistence_encryption_key : Bytes

-- `strong_type_seed`
unfoldable pub typed_seed : Bytes → Result LibError Bytes
typed_seed seed = if length seed == 64 then ok seed else err invalid_input

-- up to the opening of the database
unfoldable pub prepare : StartConfig → Result LibError (Unit {0})
unfolding typed_seed
prepare c = c.create_dir_all >>=? λ _. c.init_logger_once >>=? λ _. c.new_runtime >>=? λ _.
    typed_seed c.seed >>=? λ seed.
    c.build_auth seed >>=? λ _. c.build_async_auth seed >>=? λ _. c.open_data_store

unfoldable pub currency_or_default : String → Option String → Lib String
currency_or_default default_currency (some c) = pure c
currency_or_default default_currency none = do
  on_store (store_selected_fiat_currency default_currency)
  pure default_currency

unfoldable pub initial_currency : String → Lib String
unfolding currency_or_default
initial_currency default_currency = do
  stored ← on_store retrieve_last_set_fiat_currency
  currency_or_default default_currency stored

-- the first provider of a list
unfoldable pub first_lsp : List String → Option String
first_lsp [] = none
first_lsp (lsp ∷ lsps) = some lsp

module _ (sdk : Sdk) where
  unfoldable pub connect_first_lsp : Lib (Unit {0})
  unfolding first_lsp
  connect_first_lsp = do
    listed ← ask Call.list_lsps sdk.answer_list_lsps
    lsps ← lift (or_err listed node_unavailable)
    lsp ← lift (or_err (first_lsp lsps) node_unavailable)
    request (Call.connect_lsp lsp) sdk.answer_connect_lsp node_unavailable

  unfoldable pub ensure_lsp_of : Option String → Lib (Unit {0})
  unfolding connect_first_lsp
  ensure_lsp_of (some lsp) = pure tt
  ensure_lsp_of none = connect_first_lsp

  unfoldable pub connect_sdk : Lib (Unit {0})
  unfolding ensure_lsp_of
  connect_sdk = do
    started ← ask Call.start_sdk sdk.answer_start_sdk
    lift started
    answer ← ask Call.lsp_id sdk.answer_lsp_id
    lsp_id ← lift (or_err answer node_unavailable)
    ensure_lsp_of lsp_id

module _ (bip32 : Bip32) (sdk : Sdk) (services : Services) (c : StartConfig) where
  -- from the client of analytics on
  unfoldable pub start_with : String → Lib StartedNode
  unfolding connect_sdk
  start_with fiat_currency = do
    analytics_key ← lift (derive_analytics_key bip32 c.seed)
    analytics_config ← on_store retrieve_analytics_config
    connect_sdk sdk
    key ← lift (derive_persistence_encryption_key bip32 c.seed)
    exchange_rates ← on_store get_all_exchange_rates
    register_webhook_url sdk services c.webhook
    pure (record {
      user_preferences = record {
        fiat_currency = fiat_currency;
        timezone_config = c.timezone_config;
      };
      analytics_config = analytics_config;
      exchange_rates = exchange_rates;
      persistence_encryption_key = key;
    })

  -- `LightningNode::new`
  unfoldable pub new_node : Lib StartedNode
  unfolding prepare initial_currency start_with
  new_node = do
    lift (prepare c)
    fiat_currency ← initial_currency c.default_fiat_currency
    start_with fiat_currency
