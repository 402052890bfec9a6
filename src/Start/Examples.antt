-- ===== src/Start/Examples.antt =====
-- A first start.
use lipa_lightning_lib.Start.Currency.{value_or}
use lipa_lightning_lib.Webhook.{register_webhook_url}
use lipa_lightning_lib.DataStore.{get_all_exchange_rates}
use lipa_lightning_lib.Support.{request}
use lipa_lightning_lib.KeyDerivation.{derive_analytics_key, derive_persistence_encryption_key}
use lipa_lightning_lib.Db.Connection.{statement}
use lipa_lightning_lib.DataStore.Settings.{
  retrieve_analytics_config, retrieve_last_set_fiat_currency, store_selected_fiat_currency,
}
use lipa_lightning_lib.Sdk.{ask, on_store}
use lipa_lightning_lib.Start.{AnalyticsConfig}
use lipa_lightning_lib.Prelude.{pos, ◌++◌}
use lipa_lightning_lib.Prelude.{◌≡◌, refl, some, [], ◌∷◌, Result, ok}
use lipa_lightning_lib.Errors.{LibError}
use lipa_lightning_lib.Db.{last}
use lipa_lightning_lib.SymmetricEncryption.{Bytes}
use lipa_lightning_lib.KeyDerivation.{Bip32}
use lipa_lightning_lib.Sdk.{World}
use lipa_lightning_lib.Sample.{sample_sdk, sample_services, sample_world, sample_store}
use lipa_lightning_lib.Start.{StartConfig, StartedNode, new_node}
use lipa_lightning_lib.Start.Currency.{started_currency_is_stored}

abbrev eight : Bytes
eight = 1 ∷ 2 ∷ 3 ∷ 4 ∷ 5 ∷ 6 ∷ 7 ∷ 8 ∷ []

abbrev seed : Bytes
seed = eight ++ eight ++ eight ++ eight ++ eight ++ eight ++ eight ++ eight

abbrev bip32 : Bip32
bip32 = record {
  new_master = λ s. some s;
  path_from_str = λ path. some path;
  derive_priv = λ k path. some k;
  secret_bytes = λ k. k;
  public_key_of = λ k. k;
}

abbrev fine : Result LibError (Unit {0})
fine = ok tt

abbrev config : StartConfig
config = record {
  create_dir_all = fine;
  init_logger_once = fine;
  new_runtime = fine;
  build_auth = λ _. fine;
  build_async_auth = λ _. fine;
  open_data_store = fine;
  seed = seed;
  default_fiat_currency = "EUR";
  timezone_config = record { timezone_id = "Europe/Zurich"; timezone_utc_offset_secs = pos 0 };
  webhook = record {
    notification_webhook_secret_hex = "00";
    notification_webhook_base_url = "https://x.org/{id}";
    key_of = λ s. some s;
    encrypted_id = λ id key. some id;
  };
}

abbrev fresh : World
fresh = record sample_world {
  store = record sample_store {
    tables = record (sample_store.tables) { analytics = 0 ∷ []; fiat_currencies = [] };
  };
}

abbrev node : StartedNode
node = record {
  user_preferences = record {
    fiat_currency = "EUR";
    timezone_config = record { timezone_id = "Europe/Zurich"; timezone_utc_offset_secs = pos 0 };
  };
  analytics_config = AnalyticsConfig.enabled;
  exchange_rates = fresh.store.tables.rates;
  persistence_encryption_key = seed;
}

started_lem : (new_node bip32 sample_sdk sample_services config fresh).0 ≡ ok node
unfolding new_node on_store retrieve_last_set_fiat_currency statement store_selected_fiat_currency
    derive_analytics_key retrieve_analytics_config ask request derive_persistence_encryption_key
    get_all_exchange_rates register_webhook_url
started_lem = refl

started_currency_is_stored_example :
    ("EUR" ≡ value_or "EUR" (last fresh.store.tables.fiat_currencies))
    × (last (new_node bip32 sample_sdk sample_services config fresh).1.store.tables.fiat_currencies
        ≡ some "EUR")
started_currency_is_stored_example =
    started_currency_is_stored bip32 sample_sdk sample_services config fresh started_lem
