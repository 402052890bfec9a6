-- ===== src/UserConfig/Examples.antt =====
-- The theorem on feature flags at a concrete world.
use lipa_lightning_lib.Support.{request}
use lipa_lightning_lib.Prelude.{
  starts_with_char, String, false, ◌≡◌, refl, List, [], ◌∷◌, ok, if◌then◌else◌, map_option,
}
use lipa_lightning_lib.Db.{order_by_registered_at, set_status, replace_address}
use lipa_lightning_lib.Sdk.{ask, on_store, World}
use lipa_lightning_lib.DataStore.Addresses.{
  is_status, status_of_u8, update_lightning_address, with_status, EnableStatus, enabled,
  feature_disabled, store_lightning_address, retrieve_lightning_addresses,
}
use lipa_lightning_lib.Db.Connection.{statement}
use lipa_lightning_lib.Sample.{sample_store, sample_support}
use lipa_lightning_lib.DataStore.Addresses.Map.{IsAddressTable, listed_status}
use lipa_lightning_lib.UserConfig.{phone_number, is_kind_of, to_status, set_feature_flag}
use lipa_lightning_lib.UserConfig.FeatureFlags.{listed_status-set_feature_flag}

-- a store with an address and a phone number
abbrev two_addresses : World
two_addresses = record {
  calls = [];
  store =
      (store_lightning_address 6 "-41446681800@lipa.swiss"
        (store_lightning_address 5 "satoshi@lipa.swiss" sample_store).1).1;
}

abbrev before : List (String × EnableStatus)
before = ("satoshi@lipa.swiss", enabled) ∷ ("-41446681800@lipa.swiss", enabled) ∷ []

abbrev after : List (String × EnableStatus)
after = ("satoshi@lipa.swiss", enabled) ∷ ("-41446681800@lipa.swiss", feature_disabled) ∷ []

two_rows : IsAddressTable two_addresses.store.tables.lightning_addresses
unfolding IsAddressTable store_lightning_address statement replace_address status_of_u8
two_rows = (refl, refl, (refl, refl, tt))

disabled_lem : (set_feature_flag sample_support phone_number false two_addresses).0 ≡ ok tt
unfolding set_feature_flag store_lightning_address retrieve_lightning_addresses on_store statement
    order_by_registered_at replace_address status_of_u8 with_status is_status starts_with_char
    request ask update_lightning_address
disabled_lem = refl

before_lem : (retrieve_lightning_addresses two_addresses.store).0 ≡ ok before
unfolding store_lightning_address retrieve_lightning_addresses statement order_by_registered_at
    replace_address status_of_u8
before_lem = refl

after_lem :
    (retrieve_lightning_addresses
      (set_feature_flag sample_support phone_number false two_addresses).1.store).0
    ≡ ok after
unfolding set_feature_flag store_lightning_address retrieve_lightning_addresses statement on_store
    order_by_registered_at replace_address status_of_u8 with_status is_status starts_with_char
    request ask update_lightning_address set_status
after_lem = refl

listed_status-set_feature_flag_example : listed_status "-41446681800@lipa.swiss" after ≡ (
    if is_kind_of phone_number "-41446681800@lipa.swiss"
    then map_option (λ _. to_status false) (listed_status "-41446681800@lipa.swiss" before)
    else listed_status "-41446681800@lipa.swiss" before)
listed_status-set_feature_flag_example =
    listed_status-set_feature_flag sample_support phone_number false "-41446681800@lipa.swiss"
      two_addresses two_rows disabled_lem before_lem after_lem
