-- ===== src/DataStore/Addresses/Examples.antt =====
-- The theorems on the lightning addresses at a concrete store.
use lipa_lightning_lib.Db.{order_by_registered_at, replace_address, set_status}
use lipa_lightning_lib.DataStore.Addresses.{
  status_of_u8, store_lightning_address, update_lightning_address, EnableStatus, enabled,
  feature_disabled, retrieve_lightning_addresses,
}
use lipa_lightning_lib.Db.Connection.{statement}
use lipa_lightning_lib.Prelude.{String, ◌≡◌, refl, List, [], ◌∷◌, ok}
use lipa_lightning_lib.Sample.{sample_store}
use lipa_lightning_lib.DataStore.Addresses.Map.{
  IsAddressTable, Change, stored, updated, listed_status, change_map_all, run_changes,
  run_changes_refines,
}

abbrev changes : List Change
changes =
    stored 5 "satoshi@lipa.swiss"
    ∷ stored 6 "finney@lipa.swiss"
    ∷ updated "satoshi@lipa.swiss" feature_disabled
    ∷ []

abbrev read_after : List (String × EnableStatus)
read_after = ("satoshi@lipa.swiss", feature_disabled) ∷ ("finney@lipa.swiss", enabled) ∷ []

read_after_lem :
    (retrieve_lightning_addresses (run_changes changes sample_store).1).0 ≡ ok read_after
unfolding run_changes retrieve_lightning_addresses statement update_lightning_address
    store_lightning_address order_by_registered_at replace_address set_status status_of_u8
read_after_lem = refl

empty_table : IsAddressTable sample_store.tables.lightning_addresses
unfolding IsAddressTable
empty_table = tt

run_changes_refines_example :
    listed_status "finney@lipa.swiss" read_after
    ≡ change_map_all
        (run_changes changes sample_store).0
        (λ b. listed_status b [])
        "finney@lipa.swiss"
unfolding retrieve_lightning_addresses statement order_by_registered_at
run_changes_refines_example =
    run_changes_refines changes sample_store "finney@lipa.swiss" empty_table refl read_after_lem
