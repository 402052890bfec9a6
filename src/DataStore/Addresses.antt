-- ===== src/DataStore/Addresses.antt =====
-- src/data_store.rs: the lightning addresses of the user, which include those that stand for a phone
-- number, and whether they are enabled. `now` is the time that SQLite gives to a new row.
pub mod Map
mod Examples
use lipa_lightning_lib.Prelude.{
  ℕ, String, Bool, false, Option, none, some, List, [], ◌∷◌, Result, ok, err, panic,
  permanent_failure, if◌then◌else◌, ◌==◌, map,
}
use lipa_lightning_lib.Prelude.Exec.{lift, ◌>>=◌, ◌>>◌}
use lipa_lightning_lib.Errors.{LibError}
use lipa_lightning_lib.Db.{LightningAddressRow, replace_address, set_status, order_by_registered_at}
use lipa_lightning_lib.Db.Connection.{Store, mark_for_backup, execute, query}

-- `EnableStatus` of src/lib.rs, stored as a `u8`
pub data EnableStatus : Type 0 where
  enabled feature_disabled : EnableStatus

abbrev pub status_to_u8 : EnableStatus → ℕ
status_to_u8 enabled = 0
status_to_u8 feature_disabled = 1

-- `TryFromPrimitive`
unfoldable pub status_of_u8 : ℕ → Option EnableStatus
status_of_u8 n = if n == 0 then some enabled else if n == 1 then some feature_disabled else none

unfoldable pub is_status : EnableStatus → EnableStatus → Bool
is_status s t = status_to_u8 s == status_to_u8 t

unfoldable pub store_lightning_address : ℕ → String → Store (Unit {0})
store_lightning_address now address = do
  execute permanent_failure (λ t. record t {
    lightning_addresses =
        replace_address
          (record { address = address; registered_at = now; enable_status = status_to_u8 enabled })
          t.lightning_addresses;
  })
  mark_for_backup

unfoldable pub update_lightning_address : String → EnableStatus → Store (Unit {0})
update_lightning_address address status = do
  execute permanent_failure (λ t. record t {
    lightning_addresses = map (set_status address (status_to_u8 status)) t.lightning_addresses;
  })
  mark_for_backup

-- `lightning_address_from_row` of a row with this address and status, before the other rows
unfoldable pub prepend_address :
    String
    → Option EnableStatus
    → Result LibError (List (String × EnableStatus))
    → Result LibError (List (String × EnableStatus))
prepend_address address none rest = err permanent_failure
prepend_address address (some status) (ok l) = ok ((address, status) ∷ l)
prepend_address address (some status) (err e) = err e
prepend_address address (some status) panic = panic

-- the `collect` of `query_map`: the first row of an unknown status is an error
unfoldable pub addresses_from_rows :
    List LightningAddressRow → Result LibError (List (String × EnableStatus))
unfolding prepend_address
addresses_from_rows [] = ok []
addresses_from_rows (r ∷ rows) =
    prepend_address r.address (status_of_u8 r.enable_status) (addresses_from_rows rows)

unfoldable pub retrieve_lightning_addresses : Store (List (String × EnableStatus))
unfolding addresses_from_rows
retrieve_lightning_addresses = do
  rows ← query permanent_failure (λ t. order_by_registered_at t.lightning_addresses)
  lift (addresses_from_rows rows)

-- `with_status` of src/lib.rs
unfoldable pub with_status : EnableStatus → String × EnableStatus → Option String
with_status status p = if is_status p.1 status then some p.0 else none
