-- ===== src/LightningAddress.antt =====
-- src/lightning_address.rs: the lightning address that the backend assigns.
use lipa_lightning_lib.Prelude.{ℕ, String, not, Option, or_err, find, filter_map, starts_with_char}
use lipa_lightning_lib.Prelude.Exec.{pure, lift, ◌>>=◌, ◌>>◌}
use lipa_lightning_lib.DataStore.Addresses.{
  enabled, store_lightning_address, retrieve_lightning_addresses, with_status,
}
use lipa_lightning_lib.Sdk.{Call, ask, on_store}
use lipa_lightning_lib.Support.{Support, Lib, auth_service_unavailable}

-- `now` is the time of the system
unfoldable pub register : Support → ℕ → Lib String
register sup now = do
  answer ← ask Call.assign_lightning_address sup.services.answer_assign_lightning_address
  address ← lift (or_err answer auth_service_unavailable)
  on_store (store_lightning_address now address)
  pure address

unfoldable pub get : Lib (Option String)
get = do
  l ← on_store retrieve_lightning_addresses
  pure (find (λ a. not (starts_with_char "-" a)) (filter_map (with_status enabled) l))
