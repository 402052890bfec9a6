-- ===== src/DataStore/Topups.antt =====
-- src/data_store.rs: the setup of the fiat topup.
use lipa_lightning_lib.Prelude.{
  ℕ, suc, String, Bool, Option, List, [], ◌∷◌, ◌++◌, err, permanent_failure, if◌then◌else◌, str_eq,
  any, map_option,
}
use lipa_lightning_lib.Db.{FiatTopupSetupInfo, FiatTopupRow, latest_topup}
use lipa_lightning_lib.Db.Connection.{Store, execute, query}

-- the primary key `order_id`
abbrev pub has_order : String → List FiatTopupRow → Bool
has_order id rows = any (λ r. str_eq r.info.order_id id) rows

-- an INSERT that fails on a row with the same primary key
unfoldable pub store_fiat_topup_info : ℕ → FiatTopupSetupInfo → Store (Unit {0})
store_fiat_topup_info now info s =
    if has_order info.order_id s.tables.fiat_topup_info
    then (err permanent_failure, record s { executed = suc s.executed })
    else execute permanent_failure
        (λ t. record t {
          fiat_topup_info = t.fiat_topup_info ++ record { created_at = now; info = info } ∷ [];
        })
        s

unfoldable pub clear_fiat_topup_info : Store (Unit {0})
clear_fiat_topup_info = execute permanent_failure (λ t. record t { fiat_topup_info = [] })

unfoldable pub retrieve_latest_fiat_topup_info : Store (Option FiatTopupSetupInfo)
retrieve_latest_fiat_topup_info =
    query permanent_failure
      (λ t. map_option (λ (r : FiatTopupRow). r.info) (latest_topup t.fiat_topup_info))
