-- ===== src/UserConfig/FeatureFlags.antt =====
-- src/config.rs: what `set_feature_flag` makes of the lightning addresses.
use lipa_lightning_lib.Prelude.{
  String, Bool, true, false, ◌≡◌, refl, sym, ap, ◌∙◌, Option, some, List, [], ◌∷◌, ok, arith,
  eq_iff, str_eq, if◌then◌else◌, any, filter, filter_map, map, map_option,
}
use lipa_lightning_lib.Prelude.Exec.{>>=-ok, >>=-of_ok}
use lipa_lightning_lib.Db.Connection.{DataStore, statement}
use lipa_lightning_lib.DataStore.Addresses.{
  EnableStatus, enabled, feature_disabled, is_status, update_lightning_address,
  retrieve_lightning_addresses, with_status,
}
use lipa_lightning_lib.DataStore.Addresses.Map.{
  IsAddressTable, listed_status, updated, run_changes, run_change, change_map, change_map_all,
  run_changes_read, Change,
}
use lipa_lightning_lib.Sdk.{World, on_store, ask}
use lipa_lightning_lib.Support.{Support, request}
use lipa_lightning_lib.UserConfig.{
  FeatureFlag, is_kind_of, from_status, to_status, addresses_to_change, update_all,
  change_addresses, set_feature_flag, report_change,
}

abbrev updates : EnableStatus → List String → List Change
updates status addresses = map (λ a. updated a status) addresses

run_changes-update_all :
    (addresses : List String) (status : EnableStatus) (s : DataStore)
    → (update_all addresses status s).0 ≡ ok tt
    → (run_changes (updates status addresses) s).1 ≡ (update_all addresses status s).1
unfolding update_all run_changes run_change
run_changes-update_all [] status s h = refl
run_changes-update_all (a ∷ addresses) status s h =
    let (_, first, rest, e) =
      >>=-ok (update_lightning_address a status) (λ _. update_all addresses status) s h in
    run_changes-update_all addresses status (update_lightning_address a status s).1 rest
    ∙ ap (λ r. r.1) (sym e)

done-update_all :
    (addresses : List String) (status : EnableStatus) (s : DataStore)
    → (update_all addresses status s).0 ≡ ok tt
    → (run_changes (updates status addresses) s).0 ≡ updates status addresses
unfolding update_all run_changes run_change
done-update_all [] status s h = refl
done-update_all (a ∷ addresses) status s h =
    let (_, first, rest, e) =
      >>=-ok (update_lightning_address a status) (λ _. update_all addresses status) s h in
    rw first (
      ap (λ l. updated a status ∷ l)
        (done-update_all addresses status (update_lightning_address a status s).1 rest))

abbrev contains : List String → String → Bool
contains addresses a = any (λ b. str_eq b a) addresses

change_map_all-updates :
    (addresses : List String) (status : EnableStatus) (f : String → Option EnableStatus)
    (a : String)
    → change_map_all (updates status addresses) f a
      ≡ (if contains addresses a then map_option (λ _. status) (f a) else f a)
unfolding change_map_all change_map
change_map_all-updates [] status f a = refl
change_map_all-updates (b ∷ addresses) status f a =
    change_map_all-updates addresses status (change_map (updated b status) f) a
    ∙ ground (arith, eq_iff b a)

kind-of_changed :
    (feature : FeatureFlag) (status : EnableStatus) (l : List (String × EnableStatus)) (a : String)
    → contains (filter (is_kind_of feature) (filter_map (with_status status) l)) a ≡ true
    → is_kind_of feature a ≡ true
unfolding with_status is_status
kind-of_changed feature status [] a h = cc
kind-of_changed feature status ((b, t) ∷ l) a h =
    ground (arith, kind-of_changed feature status l a, eq_iff b a)

changed-of_kind :
    (feature : FeatureFlag) (status : EnableStatus) (l : List (String × EnableStatus)) (a : String)
    → is_kind_of feature a ≡ true
    → listed_status a l ≡ some status
    → contains (filter (is_kind_of feature) (filter_map (with_status status) l)) a ≡ true
unfolding with_status is_status
changed-of_kind feature status [] a h k = cc
changed-of_kind feature status ((b, t) ∷ l) a h k =
    ground (arith, changed-of_kind feature status l a, eq_iff b a)

report_change-store :
    (sup : Support) (flag_enabled : Bool) (addresses : List String) (w : World)
    → (report_change sup flag_enabled addresses w).1.store ≡ w.store
unfolding report_change request ask
report_change-store sup true addresses w = ground arith
report_change-store sup false addresses w = ground arith

-- What `change_addresses` does to the store where it succeeds.
abbrev IsChanged : Bool → List String → DataStore → DataStore → Type 0
IsChanged flag_enabled addresses s t =
    (t ≡ (run_changes (updates (to_status flag_enabled) addresses) s).1)
    × ((run_changes (updates (to_status flag_enabled) addresses) s).0
        ≡ updates (to_status flag_enabled) addresses)

change_addresses-ok :
    (sup : Support) (flag_enabled : Bool) (addresses : List String) (w : World)
    → (change_addresses sup flag_enabled addresses w).0 ≡ ok tt
    → IsChanged flag_enabled addresses w.store
        (change_addresses sup flag_enabled addresses w).1.store
unfolding change_addresses run_changes on_store
change_addresses-ok sup flag_enabled [] w h = (refl, refl)
change_addresses-ok sup flag_enabled (a ∷ addresses) w h =
    let status = to_status flag_enabled in
    let (_, first, rest, e) =
      >>=-ok (report_change sup flag_enabled (a ∷ addresses))
        (λ _. on_store (update_all (a ∷ addresses) status)) w h in
    let kept = report_change-store sup flag_enabled (a ∷ addresses) w in
    let run : (update_all (a ∷ addresses) status w.store).0 ≡ ok tt = rw kept at rest in
    (
      ap (λ r. r.1.store) e
          ∙ ap (λ s. (update_all (a ∷ addresses) status s).1) kept
          ∙ sym (run_changes-update_all (a ∷ addresses) status w.store run),
      done-update_all (a ∷ addresses) status w.store run,
    )

retrieve-addresses :
    (s : DataStore)
    → (retrieve_lightning_addresses s).1.tables.lightning_addresses ≡ s.tables.lightning_addresses
unfolding retrieve_lightning_addresses statement
retrieve-addresses s = ground arith

switched :
    (feature : FeatureFlag) (flag_enabled : Bool) (l : List (String × EnableStatus)) (a : String)
    → (if contains (addresses_to_change feature flag_enabled l) a
        then map_option (λ _. to_status flag_enabled) (listed_status a l)
        else listed_status a l)
      ≡ (if is_kind_of feature a
          then map_option (λ _. to_status flag_enabled) (listed_status a l)
          else listed_status a l)
unfolding addresses_to_change from_status to_status
switched feature true l a = ground (
  arith,
  kind-of_changed feature feature_disabled l a,
  changed-of_kind feature feature_disabled l a,
)
switched feature false l a =
    ground (arith, kind-of_changed feature enabled l a, changed-of_kind feature enabled l a)

-- After a `set_feature_flag` that succeeds, every address of the feature's kind has the status that
-- the flag asks for, and every other address has the status that it had.
pub listed_status-set_feature_flag :
    (sup : Support) (feature : FeatureFlag) (flag_enabled : Bool) (a : String) (w : World)
    {before after : List (String × EnableStatus)}
    → IsAddressTable w.store.tables.lightning_addresses
    → (set_feature_flag sup feature flag_enabled w).0 ≡ ok tt
    → (retrieve_lightning_addresses w.store).0 ≡ ok before
    → (retrieve_lightning_addresses (set_feature_flag sup feature flag_enabled w).1.store).0
      ≡ ok after
    → listed_status a after ≡ (
        if is_kind_of feature a
        then map_option (λ _. to_status flag_enabled) (listed_status a before)
        else listed_status a before)
unfolding set_feature_flag on_store
listed_status-set_feature_flag sup feature flag_enabled a w {before} hs h r k =
    let s1 = (retrieve_lightning_addresses w.store).1 in
    let w1 = record w { store = s1 } in
    let addresses = addresses_to_change feature flag_enabled before in
    let e =
      >>=-of_ok (on_store retrieve_lightning_addresses)
        (λ (l : List (String × EnableStatus)).
          change_addresses sup flag_enabled (addresses_to_change feature flag_enabled l))
        w r in
    let (t, d) = change_addresses-ok sup flag_enabled addresses w1 (ap (λ x. x.0) (sym e) ∙ h) in
    let changes = updates (to_status flag_enabled) addresses in
    let k1 : (retrieve_lightning_addresses (run_changes changes s1).1).0 ≡ _ =
      ap (λ s. (retrieve_lightning_addresses s).0) (sym t ∙ ap (λ x. x.1.store) (sym e)) ∙ k in
    run_changes_read changes w.store s1 a (retrieve-addresses w.store) hs r k1
    ∙ ap (λ c. change_map_all c (λ b. listed_status b before) a) d
    ∙ change_map_all-updates addresses (to_status flag_enabled) (λ b. listed_status b before) a
    ∙ switched feature flag_enabled before a
