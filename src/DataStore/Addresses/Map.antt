-- ===== src/DataStore/Addresses/Map.antt =====
-- The lightning addresses as a map from addresses to their status, which is what the list of rows
-- and the statements on it stand for.
use lipa_lightning_lib.Prelude.{
  ℕ, String, true, false, ◌≡◌, refl, sym, ap, ◌∙◌, Option, none, some, List, [], ◌∷◌, ok, err,
  panic, is_ok, arith, eq_iff, str_eq, if◌then◌else◌, find, map, map_option, is_some, Option-cases,
  Bool-cases, inl, inr, Result,
}
use lipa_lightning_lib.Errors.{LibError}
use lipa_lightning_lib.Db.{
  LightningAddressRow, replace_address, set_status, insert_address_by_time, order_by_registered_at,
}
use lipa_lightning_lib.Db.Connection.{DataStore, Store, statement}
use lipa_lightning_lib.DataStore.Addresses.{
  EnableStatus, enabled, feature_disabled, status_to_u8, status_of_u8, store_lightning_address,
  update_lightning_address, addresses_from_rows, retrieve_lightning_addresses, prepend_address,
}

-- the row of an address
abbrev pub row_of : String → List LightningAddressRow → Option LightningAddressRow
row_of a rows = find (λ (r : LightningAddressRow). str_eq r.address a) rows

abbrev decoded : Option LightningAddressRow → Option EnableStatus
decoded none = none
decoded (some r) = status_of_u8 r.enable_status

-- the status of an address in the list that is read
abbrev pub listed_status : String → List (String × EnableStatus) → Option EnableStatus
listed_status a l = map_option (λ p. p.1) (find (λ p. str_eq p.0 a) l)

-- UNIQUE(address), and a status that is read back
unfoldable pub IsAddressTable : List LightningAddressRow → Type 0
IsAddressTable [] = Unit
IsAddressTable (r ∷ rows) =
    (row_of r.address rows ≡ none)
    × (is_some (status_of_u8 r.enable_status) ≡ true)
    × IsAddressTable rows

-- What an operation means for the map.
pub data Change : Type 0 where
  stored : ℕ → String → Change
  updated : String → EnableStatus → Change

unfoldable pub run_change : Change → Store (Unit {0})
run_change (stored now a) = store_lightning_address now a
run_change (updated a status) = update_lightning_address a status

unfoldable pub change_map : Change → (String → Option EnableStatus) → String → Option EnableStatus
change_map (stored now a) f b = if str_eq a b then some enabled else f b
change_map (updated a status) f b = if str_eq a b then map_option (λ _. status) (f b) else f b

unfoldable pub change_map_all :
    List Change → (String → Option EnableStatus) → String → Option EnableStatus
unfolding change_map
change_map_all [] f = f
change_map_all (c ∷ changes) f = change_map_all changes (change_map c f)

-- Any operations one after the other, whether they succeed or fail: those that succeeded, and the
-- store that they leave.
unfoldable pub run_changes : List Change → DataStore → List Change × DataStore
unfolding run_change
run_changes [] s = ([], s)
run_changes (c ∷ changes) s =
    let (r, s') = run_change c s in
    let (done, end) = run_changes changes s' in (if is_ok r then c ∷ done else done, end)

row_of-replace :
    (b : String) (r : LightningAddressRow) (rows : List LightningAddressRow)
    → row_of b (replace_address r rows) ≡ (if str_eq r.address b then some r else row_of b rows)
unfolding replace_address
row_of-replace b r [] = refl
row_of-replace b r (x ∷ rows) = ground (
  arith,
  row_of-replace b r rows,
  eq_iff x.address b,
  eq_iff x.address r.address,
  eq_iff r.address b,
)

row_of-update :
    (a b : String) (n : ℕ) (rows : List LightningAddressRow)
    → row_of b (map (set_status a n) rows) ≡ map_option (set_status a n) (row_of b rows)
unfolding set_status
row_of-update a b n [] = refl
row_of-update a b n (x ∷ rows) =
    ground (arith, row_of-update a b n rows, eq_iff x.address b, eq_iff x.address a, eq_iff a b)

row_of-insert :
    (a : String) (r : LightningAddressRow) (rows : List LightningAddressRow)
    → row_of r.address rows ≡ none
    → row_of a (insert_address_by_time r rows)
      ≡ (if str_eq r.address a then some r else row_of a rows)
unfolding insert_address_by_time
row_of-insert a r [] h = refl
row_of-insert a r (x ∷ rows) h = ground (
  arith,
  row_of-insert a r rows,
  eq_iff r.address a,
  eq_iff x.address a,
  eq_iff x.address r.address,
)

row_of-ordered :
    (a : String) (rows : List LightningAddressRow)
    → IsAddressTable rows
    → row_of a (order_by_registered_at rows) ≡ row_of a rows
unfolding order_by_registered_at IsAddressTable
row_of-ordered a [] h = refl
row_of-ordered a (r ∷ rows) (h, _, hs) =
    row_of-insert a r (order_by_registered_at rows) (row_of-ordered r.address rows hs ∙ h)
    ∙ ap (λ o. if str_eq r.address a then some r else o) (row_of-ordered a rows hs)

prepend_address-ok :
    (a : String) (o : Option EnableStatus) (r : Result LibError (List (String × EnableStatus)))
    {l : List (String × EnableStatus)}
    → prepend_address a o r ≡ ok l
    → (status : EnableStatus) × (m : List (String × EnableStatus)) × (o ≡ some status)
      × (r ≡ ok m)
      × (l ≡ (a, status) ∷ m)
unfolding prepend_address
prepend_address-ok a none r h = cc
prepend_address-ok a (some status) (ok m) h = (status, m, refl, refl, cc)
prepend_address-ok a (some status) (err e) h = cc
prepend_address-ok a (some status) panic h = cc

listed-decoded :
    (a : String) (rows : List LightningAddressRow) {l : List (String × EnableStatus)}
    → addresses_from_rows rows ≡ ok l
    → listed_status a l ≡ decoded (row_of a rows)
unfolding addresses_from_rows
listed-decoded a [] {l} h = let same : l ≡ [] = cc in rw same refl
listed-decoded a (r ∷ rows) h =
    let (status, m, e, f, g) =
      prepend_address-ok r.address (status_of_u8 r.enable_status) (addresses_from_rows rows) h in
    rw g ground (arith, e, listed-decoded a rows f)

retrieved-decoded :
    (a : String) (s : DataStore) {l : List (String × EnableStatus)}
    → IsAddressTable s.tables.lightning_addresses
    → (retrieve_lightning_addresses s).0 ≡ ok l
    → listed_status a l ≡ decoded (row_of a s.tables.lightning_addresses)
unfolding retrieve_lightning_addresses statement
retrieved-decoded a s hs h =
    let rows = s.tables.lightning_addresses in
    elim (Bool-cases (s.fails s.executed)) [
      | inl bad ↦ (let f = rw bad at h in cc)
      | inr good ↦
          listed-decoded a (order_by_registered_at rows) (rw good at h)
          ∙ ap decoded (row_of-ordered a rows hs)
    ]

-- a statement that failed changed nothing
rows_after : Change → List LightningAddressRow → List LightningAddressRow
rows_after (stored now a) rows =
    replace_address
      (record { address = a; registered_at = now; enable_status = status_to_u8 enabled }) rows
rows_after (updated a status) rows = map (set_status a (status_to_u8 status)) rows

run_change-rows :
    (c : Change) (s : DataStore)
    → (run_change c s).1.tables.lightning_addresses ≡ (
        if is_ok (run_change c s).0
        then rows_after c s.tables.lightning_addresses
        else s.tables.lightning_addresses)
unfolding run_change store_lightning_address update_lightning_address statement rows_after
run_change-rows (stored now a) s = ground arith
run_change-rows (updated a status) s = ground arith

row_of-status :
    (b : String) (rows : List LightningAddressRow) {r : LightningAddressRow}
    → IsAddressTable rows
    → row_of b rows ≡ some r
    → is_some (status_of_u8 r.enable_status) ≡ true
unfolding IsAddressTable
row_of-status b [] h e = cc
row_of-status b (x ∷ rows) {r} (_, h, hs) e = ground (arith, row_of-status b rows {r = r} hs)

status_of-to_u8 : (status : EnableStatus) → status_of_u8 (status_to_u8 status) ≡ some status
unfolding status_of_u8
status_of-to_u8 enabled = refl
status_of-to_u8 feature_disabled = refl

row_of-address :
    (b : String) (rows : List LightningAddressRow) {r : LightningAddressRow}
    → row_of b rows ≡ some r
    → str_eq r.address b ≡ true
row_of-address b [] e = cc
row_of-address b (x ∷ rows) {r} e = ground (arith, row_of-address b rows {r = r})

decoded-after :
    (c : Change) (rows : List LightningAddressRow) (b : String)
    → IsAddressTable rows
    → decoded (row_of b (rows_after c rows)) ≡ change_map c (λ a. decoded (row_of a rows)) b
unfolding rows_after change_map set_status
decoded-after (stored now a) rows b hs =
    let r : LightningAddressRow = record {
      address = a;
      registered_at = now;
      enable_status = status_to_u8 enabled;
    } in
    ground (arith, row_of-replace b r rows, status_of-to_u8 enabled)
decoded-after (updated a status) rows b hs = elim (Option-cases (row_of b rows)) [
  | inl gone ↦ ground (arith, row_of-update a b (status_to_u8 status) rows)
  | inr (r, found) ↦ ground (
    arith,
    row_of-update a b (status_to_u8 status) rows,
    row_of-status b rows {r = r} hs,
    row_of-address b rows {r = r},
    eq_iff r.address b,
    eq_iff r.address a,
    eq_iff a b,
    status_of-to_u8 status,
  )
]

replaced-IsAddressTable :
    (r : LightningAddressRow) (rows : List LightningAddressRow)
    → is_some (status_of_u8 r.enable_status) ≡ true
    → IsAddressTable rows
    → IsAddressTable (replace_address r rows)
unfolding IsAddressTable replace_address
replaced-IsAddressTable r [] v hs = (refl, v, tt)
replaced-IsAddressTable r (x ∷ rows) v (h, hv, hs) =
    let rest = replaced-IsAddressTable r rows v hs in
    elim (Bool-cases (str_eq x.address r.address)) [
      | inl same ↦ rw same rest
      | inr other ↦ rw other (
        ground (
          arith,
          row_of-replace x.address r rows,
          eq_iff r.address x.address,
          eq_iff x.address r.address,
        ),
        hv,
        rest,
      )
    ]

updated-IsAddressTable :
    (a : String) (status : EnableStatus) (rows : List LightningAddressRow)
    → IsAddressTable rows
    → IsAddressTable (map (set_status a (status_to_u8 status)) rows)
unfolding IsAddressTable set_status
updated-IsAddressTable a status [] hs = tt
updated-IsAddressTable a status (x ∷ rows) (h, hv, hs) =
    let n = status_to_u8 status in
    (
      ground (arith, row_of-update a x.address n rows),
      ground (arith, status_of-to_u8 status),
      updated-IsAddressTable a status rows hs,
    )

run_change-done :
    (c : Change) (s : DataStore)
    → is_ok (run_change c s).0 ≡ true
    → (run_change c s).1.tables.lightning_addresses ≡ rows_after c s.tables.lightning_addresses
run_change-done c s h = let e = run_change-rows c s in rw h at e

run_change-failed :
    (c : Change) (s : DataStore)
    → is_ok (run_change c s).0 ≡ false
    → (run_change c s).1.tables.lightning_addresses ≡ s.tables.lightning_addresses
run_change-failed c s h = let e = run_change-rows c s in rw h at e

rows_after-IsAddressTable :
    (c : Change) (rows : List LightningAddressRow)
    → IsAddressTable rows
    → IsAddressTable (rows_after c rows)
unfolding rows_after
rows_after-IsAddressTable (stored now a) rows hs =
    replaced-IsAddressTable
      (record { address = a; registered_at = now; enable_status = status_to_u8 enabled }) rows
      (ap is_some (status_of-to_u8 enabled)) hs
rows_after-IsAddressTable (updated a status) rows hs = updated-IsAddressTable a status rows hs

run_change-IsAddressTable :
    (c : Change) (s : DataStore)
    → IsAddressTable s.tables.lightning_addresses
    → IsAddressTable (run_change c s).1.tables.lightning_addresses
run_change-IsAddressTable c s hs =
    let rows = s.tables.lightning_addresses in
    rw (run_change-rows c s) elim (Bool-cases (is_ok (run_change c s).0)) [
      | inl done ↦ rw done (rows_after-IsAddressTable c rows hs)
      | inr failed ↦ rw failed hs
    ]

-- Whatever operations run, and whichever of their statements fail, in a table in which an address stands
-- in one row, of a status that is read back, it goes on to do so.
run_changes-IsAddressTable :
    (changes : List Change) (s : DataStore)
    → IsAddressTable s.tables.lightning_addresses
    → IsAddressTable (run_changes changes s).1.tables.lightning_addresses
unfolding run_changes
run_changes-IsAddressTable [] s hs = hs
run_changes-IsAddressTable (c ∷ changes) s hs =
    run_changes-IsAddressTable changes (run_change c s).1 (run_change-IsAddressTable c s hs)

rows_after_all :
    (changes : List Change) (s : DataStore) (b : String)
    → IsAddressTable s.tables.lightning_addresses
    → decoded (row_of b (run_changes changes s).1.tables.lightning_addresses)
      ≡ change_map_all
          (run_changes changes s).0
          (λ a. decoded (row_of a s.tables.lightning_addresses))
          b
unfolding run_changes change_map_all
rows_after_all [] s b hs = refl
rows_after_all (c ∷ changes) s b hs =
    let rows = s.tables.lightning_addresses in
    let rest = rows_after_all changes (run_change c s).1 b (run_change-IsAddressTable c s hs) in
    elim (Bool-cases (is_ok (run_change c s).0)) [
      | inl done ↦ rw done (
          rest
          ∙ ap (λ f. change_map_all (run_changes changes (run_change c s).1).0 f b)
              (λ i a.
                (ap (λ l. decoded (row_of a l)) (run_change-done c s done)
                    ∙ decoded-after c rows a hs)
                  i))
      | inr failed ↦ rw failed (
          rest
          ∙ ap (λ f. change_map_all (run_changes changes (run_change c s).1).0 f b)
              (λ i a. ap (λ l. decoded (row_of a l)) (run_change-failed c s failed) i))
    ]

-- What is read after changes of a store with the addresses of `s0`, in terms of what is read of it.
pub run_changes_read :
    (changes : List Change) (s0 s1 : DataStore) {before after : List (String × EnableStatus)}
    (a : String)
    → s1.tables.lightning_addresses ≡ s0.tables.lightning_addresses
    → IsAddressTable s0.tables.lightning_addresses
    → (retrieve_lightning_addresses s0).0 ≡ ok before
    → (retrieve_lightning_addresses (run_changes changes s1).1).0 ≡ ok after
    → listed_status a after
      ≡ change_map_all (run_changes changes s1).0 (λ b. listed_status b before) a
run_changes_read changes s0 s1 a same hs h k =
    let hs1 : IsAddressTable s1.tables.lightning_addresses = rw same hs in
    retrieved-decoded a (run_changes changes s1).1 (run_changes-IsAddressTable changes s1 hs1) k
    ∙ rows_after_all changes s1 a hs1
    ∙ ap (λ f. change_map_all (run_changes changes s1).0 f a)
        (λ i b. (ap (λ l. decoded (row_of b l)) same ∙ sym (retrieved-decoded b s0 hs h)) i)

-- Storing and updating addresses implements a map from addresses to statuses. Whatever operations
-- run and whichever of their statements fail, on a table where an address stands in one row: what
-- is read afterwards is, at every address, the map that was read before, changed by the operations
-- that succeeded.
pub run_changes_refines :
    (changes : List Change) (s : DataStore) {before after : List (String × EnableStatus)}
    (a : String)
    → IsAddressTable s.tables.lightning_addresses
    → (retrieve_lightning_addresses s).0 ≡ ok before
    → (retrieve_lightning_addresses (run_changes changes s).1).0 ≡ ok after
    → listed_status a after
      ≡ change_map_all (run_changes changes s).0 (λ b. listed_status b before) a
run_changes_refines changes s a hs h k = run_changes_read changes s s a refl hs h k
