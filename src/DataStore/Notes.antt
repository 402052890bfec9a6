-- ===== src/DataStore/Notes.antt =====
-- Personal notes.
use lipa_lightning_lib.DataStore.{
  retrieve_payment_info, bare_row, LocalPaymentData, local_payment_data, offer_of,
  select_payment_info, update_personal_note,
}
use lipa_lightning_lib.Db.{
  find_history, PaymentRow, Tables, update_note, set_note, has_payment, find_payment,
  insert_payment, find_offer,
}
use lipa_lightning_lib.Prelude.{
  Option-cases, String, false, ◌≡◌, refl, Option, none, some, List, [], ◌∷◌, ok, arith, Bool-cases,
  inl, inr, if◌then◌else◌, str_eq, eq_iff, any-eq-find, is_some, map_option,
}
use lipa_lightning_lib.DataStore.Payments.{stored_payment, retrieve-eq-select}
use lipa_lightning_lib.Offer.{Offer}
use lipa_lightning_lib.Db.Connection.{DataStore, statement}

find_payment-update_note :
    (hash j : String) (text : Option String) (rows : List PaymentRow)
    → find_payment j (update_note hash text rows)
      ≡ map_option (set_note hash text) (find_payment j rows)
unfolding find_payment update_note set_note
find_payment-update_note hash j _ [] = refl
find_payment-update_note hash j text (r ∷ rows) =
    ground (arith, find_payment-update_note hash j text rows)

find_payment-insert_ne :
    (j : String) (row : PaymentRow) (rows : List PaymentRow)
    → str_eq row.hash j ≡ false
    → find_payment j (insert_payment row rows) ≡ find_payment j rows
unfolding find_payment insert_payment
find_payment-insert_ne j row [] h = ground arith
find_payment-insert_ne j row (r ∷ rows) h =
    ground (arith, find_payment-insert_ne j row rows h, eq_iff r.hash j, eq_iff r.hash row.hash)

find_payment-eq :
    (j : String) (rows : List PaymentRow) (r : PaymentRow)
    → find_payment j rows ≡ some r
    → r.hash ≡ j
unfolding find_payment
find_payment-eq j [] r h = cc
find_payment-eq j (x ∷ rows) r h = ground (arith, find_payment-eq j rows r, eq_iff x.hash j)

has-eq-find :
    (j : String) (rows : List PaymentRow) → has_payment j rows ≡ is_some (find_payment j rows)
unfolding find_payment
has-eq-find j rows = any-eq-find (λ r. str_eq r.hash j) rows

-- What a successful `update_personal_note` leaves in the payments.
note_rows : String → Option String → List PaymentRow → List PaymentRow
note_rows hash text rows =
    if has_payment hash rows
    then update_note hash text rows
    else insert_payment (bare_row hash text) (update_note hash text rows)

note_tables :
    (hash : String) (text : Option String) (s : DataStore)
    → (update_personal_note hash text s).0 ≡ ok tt
    → (update_personal_note hash text s).1.tables
      ≡ record s.tables { payments = note_rows hash text s.tables.payments }
unfolding update_personal_note statement note_rows
note_tables hash text s h = ground arith

-- The data of a payment with a text written into it; of a hash that had no payment, the text and
-- the offer that is stored for it.
abbrev pub noted : Option String → Option Offer → Option LocalPaymentData → LocalPaymentData
noted text offer (some d) = record d { personal_note = text }
noted text offer none = record {
  user_preferences = none;
  exchange_rate = none;
  offer = offer;
  personal_note = text;
  received_on = none;
  received_lnurl_comment = none;
}

noted_row : String → Option String → Option PaymentRow → PaymentRow
noted_row hash text none = bare_row hash text
noted_row hash text (some p) = record p { personal_note = text }

-- the row of the hash after the update, by the row before it
noted_row_found :
    (hash : String) (text : Option String) (rows : List PaymentRow) (found : Option PaymentRow)
    → find_payment hash rows ≡ found
    → find_payment hash (note_rows hash text rows) ≡ some (noted_row hash text found)
unfolding note_rows noted_row set_note
noted_row_found hash text rows none h =
    ground (
      arith,
      has-eq-find hash rows,
      stored_payment (bare_row hash text) (update_note hash text rows),
    )
noted_row_found hash text rows (some p) h = ground (
  arith,
  has-eq-find hash rows,
  find_payment-update_note hash hash text rows,
  find_payment-eq hash rows p,
  eq_iff p.hash hash,
)

noted_row_other :
    (hash j : String) (text : Option String) (rows : List PaymentRow) (found : Option PaymentRow)
    → str_eq hash j ≡ false
    → find_payment j rows ≡ found
    → find_payment j (note_rows hash text rows) ≡ found
unfolding note_rows set_note
noted_row_other hash j text rows none ne h = ground (
  arith,
  find_payment-insert_ne j (bare_row hash text) (update_note hash text rows),
  find_payment-update_note hash j text rows,
)
noted_row_other hash j text rows (some p) ne h = ground (
  arith,
  find_payment-insert_ne j (bare_row hash text) (update_note hash text rows),
  find_payment-update_note hash j text rows,
  find_payment-eq j rows p,
  eq_iff p.hash hash,
  eq_iff hash j,
)

select-note_self :
    (hash : String) (text : Option String) (t : Tables)
    → select_payment_info hash (record t { payments = note_rows hash text t.payments })
      ≡ some (noted text (offer_of (find_offer hash t.offers)) (select_payment_info hash t))
unfolding select_payment_info local_payment_data noted_row find_history
select-note_self hash text t = elim (Option-cases (find_payment hash t.payments)) [
  | inl e ↦ ground (arith, noted_row_found hash text t.payments none e)
  | inr (p, e) ↦
      ground (
        arith,
        noted_row_found hash text t.payments (some p) e,
        find_payment-eq hash t.payments p e,
      )
]

select-note_ne :
    (hash j : String) (text : Option String) (t : Tables)
    → str_eq hash j ≡ false
    → select_payment_info j (record t { payments = note_rows hash text t.payments })
      ≡ select_payment_info j t
unfolding select_payment_info local_payment_data noted_row find_history
select-note_ne hash j text t h =
    ground (arith, noted_row_other hash j text t.payments (find_payment j t.payments) h refl)

-- After an `update_personal_note` that succeeds, reading the same hash gives what it gave before
-- with the note written in (a hash with no payment gets one that has only the note and the offer
-- stored for the hash), and reading any other hash gives what it gave before.
pub retrieve-update_personal_note :
    (hash j : String) (text : Option String) (s : DataStore) {r : Option LocalPaymentData}
    → (update_personal_note hash text s).0 ≡ ok tt
    → (retrieve_payment_info j (update_personal_note hash text s).1).0 ≡ ok r
    → r ≡ (
        if str_eq hash j
        then some (
            noted text
              (offer_of (find_offer hash s.tables.offers))
              (select_payment_info hash s.tables))
        else select_payment_info j s.tables)
retrieve-update_personal_note hash j text s h k =
    let read = retrieve-eq-select j (update_personal_note hash text s).1 k in
    let tables = note_tables hash text s h in
    elim (Bool-cases (str_eq hash j)) [
      | inl same ↦
          rw same (cc (read, tables, (eq_iff hash j).0 same, select-note_self hash text s.tables))
      | inr other ↦ rw other (cc (read, tables, select-note_ne hash j text s.tables other))
    ]
