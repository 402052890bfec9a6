-- ===== src/DataStore/Invoices/Hashes.antt =====
-- src/data_store.rs: the created invoice that is read by its hash.
use lipa_lightning_lib.Prelude.{
  String, ◌≡◌, ap, sym, ◌∙◌, inl, inr, none, some, List, ok, find, find-holds, str_eq, eq_iff,
  Bool-cases, Option-cases,
}
use lipa_lightning_lib.Db.{InvoiceRow}
use lipa_lightning_lib.Db.Connection.{DataStore, statement}
use lipa_lightning_lib.DataStore.{CreatedInvoice, created_invoice, retrieve_created_invoice_by_hash}

-- the hash of a row that the select finds
found-hash :
    (hash : String) (rows : List InvoiceRow) {c : CreatedInvoice}
    → elim (find (λ (r : InvoiceRow). str_eq r.hash hash) rows) [
      | none ↦ none
      | some r ↦ some (created_invoice r)
    ]
      ≡ some c
    → c.hash ≡ hash
unfolding created_invoice
found-hash hash rows {c = c} h =
    elim (Option-cases (find (λ (r : InvoiceRow). str_eq r.hash hash) rows)) [
      | inl e ↦ (let k = rw e at h in cc)
      | inr (r, e) ↦
          (let k : some (created_invoice r) ≡ some c = rw e at h in
            let same : created_invoice r ≡ c = cc in
            ap (λ (c : CreatedInvoice). c.hash) (sym same)
            ∙ (eq_iff r.hash hash).0 (find-holds (λ (r : InvoiceRow). str_eq r.hash hash) rows e))
    ]

-- The created invoice that the store has for a hash is one with that hash.
pub retrieved-hash :
    (hash : String) (s : DataStore) {c : CreatedInvoice}
    → (retrieve_created_invoice_by_hash hash s).0 ≡ ok (some c)
    → c.hash ≡ hash
unfolding retrieve_created_invoice_by_hash statement
retrieved-hash hash s {c = c} h = elim (Bool-cases (s.fails s.executed)) [
  | inl e ↦ (let k = rw e at h in cc)
  | inr e ↦ (let k = rw e at h in found-hash hash s.tables.invoices {c = c} cc)
]
