-- ===== src/DataStore/Invoices.antt =====
-- src/data_store.rs: retrieve_created_invoices. A UNION gives every row once, and leaves the order of
-- its rows open: here it is that of its two parts.
pub mod Hashes
pub mod Listing
use lipa_lightning_lib.Prelude.{
  ℕ, Bool, true, false, not, ◌&&◌, Option, none, some, List, [], ◌∷◌, ◌++◌, permanent_failure, leb,
  ltb, str_eq, ◌==◌, filter, map, take,
}
use lipa_lightning_lib.Db.{InvoiceRow, Tables}
use lipa_lightning_lib.Db.Connection.{Store, query}
use lipa_lightning_lib.DataStore.{CreatedInvoice, created_invoice}

same_fees : Option ℕ → Option ℕ → Bool
same_fees none none = true
same_fees none (some b) = false
same_fees (some a) none = false
same_fees (some a) (some b) = a == b

unfoldable pub same_invoice : CreatedInvoice → CreatedInvoice → Bool
unfolding same_fees
same_invoice a b =
    str_eq a.hash b.hash
    && str_eq a.invoice b.invoice
    && same_fees a.channel_opening_fees b.channel_opening_fees

-- the rows of a UNION
unfoldable pub distinct : List CreatedInvoice → List CreatedInvoice
unfolding same_invoice
distinct [] = []
distinct (x ∷ xs) = x ∷ filter (λ y. not (same_invoice x y)) (distinct xs)

-- ORDER BY id DESC
unfoldable pub newest_first : List InvoiceRow → List InvoiceRow
newest_first [] = []
newest_first (r ∷ rows) = newest_first rows ++ r ∷ []

unfoldable pub unexpired : ℕ → List InvoiceRow → List InvoiceRow
unexpired now rows = filter (λ (r : InvoiceRow). leb now r.invoice_expiry_timestamp) rows

unfoldable pub latest_expired : ℕ → ℕ → List InvoiceRow → List InvoiceRow
unfolding newest_first
latest_expired now n rows =
    take n (newest_first (filter (λ (r : InvoiceRow). ltb r.invoice_expiry_timestamp now) rows))

-- the SELECT of `retrieve_created_invoices`
unfoldable pub select_created_invoices : ℕ → ℕ → Tables → List CreatedInvoice
unfolding distinct unexpired latest_expired created_invoice
select_created_invoices now n t =
    distinct (map created_invoice (unexpired now t.invoices ++ latest_expired now n t.invoices))

unfoldable pub retrieve_created_invoices : ℕ → ℕ → Store (List CreatedInvoice)
unfolding select_created_invoices
retrieve_created_invoices now number_of_expired_invoices =
    query permanent_failure (select_created_invoices now number_of_expired_invoices)
