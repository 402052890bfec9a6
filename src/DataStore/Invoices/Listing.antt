-- ===== src/DataStore/Invoices/Listing.antt =====
-- The invoices that retrieve_created_invoices of src/data_store.rs gives back.
use lipa_lightning_lib.Prelude.{
  ℕ, ◌≤◌, String, true, false, not, ◌≡◌, refl, Option, none, some, List, [], ◌∷◌, ◌++◌, ok, arith,
  eq_iff, filter, map, any,
}
use lipa_lightning_lib.Db.{InvoiceRow}
use lipa_lightning_lib.Db.Connection.{DataStore, statement}
use lipa_lightning_lib.DataStore.{CreatedInvoice, created_invoice, store_created_invoice}
use lipa_lightning_lib.DataStore.Invoices.{
  same_fees, same_invoice, distinct, unexpired, latest_expired, select_created_invoices,
  retrieve_created_invoices,
}

same_fees_trans :
    (a b c : Option ℕ) → same_fees b c ≡ true → same_fees a c ≡ true → same_fees b a ≡ true
unfolding same_fees
same_fees_trans none none none p q = refl
same_fees_trans none none (some z) p q = cc
same_fees_trans none (some y) none p q = cc
same_fees_trans none (some y) (some z) p q = cc
same_fees_trans (some x) none none p q = cc
same_fees_trans (some x) none (some z) p q = cc
same_fees_trans (some x) (some y) none p q = cc
same_fees_trans (some x) (some y) (some z) p q = ground arith

-- Two invoices that are both the same as a third are the same.
same_invoice_trans :
    (a b c : CreatedInvoice)
    → same_invoice b c ≡ true
    → same_invoice a c ≡ true
    → same_invoice a b ≡ true
unfolding same_invoice
same_invoice_trans a b c p q = ground (
  arith,
  same_fees_trans b.channel_opening_fees a.channel_opening_fees c.channel_opening_fees,
  eq_iff b.hash c.hash,
  eq_iff a.hash c.hash,
  eq_iff a.hash b.hash,
  eq_iff b.invoice c.invoice,
  eq_iff a.invoice c.invoice,
  eq_iff a.invoice b.invoice,
)

any-filter :
    (c x : CreatedInvoice) (ys : List CreatedInvoice)
    → same_invoice c x ≡ false
    → any (same_invoice c) (filter (λ y. not (same_invoice x y)) ys) ≡ any (same_invoice c) ys
any-filter c x [] h = refl
any-filter c x (y ∷ ys) h = ground (arith, any-filter c x ys h, same_invoice_trans c x y)

any-distinct :
    (c : CreatedInvoice) (xs : List CreatedInvoice)
    → any (same_invoice c) (distinct xs) ≡ any (same_invoice c) xs
unfolding distinct
any-distinct c [] = refl
any-distinct c (x ∷ xs) = ground (arith, any-distinct c xs, any-filter c x (distinct xs))

any-append :
    (c : CreatedInvoice) (xs ys : List InvoiceRow)
    → any (same_invoice c) (map created_invoice xs) ≡ true
    → any (same_invoice c) (map created_invoice (xs ++ ys)) ≡ true
any-append c [] ys h = cc
any-append c (x ∷ xs) ys h = ground (arith, any-append c xs ys)

any-unexpired :
    (c : CreatedInvoice) (now : ℕ) (rows : List InvoiceRow) (r : InvoiceRow)
    → same_invoice c (created_invoice r) ≡ true
    → now ≤ r.invoice_expiry_timestamp
    → any (same_invoice c) (map created_invoice (unexpired now (rows ++ r ∷ []))) ≡ true
unfolding unexpired
any-unexpired c now [] r p q = ground arith
any-unexpired c now (x ∷ rows) r p q = ground (arith, any-unexpired c now rows r p q)

same_invoice_refl : (c : CreatedInvoice) → same_invoice c c ≡ true
unfolding same_invoice same_fees
same_invoice_refl c = elim c.channel_opening_fees [
  | none ↦ ground (arith, eq_iff c.hash c.hash, eq_iff c.invoice c.invoice)
  | some f ↦ ground (arith, eq_iff c.hash c.hash, eq_iff c.invoice c.invoice)
]

-- An invoice that has been stored and has not expired is among the created invoices that are read,
-- however few expired ones are asked for.
pub retrieve_created_invoices-store_created_invoice :
    (hash invoice : String) (fees : Option ℕ) (expiry now n : ℕ) (s : DataStore)
    {rows : List CreatedInvoice}
    → now ≤ expiry
    → (store_created_invoice hash invoice fees expiry s).0 ≡ ok tt
    → (retrieve_created_invoices now n (store_created_invoice hash invoice fees expiry s).1).0
      ≡ ok rows
    → any
        (same_invoice (record { hash = hash; invoice = invoice; channel_opening_fees = fees }))
        rows
      ≡ true
unfolding retrieve_created_invoices store_created_invoice statement select_created_invoices
retrieve_created_invoices-store_created_invoice hash invoice fees expiry now n s {rows} h p q =
    let c : CreatedInvoice = record {
      hash = hash;
      invoice = invoice;
      channel_opening_fees = fees;
    } in
    let r : InvoiceRow = record {
      hash = hash;
      invoice = invoice;
      channel_opening_fees = fees;
      invoice_expiry_timestamp = expiry;
    } in
    let listed =
      any-append c (unexpired now (s.tables.invoices ++ r ∷ []))
        (latest_expired now n (s.tables.invoices ++ r ∷ []))
        (any-unexpired c now s.tables.invoices r (same_invoice_refl c) h) in
    ground (
      arith,
      any-distinct c (
          map created_invoice (
            unexpired now (s.tables.invoices ++ r ∷ [])
            ++ latest_expired now n (s.tables.invoices ++ r ∷ []))),
    )
