-- ===== src/DataStore/Rates.antt =====
-- Exchange rates and created invoices.
use lipa_lightning_lib.Prelude.{
  ℕ, String, ◌≡◌, refl, Option, none, some, List, [], ◌∷◌, ok, arith, eq_iff, str_eq, or_else,
  if◌then◌else◌, find, find-append,
}
use lipa_lightning_lib.Config.{ExchangeRate}
use lipa_lightning_lib.Db.{InvoiceRow, replace_rate}
use lipa_lightning_lib.Db.Connection.{DataStore, statement}
use lipa_lightning_lib.DataStore.{
  CreatedInvoice, update_exchange_rate, get_all_exchange_rates, store_created_invoice,
  created_invoice, retrieve_created_invoice_by_hash,
}

find_rate :
    (c : String) (r : ExchangeRate) (rates : List ExchangeRate)
    → find (λ (x : ExchangeRate). str_eq x.currency_code c) (replace_rate r rates) ≡ (
        if str_eq r.currency_code c
        then some r
        else find (λ (x : ExchangeRate). str_eq x.currency_code c) rates)
unfolding replace_rate
find_rate c r [] = refl
find_rate c r (x ∷ rates) = ground (
  arith,
  find_rate c r rates,
  eq_iff x.currency_code c,
  eq_iff x.currency_code r.currency_code,
  eq_iff r.currency_code c,
)

-- After an `update_exchange_rate` that succeeds, the rates that are read have the given rate for its
-- currency, and for every other currency the rate they had.
get_all-update_exchange_rate :
    (c : String) (r : ExchangeRate) (s : DataStore) {rates : List ExchangeRate}
    → (update_exchange_rate r s).0 ≡ ok tt
    → (get_all_exchange_rates (update_exchange_rate r s).1).0 ≡ ok rates
    → find (λ (x : ExchangeRate). str_eq x.currency_code c) rates ≡ (
        if str_eq r.currency_code c
        then some r
        else find (λ (x : ExchangeRate). str_eq x.currency_code c) s.tables.rates)
unfolding update_exchange_rate get_all_exchange_rates statement
get_all-update_exchange_rate c r s p q = ground (arith, find_rate c r s.tables.rates)

-- After a `store_created_invoice` that succeeds, a hash that had an invoice still has that one, its
-- own hash has the given invoice if it had none, and other hashes have what they had.
retrieve-store_created_invoice :
    (j hash invoice : String) (fees : Option ℕ) (expiry : ℕ) (s : DataStore)
    {before after : Option CreatedInvoice}
    → (retrieve_created_invoice_by_hash j s).0 ≡ ok before
    → (store_created_invoice hash invoice fees expiry s).0 ≡ ok tt
    → (retrieve_created_invoice_by_hash j (store_created_invoice hash invoice fees expiry s).1).0
      ≡ ok after
    → after
      ≡ or_else before (
          if str_eq hash j
          then some (record { hash = hash; invoice = invoice; channel_opening_fees = fees })
          else none)
unfolding retrieve_created_invoice_by_hash store_created_invoice statement created_invoice
retrieve-store_created_invoice j hash invoice fees expiry s p q r = ground (
  arith,
  find-append (λ (x : InvoiceRow). str_eq x.hash j) s.tables.invoices
      (record {
        hash = hash;
        invoice = invoice;
        channel_opening_fees = fees;
        invoice_expiry_timestamp = expiry;
      }
        ∷ []),
)
