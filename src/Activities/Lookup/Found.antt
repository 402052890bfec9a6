-- ===== src/Activities/Lookup/Found.antt =====
-- src/activities.rs: the activity that `get` gives back for a hash.
use lipa_lightning_lib.Prelude.{
  ℕ, String, ◌≡◌, refl, ap, ◌∙◌, Option, none, some, List, ◌∷◌, ok, arith, or_err-ok, or_err,
  or_panic,
}
use lipa_lightning_lib.Prelude.Exec.{lift, >>=-ok, ◌>>=◌}
use lipa_lightning_lib.Config.{ExchangeRate}
use lipa_lightning_lib.Errors.{LibError}
use lipa_lightning_lib.Payment.{
  LnInvoice, InvoiceDetails, from_ln_invoice, details_with, IncomingPaymentInfo,
}
use lipa_lightning_lib.Payment.Conversion.{Parsers}
use lipa_lightning_lib.Activity.{Activity, get_payment_info}
use lipa_lightning_lib.Activities.{hash_of}
use lipa_lightning_lib.Support.Gives.{Gives, Gives-pure, Gives-bind, Gives-any, ok-inj}
use lipa_lightning_lib.Activities.Conversion.Hashes.{some-hash, hash_of-activity_from_breez_payment}
use lipa_lightning_lib.Activities.Lookup.{
  payment_from_created_invoice, created_activity, paid_or_created, get,
}
use lipa_lightning_lib.SdkPayment.{SdkPayment, ln, LnPaymentDetails}
use lipa_lightning_lib.DataStore.Invoices.Hashes.{retrieved-hash}
use lipa_lightning_lib.DataStore.{CreatedInvoice, retrieve_created_invoice_by_hash}
use lipa_lightning_lib.Sdk.{World, Call, ask, on_store}
use lipa_lightning_lib.Support.{Support, Lib, node_unavailable}

module _ (parsers : Parsers) (sup : Support) (now : ℕ) where
  -- The invoice of a created invoice is one of its hash.
  abbrev pub IsOfItsHash : CreatedInvoice → Type 0
  IsOfItsHash c =
      (i : LnInvoice) → parsers.parse_invoice c.invoice ≡ some i → i.payment_hash ≡ c.hash

  module _ (c : CreatedInvoice) (own : IsOfItsHash c) where
    parsed-Gives :
        (e : LibError)
        → Gives
            (λ (i : LnInvoice). i.payment_hash ≡ c.hash)
            (lift (or_err (parsers.parse_invoice c.invoice) e))
    parsed-Gives e = record { at = λ w h. own _ (or_err-ok (parsers.parse_invoice c.invoice) e h) }

    details-Gives :
        (i : LnInvoice) (rate : Option ExchangeRate)
        → i.payment_hash ≡ c.hash
        → Gives
            (λ (d : InvoiceDetails). d.payment_hash ≡ c.hash)
            (lift (or_panic (from_ln_invoice i rate)))
    unfolding from_ln_invoice details_with
    details-Gives i rate h = record { at = λ w e. ground arith }

    details-bind :
        {B : Type 0} {Q : B → Type 0} (i : LnInvoice) (rate : Option ExchangeRate)
        (f : InvoiceDetails → Lib B)
        → i.payment_hash ≡ c.hash
        → ((d : InvoiceDetails) → d.payment_hash ≡ c.hash → Gives Q (f d))
        → Gives Q (lift (or_panic (from_ln_invoice i rate)) >>= f)
    details-bind i rate f h hf =
        Gives-bind (lift (or_panic (from_ln_invoice i rate))) f (details-Gives i rate h) hf

    created-Gives :
        Gives
          (λ (i : IncomingPaymentInfo). i.payment_info.hash ≡ c.hash)
          (payment_from_created_invoice parsers sup now c)
    unfolding payment_from_created_invoice
    created-Gives =
        Gives-bind _ _ (parsed-Gives _)
          (λ i h. search (details-bind, Gives-any, Gives-pure) depth 24)

    activity-Gives :
        Gives (λ a. hash_of a ≡ some c.hash) (created_activity parsers sup now (some c))
    unfolding created_activity hash_of get_payment_info
    activity-Gives = Gives-bind _ _ created-Gives (λ i h. Gives-pure _ _ (some-hash h))

  module _ (hash : String)
      (answered : (calls : List Call) (p : SdkPayment)
        → sup.sdk.answer_payment_by_hash calls ≡ some (some p)
        → (d : LnPaymentDetails) × (p.details ≡ ln d) × (d.payment_hash ≡ hash)) where
    -- what the store has for the hash
    Owned : World → Type 0
    Owned w =
        (c : CreatedInvoice)
        → (retrieve_created_invoice_by_hash hash w.store).0 ≡ ok (some c)
        → IsOfItsHash c

    created-hash :
        (found : Option CreatedInvoice) (w : World) {a : Activity}
        → ((c : CreatedInvoice) → found ≡ some c → (c.hash ≡ hash) × IsOfItsHash c)
        → (created_activity parsers sup now found w).0 ≡ ok a
        → hash_of a ≡ some hash
    unfolding created_activity
    created-hash none w own h = cc
    created-hash (some c) w own h =
        let (same, own_hash) = own c refl in (activity-Gives c own_hash).at w h ∙ some-hash same

    paid-hash :
        (calls : List Call) (payment : Option SdkPayment) (w : World) {a : Activity}
        → Owned w
        → sup.sdk.answer_payment_by_hash calls ≡ some payment
        → (paid_or_created parsers sup now hash payment w).0 ≡ ok a
        → hash_of a ≡ some hash
    unfolding paid_or_created Owned on_store
    paid-hash calls (some p) w own e h =
        let (d, is_ln, same) = answered calls p e in
        hash_of-activity_from_breez_payment parsers p d is_ln sup w h ∙ some-hash same
    paid-hash calls none w own e h =
        let (found, read, rest, _) =
          >>=-ok (on_store (retrieve_created_invoice_by_hash hash))
            (created_activity parsers sup now) w h in
        created-hash found _
          (λ c same. (retrieved-hash hash w.store (read ∙ ap ok same), own c (read ∙ ap ok same)))
          rest

    -- `get` gives back an activity of the hash that it is asked for, paid or created, where the SDK
    -- answers only Lightning payments of that hash, and the invoice that the store has with the hash
    -- of a created invoice, if it parses, is one of that hash.
    pub hash_of-get :
        (w : World)
        → ((c : CreatedInvoice)
            → (retrieve_created_invoice_by_hash hash w.store).0 ≡ ok (some c)
            → IsOfItsHash c)
        → {a : Activity} → (get parsers sup now hash w).0 ≡ ok a
        → hash_of a ≡ some hash
    unfolding get Owned ask
    hash_of-get w own h =
        let asked_world : World = record w { calls = Call.payment_by_hash hash ∷ w.calls } in
        let (answer, asked, rest, _) =
          >>=-ok (ask (Call.payment_by_hash hash) sup.sdk.answer_payment_by_hash)
            (λ answer.
              lift (or_err answer node_unavailable) >>= paid_or_created parsers sup now hash)
            w h in
        let (payment, e, last, _) =
          >>=-ok (lift (or_err answer node_unavailable)) (paid_or_created parsers sup now hash)
            asked_world rest in
        paid-hash (Call.payment_by_hash hash ∷ w.calls) payment asked_world own
          (ok-inj asked ∙ or_err-ok answer node_unavailable e) last
