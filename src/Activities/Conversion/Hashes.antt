-- ===== src/Activities/Conversion/Hashes.antt =====
-- src/activities.rs: the hash by which an activity is found, and by which the list leaves out created
-- invoices that have been paid.
use lipa_lightning_lib.Support.Gives.{Gives, Gives-pure, Gives-bind, Gives-any}
use lipa_lightning_lib.Prelude.{String, ◌≡◌, sym, ap, ◌∙◌, Option, none, some, ok}
use lipa_lightning_lib.Prelude.Exec.{lift, ◌>>=◌}
use lipa_lightning_lib.Config.{ExchangeRate, TzConfig}
use lipa_lightning_lib.Offer.{Offer}
use lipa_lightning_lib.Payment.{PaymentInfo, IncomingPaymentInfo, OutgoingPaymentInfo}
use lipa_lightning_lib.Payment.Conversion.{
  Parsers, ln_details, payment_info_of, incoming_payment_info_of, outgoing_payment_info_of,
}
use lipa_lightning_lib.Activity.{Activity, get_payment_info}
use lipa_lightning_lib.Activities.{hash_of}
use lipa_lightning_lib.DataStore.{LocalPaymentData}
use lipa_lightning_lib.SdkPayment.{
  SdkPayment, PaymentType, sent, received, closed_channel, ln, LnPaymentDetails, PaymentSwapInfo,
  PaymentReverseSwapInfo,
}
use lipa_lightning_lib.Sdk.{World}
use lipa_lightning_lib.Support.{Support, Lib}
use lipa_lightning_lib.Activities.Conversion.{
  claim_activity, swap_activity, reverse_swap_activity, plain_activity, ln_activity,
  activity_from_breez_ln_payment, activity_of_details, activity_from_breez_payment,
}

pub some-hash : {a b : String} → a ≡ b → some a ≡ some b
some-hash h = ap some h

module _ (parsers : Parsers) (p : SdkPayment) (d : LnPaymentDetails)
    (is_ln : p.details ≡ ln d) where
  details-Gives : Gives (λ (x : LnPaymentDetails). x ≡ d) (lift (ln_details p.details))
  unfolding ln_details
  details-Gives = record { at = λ w e. let k = rw is_ln at e in cc }

  details-bind :
      {B : Type 0} {Q : B → Type 0} (f : LnPaymentDetails → Lib B)
      → ((x : LnPaymentDetails) → x ≡ d → Gives Q (f x))
      → Gives Q (lift (ln_details p.details) >>= f)
  details-bind f hf = Gives-bind (lift (ln_details p.details)) f details-Gives hf

  info-Gives :
      (rate : Option ExchangeRate) (tz : TzConfig) (note_ : Option String)
      → Gives
          (λ (i : PaymentInfo). i.hash ≡ d.payment_hash)
          (payment_info_of parsers p rate tz note_)
  unfolding payment_info_of
  info-Gives rate tz note_ = details-bind _ λ x same.
      let e : x.payment_hash ≡ d.payment_hash =
        ap (λ (x : LnPaymentDetails). x.payment_hash) same in
      search (Gives-any, Gives-pure) depth 24

  info-bind :
      {B : Type 0} {Q : B → Type 0} (rate : Option ExchangeRate) (tz : TzConfig)
      (note_ : Option String) (f : PaymentInfo → Lib B)
      → ((i : PaymentInfo) → i.hash ≡ d.payment_hash → Gives Q (f i))
      → Gives Q (payment_info_of parsers p rate tz note_ >>= f)
  info-bind rate tz note_ f hf = Gives-bind _ f (info-Gives rate tz note_) hf

  incoming-Gives :
      (rate : Option ExchangeRate) (tz : TzConfig) (note_ on comment : Option String)
      (domain : String)
      → Gives
          (λ (i : IncomingPaymentInfo). i.payment_info.hash ≡ d.payment_hash)
          (incoming_payment_info_of parsers p rate tz note_ on comment domain)
  unfolding incoming_payment_info_of
  incoming-Gives rate tz note_ on comment domain =
      search (info-bind, Gives-any, Gives-pure) depth 24

  outgoing-Gives :
      (rate : Option ExchangeRate) (tz : TzConfig) (note_ : Option String) (domain : String)
      → Gives
          (λ (o : OutgoingPaymentInfo). o.payment_info.hash ≡ d.payment_hash)
          (outgoing_payment_info_of parsers p rate tz note_ domain)
  unfolding outgoing_payment_info_of
  outgoing-Gives rate tz note_ domain = search (info-bind, Gives-any, Gives-pure) depth 24

  incoming-bind :
      {B : Type 0} {Q : B → Type 0} (rate : Option ExchangeRate) (tz : TzConfig)
      (note_ on comment : Option String) (domain : String) (f : IncomingPaymentInfo → Lib B)
      → ((i : IncomingPaymentInfo) → i.payment_info.hash ≡ d.payment_hash → Gives Q (f i))
      → Gives Q (incoming_payment_info_of parsers p rate tz note_ on comment domain >>= f)
  incoming-bind rate tz note_ on comment domain f hf =
      Gives-bind _ f (incoming-Gives rate tz note_ on comment domain) hf

  outgoing-bind :
      {B : Type 0} {Q : B → Type 0} (rate : Option ExchangeRate) (tz : TzConfig)
      (note_ : Option String) (domain : String) (f : OutgoingPaymentInfo → Lib B)
      → ((i : OutgoingPaymentInfo) → i.payment_info.hash ≡ d.payment_hash → Gives Q (f i))
      → Gives Q (outgoing_payment_info_of parsers p rate tz note_ domain >>= f)
  outgoing-bind rate tz note_ domain f hf = Gives-bind _ f (outgoing-Gives rate tz note_ domain) hf

  ruleset hash_rules = (incoming-bind, outgoing-bind, Gives-any, Gives-pure, some-hash)

  -- the activity is found by the hash of the payment
  abbrev Hashed : Lib Activity → Type 0
  Hashed m = Gives (λ a. hash_of a ≡ some d.payment_hash) m

  plain-Gives :
      (sup : Support) (l : LocalPaymentData) (type : PaymentType)
      → Hashed (plain_activity parsers sup p l type)
  unfolding plain_activity hash_of get_payment_info
  plain-Gives sup l received = search hash_rules depth 24
  plain-Gives sup l sent = search hash_rules depth 24
  plain-Gives sup l closed_channel = record { at = λ w e. cc }

  ln-Gives :
      (sup : Support) (l : LocalPaymentData) (offer : Option Offer) (s : Option PaymentSwapInfo)
      (r : Option PaymentReverseSwapInfo)
      → Hashed (ln_activity parsers sup p l offer s r)
  unfolding ln_activity claim_activity swap_activity reverse_swap_activity hash_of get_payment_info
  ln-Gives sup l (some offer) s r = search hash_rules depth 24
  ln-Gives sup l none (some s) r = search hash_rules depth 24
  ln-Gives sup l none none (some r) = search hash_rules depth 24
  ln-Gives sup l none none none = plain-Gives sup l p.payment_type

  -- Whatever the store and the services hold, the activity of a Lightning payment has the hash of
  -- the payment: as a claim of an offer, a swap, a reverse swap, and a payment received or sent.
  pub hash_of-activity_from_breez_payment :
      (sup : Support) (w : World) {a : Activity}
      → (activity_from_breez_payment parsers sup p w).0 ≡ ok a
      → hash_of a ≡ some d.payment_hash
  unfolding activity_from_breez_payment activity_of_details activity_from_breez_ln_payment
  hash_of-activity_from_breez_payment sup w {a} h =
      let given : Hashed (activity_of_details parsers sup p (ln d)) =
        search (Gives-any, ln-Gives) depth 24 in
      given.at w (ap (λ x. (activity_of_details parsers sup p x w).0) (sym is_ln) ∙ h)
