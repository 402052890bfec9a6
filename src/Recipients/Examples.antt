-- ===== src/Recipients/Examples.antt =====
-- The recipients of three payments to two addresses.
use lipa_lightning_lib.Prelude.{strip_prefix_char}
use lipa_lightning_lib.PhoneNumber.{lightning_address_to_phone_number}
use lipa_lightning_lib.Sdk.{ask}
use lipa_lightning_lib.Payment.{PaymentStatus}
use lipa_lightning_lib.Prelude.{
  ℕ, String, true, ◌≡◌, refl, none, some, List, [], ◌∷◌, ok, map, filter_map,
}
use lipa_lightning_lib.Payment.{Recipient, lightning_address}
use lipa_lightning_lib.Payment.Conversion.{from_lightning_address}
use lipa_lightning_lib.SdkPayment.{SdkPayment, sent, ln}
use lipa_lightning_lib.Sdk.{Call}
use lipa_lightning_lib.Support.{Support}
use lipa_lightning_lib.Sample.{sample_support, sample_world, sample_sdk}
use lipa_lightning_lib.Recipients.{Usage, usage_of, list_recipients}
use lipa_lightning_lib.Recipients.Recent.{IsRecency, recipients_are_recent}

abbrev paid : String → ℕ → SdkPayment
paid address time = record {
  id = "id";
  payment_type = sent;
  payment_time = time;
  amount_msat = 1000;
  fee_msat = 0;
  status = PaymentStatus.complete;
  details = ln (record {
    payment_hash = "hash";
    payment_preimage = "";
    bolt11 = "lnbc";
    lnurl_metadata = none;
    ln_address = some address;
    lnurl_pay_domain = none;
    lnurl_pay_comment = none;
    swap_info = none;
    reverse_swap_info = none;
  });
}

abbrev three : List SdkPayment
three = paid "a@x.org" 5 ∷ paid "b@x.org" 7 ∷ paid "a@x.org" 9 ∷ []

abbrev paying : Support
paying = record sample_support {
  sdk = record sample_sdk { answer_list_payments = λ _. some three };
}

abbrev listed : List Recipient
listed = lightning_address "a@x.org" ∷ lightning_address "b@x.org" ∷ []

listed_lem : (list_recipients paying sample_world).0 ≡ ok listed
unfolding list_recipients ask from_lightning_address lightning_address_to_phone_number
    strip_prefix_char
listed_lem = refl

recipients_are_recent_example :
    (payments : List SdkPayment) × (us : List Usage) × (paying.sdk.answer_list_payments
        (Call.list_payments (sent ∷ []) true none ∷ sample_world.calls)
      ≡ some payments)
    × (listed
        ≡ map (λ (u : Usage). from_lightning_address u.address paying.lipa_lightning_domain) us)
    × IsRecency us (filter_map usage_of payments)
recipients_are_recent_example = recipients_are_recent paying sample_world listed_lem
