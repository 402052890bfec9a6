-- ===== src/Activities/Conversion/Examples.antt =====
-- The activity of a payment that is received.
use lipa_lightning_lib.Amount.{as_sats, sats_to_amount_down}
use lipa_lightning_lib.DataStore.{local_payment_data}
use lipa_lightning_lib.Activities.Lookup.{fees_or_zero}
use lipa_lightning_lib.Activities.Lookup.{invoice_state}
use lipa_lightning_lib.Activities.Lookup.{payment_from_created_invoice}
use lipa_lightning_lib.Db.{migrated}
use lipa_lightning_lib.Activities.Lookup.{created_activity}
use lipa_lightning_lib.Sample.{sample_store}
use lipa_lightning_lib.Activities.Lookup.{paid_or_created}
use lipa_lightning_lib.Sdk.{World}
use lipa_lightning_lib.Activities.{◌∷◌}
use lipa_lightning_lib.Sdk.{ask, Call, on_store}
use lipa_lightning_lib.Activities.Lookup.{get}
use lipa_lightning_lib.Activities.Lookup.Found.{IsOfItsHash, hash_of-get}
use lipa_lightning_lib.Prelude.{[]}
use lipa_lightning_lib.DataStore.{
  bare_row, CreatedInvoice, retrieve_created_invoice_by_hash, retrieve_payment_info,
  select_payment_info,
}
use lipa_lightning_lib.Db.Connection.{statement}
use lipa_lightning_lib.Activities.Conversion.{timezone_of, activity_from_breez_payment}
use lipa_lightning_lib.Config.{with_timezone}
use lipa_lightning_lib.Payment.{
  from_ln_invoice, payment_state_of, LnInvoice, PaymentStatus, PaymentState,
}
use lipa_lightning_lib.Support.{get_exchange_rate, Support}
use lipa_lightning_lib.Amount.{to_amount_down, to_amount_up, Amount}
use lipa_lightning_lib.Payment.Conversion.{incoming_payment_info_of, Parsers}
use lipa_lightning_lib.Db.{find_payment}
use lipa_lightning_lib.Prelude.{ℕ, List, sym, ap, pos, ◌≡◌, refl, none, some, ok}
use lipa_lightning_lib.SdkPayment.{SdkPayment, LnPaymentDetails, received, ln}
use lipa_lightning_lib.Sample.{sample_sdk, sample_support, sample_world}
use lipa_lightning_lib.Activity.{Activity, incoming_payment}
use lipa_lightning_lib.Activities.{hash_of}
use lipa_lightning_lib.Activities.Conversion.Hashes.{hash_of-activity_from_breez_payment}

abbrev sample_invoice : LnInvoice
sample_invoice = record {
  bolt11 = "lnbc";
  payee_pubkey = "node";
  payment_hash = "hash";
  description = some "coffee";
  amount_msat = some 7000;
  timestamp = 3;
  expiry = 3600;
}

abbrev sample_parsers : Parsers
sample_parsers = record { parse_invoice = λ _. some sample_invoice; items_of = λ _. none }

abbrev sample_details : LnPaymentDetails
sample_details = record {
  payment_hash = "hash";
  payment_preimage = "";
  bolt11 = "lnbc";
  lnurl_metadata = none;
  ln_address = none;
  lnurl_pay_domain = none;
  lnurl_pay_comment = none;
  swap_info = none;
  reverse_swap_info = none;
}

abbrev sample_paid : SdkPayment
sample_paid = record {
  id = "hash";
  payment_type = received;
  payment_time = 5;
  amount_msat = 7000;
  fee_msat = 0;
  status = PaymentStatus.complete;
  details = ln sample_details;
}

abbrev in_euro : ℕ → Amount
in_euro sats = record {
  sats = sats;
  fiat = some (record { minor_units = 0; currency_code = "EUR"; rate = 4123; converted_at = 5 });
}

abbrev received_activity : Activity
received_activity = incoming_payment (record {
  payment_info = record {
    payment_state = PaymentState.succeeded;
    hash = "hash";
    amount = in_euro 7;
    invoice_details = record {
      invoice = "lnbc";
      amount = some (in_euro 7);
      description = "coffee";
      payment_hash = "hash";
      payee_pub_key = "node";
      creation_timestamp = 3;
      expiry_interval = 3600;
      expiry_timestamp = 3603;
    };
    created_at = record { time = 3; timezone_id = "Bern"; timezone_utc_offset_secs = pos 3600 };
    description = "coffee";
    preimage = none;
    personal_note = none;
  };
  requested_amount = in_euro 7;
  lsp_fees = in_euro 0;
  received_on = none;
  received_lnurl_comment = none;
})

received_activity_eq :
    (activity_from_breez_payment sample_parsers sample_support sample_paid sample_world).0
    ≡ ok received_activity
unfolding activity_from_breez_payment on_store retrieve_payment_info statement select_payment_info
    find_payment incoming_payment_info_of to_amount_up get_exchange_rate to_amount_down
    from_ln_invoice payment_state_of with_timezone timezone_of
received_activity_eq = refl

hash_of-activity_from_breez_payment_example : hash_of received_activity ≡ some "hash"
hash_of-activity_from_breez_payment_example =
    hash_of-activity_from_breez_payment sample_parsers sample_paid sample_details refl
      sample_support sample_world received_activity_eq

-- a node with an SDK that knows the payment from its second call on
abbrev paid_support : Support
paid_support = record sample_support {
  sdk = record sample_sdk {
    answer_payment_by_hash =
        λ calls. elim calls [ _ ∷ _ ∷ _ ↦ some (some sample_paid) | _ ↦ some none ];
  };
}

paid_answered :
    (calls : List Call) (p : SdkPayment)
    → paid_support.sdk.answer_payment_by_hash calls ≡ some (some p)
    → (d : LnPaymentDetails) × (p.details ≡ ln d) × (d.payment_hash ≡ "hash")
paid_answered [] p e = cc
paid_answered (c ∷ []) p e = cc
paid_answered (c ∷ d ∷ calls) p e =
    let same : sample_paid ≡ p = cc in
    (sample_details, sym (ap (λ (p : SdkPayment). p.details) same), refl)

-- a store with a created invoice
abbrev invoiced_world : World
invoiced_world = record sample_world {
  store = record sample_store {
    tables = record migrated {
      payments = bare_row "hash" (some "lunch") ∷ [];
      invoices =
          record {
            hash = "other";
            invoice = "lntb";
            channel_opening_fees = none;
            invoice_expiry_timestamp = 3;
          }
          ∷ record {
            hash = "hash";
            invoice = "lnbc";
            channel_opening_fees = some 2000;
            invoice_expiry_timestamp = 3603;
          }
          ∷ [];
    };
  };
}

stored_IsOfItsHash :
    (c : CreatedInvoice)
    → (retrieve_created_invoice_by_hash "hash" invoiced_world.store).0 ≡ ok (some c)
    → IsOfItsHash sample_parsers paid_support 9 c
unfolding retrieve_created_invoice_by_hash statement
stored_IsOfItsHash c e i parsed = cc

abbrev in_sats : ℕ → Amount
in_sats sats = record { sats = sats; fiat = none }

abbrev created_activity_of_hash : Activity
created_activity_of_hash = incoming_payment (record {
  payment_info = record {
    payment_state = PaymentState.created;
    hash = "hash";
    amount = in_sats 5;
    invoice_details = record {
      invoice = "lnbc";
      amount = some (in_sats 7);
      description = "coffee";
      payment_hash = "hash";
      payee_pub_key = "node";
      creation_timestamp = 3;
      expiry_interval = 3600;
      expiry_timestamp = 3603;
    };
    created_at = record { time = 3; timezone_id = "Bern"; timezone_utc_offset_secs = pos 3600 };
    description = "coffee";
    preimage = none;
    personal_note = some "lunch";
  };
  requested_amount = in_sats 7;
  lsp_fees = in_sats 2;
  received_on = none;
  received_lnurl_comment = none;
})

got_activity_eq :
    (get sample_parsers paid_support 9 "hash" invoiced_world).0 ≡ ok created_activity_of_hash
unfolding get paid_or_created created_activity payment_from_created_invoice invoice_state
    fees_or_zero retrieve_created_invoice_by_hash ask on_store retrieve_payment_info statement
    select_payment_info find_payment to_amount_up get_exchange_rate to_amount_down from_ln_invoice
    with_timezone timezone_of local_payment_data sats_to_amount_down as_sats
got_activity_eq = refl

hash_of-get_example : hash_of created_activity_of_hash ≡ some "hash"
hash_of-get_example =
    hash_of-get sample_parsers paid_support 9 "hash" paid_answered invoiced_world stored_IsOfItsHash
      got_activity_eq
