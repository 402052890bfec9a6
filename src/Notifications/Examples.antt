-- ===== src/Notifications/Examples.antt =====
-- The theorems on notifications at a concrete node.
use lipa_lightning_lib.SdkPayment.{BreezEvent}
use lipa_lightning_lib.Prelude.{Bool, inr}
use lipa_lightning_lib.SdkPayment.{event}
use lipa_lightning_lib.Sdk.{Call}
use lipa_lightning_lib.Prelude.{List, if◌then◌else◌}
use lipa_lightning_lib.Notifications.Waiting.{is_complete, wait_for_payment}
use lipa_lightning_lib.Sdk.{ask, Sdk}
use lipa_lightning_lib.Prelude.{
  true, false, Bool, List, inr, if◌then◌else◌, pos, ◌≡◌, ◌≢◌, refl, inl, none, some, [], ◌∷◌, ok,
  arith,
}
use lipa_lightning_lib.Payment.{PaymentStatus}
use lipa_lightning_lib.SdkPayment.{SdkPayment, BreezEvent, Received, event, received, ln}
use lipa_lightning_lib.Sample.{sample_sdk, sample_services, sample_world}
use lipa_lightning_lib.Notifications.Payments.{IsReceipt, awaited_payment_is_confirmed}
use lipa_lightning_lib.Notifications.Ending.{IsOverAfter, SyncsWithin, wait_for_payment_returns}
use lipa_lightning_lib.Notifications.LnurlPay.{Node, LnurlPayRequestData}

abbrev sample_node : Node
sample_node = record {
  sdk = sample_sdk;
  services = sample_services;
  webhook = record {
    notification_webhook_secret_hex = "00";
    notification_webhook_base_url = "https://lipa.swiss/{id}";
    key_of = λ key. some key;
    encrypted_id = λ id key. some id;
  };
  seed = [];
  timezone_config = record { timezone_id = "Bern"; timezone_utc_offset_secs = pos 3600 };
  opened = ok tt;
}

abbrev sample_request : LnurlPayRequestData
sample_request = record {
  amount_msat = 5000;
  recipient = "satoshi@lipa.swiss";
  payer_comment = none;
  id = "request";
}

abbrev sample_received : SdkPayment
sample_received = record {
  id = "hash";
  payment_type = received;
  payment_time = 5;
  amount_msat = 7000;
  fee_msat = 0;
  status = PaymentStatus.complete;
  details = ln (record {
    payment_hash = "hash";
    payment_preimage = "";
    bolt11 = "lnbc";
    lnurl_metadata = none;
    ln_address = none;
    lnurl_pay_domain = none;
    lnurl_pay_comment = none;
    swap_info = none;
    reverse_swap_info = none;
  });
}

-- an SDK that has received the payment at its third call
abbrev paying_sdk : Sdk
paying_sdk = record sample_sdk {
  answer_payment_by_hash =
      λ calls. elim calls [ _ ∷ _ ∷ _ ∷ _ ↦ some (some sample_received) | _ ↦ some none ];
}

received_lem :
    (wait_for_payment paying_sdk 9 9 "hash" 100 sample_world).0 ≡ ok (some sample_received)
unfolding wait_for_payment ask is_complete
received_lem = refl

awaited_payment_is_confirmed_example : IsReceipt paying_sdk "hash" sample_received
awaited_payment_is_confirmed_example =
    awaited_payment_is_confirmed paying_sdk 9 "hash" 9 100 sample_world received_lem

-- an SDK that syncs at every third call, and times out at the others
abbrev syncs_at : List Call → Bool
syncs_at [] = true
syncs_at (a ∷ []) = false
syncs_at (a ∷ b ∷ []) = false
syncs_at (a ∷ b ∷ c ∷ calls) = syncs_at calls

abbrev slow_sdk : Sdk
slow_sdk = record sample_sdk {
  answer_recv_event = λ calls. if syncs_at calls then event BreezEvent.synced else Received.timeout;
}

over_lem : IsOverAfter slow_sdk 10 10
over_lem calls h = h

slow_SyncsWithin : (calls : List Call) → SyncsWithin slow_sdk 3 calls
slow_SyncsWithin [] = inr (inr (inl (inl refl)))
slow_SyncsWithin (a ∷ []) = inr (inl (inl refl))
slow_SyncsWithin (a ∷ b ∷ []) = inl (inl refl)
slow_SyncsWithin (a ∷ b ∷ c ∷ calls) = slow_SyncsWithin calls

wait_for_payment_returns_example :
    (wait_for_payment slow_sdk 3 11 "hash" 10 sample_world).0 ≢ ok none
wait_for_payment_returns_example =
    wait_for_payment_returns slow_sdk 10 10 over_lem 3 "hash" slow_SyncsWithin 11 sample_world
      (omega arith)
