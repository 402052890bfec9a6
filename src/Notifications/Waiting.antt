-- ===== src/Notifications/Waiting.antt =====
-- src/notification_handling.rs: the loops that wait for a payment and for the SDK's sync. A loop
-- runs on fuel, and its outcome is `none` where the fuel is spent.
use lipa_lightning_lib.Prelude.{
  ℕ, zero, suc, String, Bool, true, false, Option, none, some, or_err, runtime_error, Error,
  permanent_failure, if◌then◌else◌, ltb, str_eq,
}
use lipa_lightning_lib.Prelude.Exec.{Exec, pure, fail, lift, ◌>>=◌}
use lipa_lightning_lib.Errors.{NotificationHandlingErrorCode}
use lipa_lightning_lib.Payment.{PaymentStatus}
use lipa_lightning_lib.SdkPayment.{SdkPayment, BreezEvent, Received, event}
use lipa_lightning_lib.Sdk.{Sdk, World, Call, ask}

abbrev pub NotificationError : Type 0
NotificationError = Error NotificationHandlingErrorCode

-- `NotificationHandlingResult`
abbrev pub Handling : Type 0 → Type 0
Handling A = Exec World NotificationError A

abbrev pub unavailable : NotificationError
unavailable = runtime_error NotificationHandlingErrorCode.node_unavailable

unfoldable pub is_complete : PaymentStatus → Bool
is_complete PaymentStatus.complete = true
is_complete PaymentStatus.pending = false
is_complete PaymentStatus.failed = false

unfoldable pub confirmed : Option SdkPayment → Option SdkPayment
confirmed none = none
confirmed (some p) = if is_complete p.status then some p else none

unfoldable pub get_confirmed_payment : Sdk → String → Handling (Option SdkPayment)
unfolding confirmed
get_confirmed_payment sdk payment_hash = do
  answer ← ask (Call.payment_by_hash payment_hash) sdk.answer_payment_by_hash
  payment ← lift (or_err answer unavailable)
  pure (confirmed payment)

-- one turn of `wait_for_synced_event`, where `again` is what comes after it
unfoldable pub synced_or : Received → Handling (Option (Unit {0})) → Handling (Option (Unit {0}))
synced_or (event BreezEvent.synced) again = pure (some tt)
synced_or Received.disconnected again = fail permanent_failure
synced_or r again = again

unfoldable pub wait_for_synced_event : Sdk → ℕ → Handling (Option (Unit {0}))
unfolding synced_or
wait_for_synced_event sdk zero = pure none
wait_for_synced_event sdk (suc fuel) =
    ask Call.recv_event sdk.answer_recv_event >>= λ r. synced_or r (wait_for_synced_event sdk fuel)

unfoldable pub paid_after : Option SdkPayment → Option (Unit {0}) → Option (Option SdkPayment)
paid_after payment none = none
paid_after payment (some _) = some payment

-- the payment of an event, if it is the one that is awaited, and then the sync
unfoldable pub paid_or_none : Sdk → ℕ → String → Received → Handling (Option (Option SdkPayment))
unfolding wait_for_synced_event paid_after
paid_or_none sdk fuel payment_hash (event (BreezEvent.invoice_paid hash payment)) =
    if str_eq hash payment_hash
    then (do synced ← wait_for_synced_event sdk fuel; pure (paid_after payment synced))
    else pure (some none)
paid_or_none sdk fuel payment_hash Received.disconnected = fail permanent_failure
paid_or_none sdk fuel payment_hash r = pure (some none)

unfoldable pub check_for_received_payment : Sdk → ℕ → String → Handling (Option (Option SdkPayment))
unfolding paid_or_none
check_for_received_payment sdk fuel payment_hash =
    ask Call.recv_event sdk.answer_recv_event >>= paid_or_none sdk fuel payment_hash

unfoldable pub received_or :
    Option (Option SdkPayment) → Handling (Option SdkPayment) → Handling (Option SdkPayment)
received_or none again = pure none
received_or (some none) again = again
received_or (some (some p)) again = pure (some p)

unfoldable pub found_or :
    Sdk
    → ℕ
    → String
    → Handling (Option SdkPayment)
    → Option SdkPayment
    → Handling (Option SdkPayment)
unfolding check_for_received_payment received_or
found_or sdk fuel payment_hash again (some p) = pure (some p)
found_or sdk fuel payment_hash again none =
    check_for_received_payment sdk fuel payment_hash >>= λ r. received_or r again

-- the body of the `while`
unfoldable pub wait_turn :
    Sdk → ℕ → String → Handling (Option SdkPayment) → Bool → Handling (Option SdkPayment)
unfolding get_confirmed_payment found_or
wait_turn sdk fuel payment_hash again false =
    fail (runtime_error NotificationHandlingErrorCode.expected_payment_not_received)
wait_turn sdk fuel payment_hash again true =
    get_confirmed_payment sdk payment_hash >>= found_or sdk fuel payment_hash again

-- The two loops have a fuel each: `turns` and `fuel`.
unfoldable pub wait_for_payment : Sdk → ℕ → ℕ → String → ℕ → Handling (Option SdkPayment)
unfolding wait_turn
wait_for_payment sdk fuel zero payment_hash timeout_instant = pure none
wait_for_payment sdk fuel (suc turns) payment_hash timeout_instant =
    ask Call.read_clock sdk.answer_clock >>= λ now.
    wait_turn sdk fuel payment_hash (wait_for_payment sdk fuel turns payment_hash timeout_instant)
      (ltb now timeout_instant)
