-- ===== src/Notifications/Invoices.antt =====
-- src/notification_handling.rs: which invoices are given to payers.
use lipa_lightning_lib.Prelude.{
  ℕ, String, false, ◌≡◌, Option, none, some, ok, str_eq, find, List, ◌∷◌,
}
use lipa_lightning_lib.Prelude.Exec.{map_err_of, ◌>>=◌, ◌>>◌}
use lipa_lightning_lib.Errors.{to_notification_error}
use lipa_lightning_lib.Db.Connection.{DataStore}
use lipa_lightning_lib.DataStore.Addresses.{EnableStatus, enabled, retrieve_lightning_addresses}
use lipa_lightning_lib.Sdk.{World, Call, ReceivePaymentResponse, on_store}
use lipa_lightning_lib.Notifications.Waiting.{Handling}
use lipa_lightning_lib.Notifications.LnurlPay.{
  Node, LnurlPayRequestData, Notification, strong_type_seed, open_data_store, ensure_enabled,
  reject_if, needs_channel, create_and_submit,
}

-- An invoice that the SDK made for the amount asked for, without a fee for a new channel.
abbrev pub IsFreeInvoice : Node → LnurlPayRequestData → Call → Type 0
IsFreeInvoice node d c =
    (calls : List Call) × (response : ReceivePaymentResponse) × (node.sdk.answer_receive_payment
        (Call.receive_payment d.amount_msat "" none ∷ calls)
      ≡ some response)
    × (response.opening_fee_msat ≡ none)
    × (c ≡ Call.submit_lnurl_pay_invoice d.id (some response.ln_invoice.bolt11))

abbrev pub IsEnabledRecipient : LnurlPayRequestData → DataStore → Type 0
IsEnabledRecipient d s =
    (addresses : List (String × EnableStatus)) × (a : String) × ((retrieve_lightning_addresses s).0
      ≡ ok addresses)
    × (find (λ p. str_eq d.recipient p.0) addresses ≡ some (a, enabled))

-- No new channel is needed for the amount.
abbrev pub NeedsNoChannel : Node → LnurlPayRequestData → World → Type 0
NeedsNoChannel node d w =
    (fee_msat : Option ℕ) × (node.sdk.answer_open_channel_fee
        (Call.open_channel_fee d.amount_msat ∷ w.calls)
      ≡ some fee_msat)
    × (needs_channel fee_msat ≡ false)

module _ (node : Node) (now : ℕ) (d : LnurlPayRequestData) where
  -- what is done once the fee and the addresses are known
  abbrev answered : Option ℕ → List (String × EnableStatus) → Handling Notification
  answered fee_msat addresses = do
    ensure_enabled (find (λ p. str_eq d.recipient p.0) addresses)
    strong_type_seed node
    reject_if node d.id (needs_channel fee_msat)
    create_and_submit node now d

  -- what is done once the fee is known
  abbrev known : Option ℕ → Handling Notification
  known fee_msat =
      open_data_store node
      >> (map_err_of to_notification_error (on_store retrieve_lightning_addresses)
          >>= answered fee_msat)
