-- ===== src/Notifications/Payments.antt =====
-- src/notification_handling.rs: which payment is taken for the one that is awaited, and when the
-- wait ends.
use lipa_lightning_lib.Prelude.{
  ℕ, zero, suc, String, Bool, true, false, ◌≡◌, ◌⊎◌, inl, inr, refl, sym, ap, ◌∙◌, Option, none,
  some, List, ◌∷◌, ok, or_err, or_err-ok, str_eq, eq_iff, Bool-cases,
}
use lipa_lightning_lib.Prelude.Exec.{pure, lift, >>=-ok}
use lipa_lightning_lib.Payment.{PaymentStatus}
use lipa_lightning_lib.SdkPayment.{SdkPayment, BreezEvent, invoice_paid, Received, event}
use lipa_lightning_lib.Sdk.{Sdk, World, Call, ask}
use lipa_lightning_lib.Notifications.Waiting.{
  Handling, unavailable, is_complete, confirmed, get_confirmed_payment, wait_for_synced_event,
  paid_or_none, check_for_received_payment, received_or, found_or, wait_turn, wait_for_payment,
  paid_after,
}

-- The SDK answered, for the hash, this payment, which is complete; or it told that the invoice of the hash
-- was paid, with this payment. The code does not look at the status of the latter.
abbrev pub IsReceipt : Sdk → String → SdkPayment → Type 0
IsReceipt sdk hash p =
    (calls : List Call) × (((sdk.answer_payment_by_hash (Call.payment_by_hash hash ∷ calls)
          ≡ some (some p))
        × (p.status ≡ PaymentStatus.complete))
      ⊎ (sdk.answer_recv_event (Call.recv_event ∷ calls) ≡ event (invoice_paid hash (some p))))

is_complete-status : (s : PaymentStatus) → is_complete s ≡ true → s ≡ PaymentStatus.complete
unfolding is_complete
is_complete-status PaymentStatus.complete h = refl
is_complete-status PaymentStatus.pending h = cc
is_complete-status PaymentStatus.failed h = cc

confirmed-some :
    (o : Option SdkPayment) {p : SdkPayment}
    → confirmed o ≡ some p
    → (o ≡ some p) × (p.status ≡ PaymentStatus.complete)
unfolding confirmed
confirmed-some none h = cc
confirmed-some (some q) {p} h = elim (Bool-cases (is_complete q.status)) [
  | inl yes_ ↦
      (let k = rw yes_ at h in
        let e : q ≡ p = cc in
        (ap some e, ap (λ (x : SdkPayment). x.status) (sym e) ∙ is_complete-status q.status yes_))
  | inr no_ ↦ (let k = rw no_ at h in cc)
]

paid_after-some :
    (payment : Option SdkPayment) (done : Option (Unit {0})) {p : Option SdkPayment}
    → paid_after payment done ≡ some p
    → payment ≡ p
unfolding paid_after
paid_after-some payment none h = cc
paid_after-some payment (some _) h = cc

module _ (sdk : Sdk) (fuel : ℕ) (hash : String) where
  get_confirmed-some :
      (w : World) {p : SdkPayment}
      → (get_confirmed_payment sdk hash w).0 ≡ ok (some p)
      → IsReceipt sdk hash p
  unfolding get_confirmed_payment ask
  get_confirmed-some w h =
      let calls = Call.payment_by_hash hash ∷ w.calls in
      let (o, found, rest, _) =
        >>=-ok (lift (or_err (sdk.answer_payment_by_hash calls) unavailable))
          (λ (o : Option SdkPayment). pure (confirmed o)) (record w { calls = calls }) h in
      let (e, complete) = confirmed-some o cc in
      (w.calls, inl (rw e at (or_err-ok _ unavailable found), complete))

  paid-some :
      (r : Received) (w : World) {p : SdkPayment}
      → (paid_or_none sdk fuel hash r w).0 ≡ ok (some (some p))
      → r ≡ event (invoice_paid hash (some p))
  unfolding paid_or_none
  paid-some (event (BreezEvent.invoice_paid i payment)) w {p} h =
      elim (Bool-cases (str_eq i hash)) [
        | inl same ↦
            (let (done, _, rest, _) =
                >>=-ok (wait_for_synced_event sdk fuel)
                  (λ (done : Option (Unit {0})). pure (paid_after payment done)) w (rw same at h) in
              let e : payment ≡ some p = paid_after-some payment done cc in
              rw ((eq_iff i hash).0 same, e) refl)
        | inr other ↦ (let k = rw other at h in cc)
      ]
  paid-some (event BreezEvent.new_block) w h = cc
  paid-some (event BreezEvent.synced) w h = cc
  paid-some (event BreezEvent.backup_started) w h = cc
  paid-some (event BreezEvent.backup_succeeded) w h = cc
  paid-some (event BreezEvent.backup_failed) w h = cc
  paid-some (event (BreezEvent.payment_succeed q)) w h = cc
  paid-some (event (BreezEvent.payment_failed i)) w h = cc
  paid-some (event (BreezEvent.swap_updated st i)) w h = cc
  paid-some (event (BreezEvent.reverse_swap_updated st i)) w h = cc
  paid-some Received.timeout w h = cc
  paid-some Received.disconnected w h = cc

  received-some :
      (again : Handling (Option SdkPayment)) (r : Option (Option SdkPayment)) (w : World)
      {p : SdkPayment}
      → (received_or r again w).0 ≡ ok (some p)
      → (r ≡ some (some p)) ⊎ ((again w).0 ≡ ok (some p))
  unfolding received_or
  received-some again none w h = cc
  received-some again (some none) w h = inr h
  received-some again (some (some q)) w h = inl cc

  found-some :
      (again : Handling (Option SdkPayment)) (o : Option SdkPayment) (w w0 : World) {p : SdkPayment}
      → (get_confirmed_payment sdk hash w0).0 ≡ ok o
      → (found_or sdk fuel hash again o w).0 ≡ ok (some p)
      → IsReceipt sdk hash p ⊎ ((w' : World) × ((again w').0 ≡ ok (some p)))
  unfolding found_or check_for_received_payment ask
  found-some again (some q) w w0 found h = inl (get_confirmed-some w0 (found ∙ h))
  found-some again none w w0 found h =
      let calls = Call.recv_event ∷ w.calls in
      let (r, received, rest, _) =
        >>=-ok (paid_or_none sdk fuel hash (sdk.answer_recv_event calls))
          (λ (r : Option (Option SdkPayment)). received_or r again) (record w { calls = calls })
          h in
      elim (received-some again r _ rest) [
        | inl e ↦ inl (w.calls, inr (paid-some _ _ (rw e at received)))
        | inr later ↦ inr (_, later)
      ]

  turn-some :
      (again : Handling (Option SdkPayment)) (b : Bool) (w : World) {p : SdkPayment}
      → (wait_turn sdk fuel hash again b w).0 ≡ ok (some p)
      → IsReceipt sdk hash p ⊎ ((w' : World) × ((again w').0 ≡ ok (some p)))
  unfolding wait_turn
  turn-some again false w h = cc
  turn-some again true w h =
      let (o, found, rest, _) =
        >>=-ok (get_confirmed_payment sdk hash) (found_or sdk fuel hash again) w h in
      found-some again o _ w found rest

  -- A payment that ends the wait is one that the SDK, asked for the hash, answered and that is complete,
  -- or, whatever its status, the payment that the SDK gave in an event that the invoice of this hash was
  -- paid.
  pub awaited_payment_is_confirmed :
      (turns timeout_instant : ℕ) (w : World) {p : SdkPayment}
      → (wait_for_payment sdk fuel turns hash timeout_instant w).0 ≡ ok (some p)
      → IsReceipt sdk hash p
  unfolding wait_for_payment wait_turn ask
  awaited_payment_is_confirmed zero timeout_instant w h = cc
  awaited_payment_is_confirmed (suc turns) timeout_instant w h =
      elim (turn-some (wait_for_payment sdk fuel turns hash timeout_instant) _ _ h) [
        | inl done ↦ done
        | inr (w', later) ↦ awaited_payment_is_confirmed turns timeout_instant w' later
      ]
