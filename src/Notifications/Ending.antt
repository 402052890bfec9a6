-- ===== src/Notifications/Ending.antt =====
-- src/notification_handling.rs: the loops end once the clock has passed the timeout, and a SDK that goes on
-- receiving tells of a sync.
use lipa_lightning_lib.Prelude.{
  ℕ, zero, suc, ◌+◌, ◌≤◌, ◌<◌, String, Bool, true, false, ◌≡◌, ◌≢◌, ◌⊎◌, inl, inr, refl, Option,
  none, some, List, ◌∷◌, Result, ok, err, panic, str_eq, Bool-cases, Option-cases, length, ltb,
  arith,
}
use lipa_lightning_lib.Prelude.Exec.{pure, continue}
use lipa_lightning_lib.SdkPayment.{SdkPayment, BreezEvent, Received, event, disconnected}
use lipa_lightning_lib.Sdk.{Sdk, World, Call, ask}
use lipa_lightning_lib.Notifications.Waiting.{
  NotificationError, Handling, confirmed, get_confirmed_payment, synced_or, wait_for_synced_event,
  paid_after, paid_or_none, check_for_received_payment, received_or, found_or, wait_turn,
  wait_for_payment,
}

-- the number of calls made
abbrev made : World → ℕ
made w = length w.calls

synced_or-cases :
    (r : Received) (again : Handling (Option (Unit {0})))
    → ((w : World) → (synced_or r again w).1 ≡ w × ((synced_or r again w).0 ≢ ok none))
      ⊎ (synced_or r again ≡ again)
unfolding synced_or
synced_or-cases (event BreezEvent.synced) again = inl (λ w. (refl, λ h. cc))
synced_or-cases Received.disconnected again = inl (λ w. (refl, λ h. cc))
synced_or-cases (event BreezEvent.new_block) again = inr refl
synced_or-cases (event BreezEvent.backup_started) again = inr refl
synced_or-cases (event BreezEvent.backup_succeeded) again = inr refl
synced_or-cases (event BreezEvent.backup_failed) again = inr refl
synced_or-cases (event (BreezEvent.payment_succeed q)) again = inr refl
synced_or-cases (event (BreezEvent.payment_failed i)) again = inr refl
synced_or-cases (event (BreezEvent.swap_updated st i)) again = inr refl
synced_or-cases (event (BreezEvent.reverse_swap_updated st i)) again = inr refl
synced_or-cases Received.timeout again = inr refl
synced_or-cases (event (BreezEvent.invoice_paid i q)) again = inr refl

module _ (sdk : Sdk) where
  synced-grows : (fuel : ℕ) (w : World) → made w ≤ made (wait_for_synced_event sdk fuel w).1
  unfolding wait_for_synced_event ask
  synced-grows zero w = omega arith
  synced-grows (suc fuel) w =
      let calls = Call.recv_event ∷ w.calls in
      let w1 = record w { calls = calls } in
      elim (synced_or-cases (sdk.answer_recv_event calls) (wait_for_synced_event sdk fuel)) [
        | inl stops ↦ rw ((stops w1).0) (omega arith)
        | inr goes ↦ rw goes (omega (arith, synced-grows fuel w1))
      ]

-- From the `limit`-th call on, the clock has passed the timeout.
abbrev pub IsOverAfter : Sdk → ℕ → ℕ → Type 0
IsOverAfter sdk timeout_instant limit =
    (calls : List Call) → limit ≤ length calls → timeout_instant ≤ sdk.answer_clock calls

-- One of the next `n` receives after the given calls tells that the SDK is in sync or has stopped; each of
-- the others may time out or tell of any event.
abbrev pub SyncsWithin : Sdk → ℕ → List Call → Type 0
SyncsWithin sdk zero calls = ⊥
SyncsWithin sdk (suc n) calls =
    ((sdk.answer_recv_event (Call.recv_event ∷ calls) ≡ event BreezEvent.synced)
      ⊎ (sdk.answer_recv_event (Call.recv_event ∷ calls) ≡ disconnected))
    ⊎ SyncsWithin sdk n (Call.recv_event ∷ calls)

module _ (sdk : Sdk) where
  synced-ends :
      (fuel : ℕ) (w : World)
      → SyncsWithin sdk fuel w.calls
      → (wait_for_synced_event sdk fuel w).0 ≢ ok none
  unfolding wait_for_synced_event ask synced_or
  synced-ends zero w h = absurd h
  synced-ends (suc fuel) w (inl (inl e)) = rw e (λ x. cc)
  synced-ends (suc fuel) w (inl (inr e)) = rw e (λ x. cc)
  synced-ends (suc fuel) w (inr later) =
      let calls = Call.recv_event ∷ w.calls in
      let w1 = record w { calls = calls } in
      elim (synced_or-cases (sdk.answer_recv_event calls) (wait_for_synced_event sdk fuel)) [
        | inl stops ↦ (stops w1).1
        | inr goes ↦ rw goes (synced-ends fuel w1 later)
      ]

module _ (sdk : Sdk) (timeout_instant limit : ℕ)
    (over : IsOverAfter sdk timeout_instant limit) where
  paid_after-ends :
      (payment : Option SdkPayment) (r : Result NotificationError (Option (Unit {0}))) (w : World)
      → r ≢ ok none
      → (continue r (λ (done : Option (Unit {0})). pure (paid_after payment done)) w).0 ≢ ok none
  unfolding paid_after
  paid_after-ends payment (ok none) w h = absurd (h refl)
  paid_after-ends payment (ok (some u)) w h = λ k. cc
  paid_after-ends payment (err e) w h = λ k. cc
  paid_after-ends payment panic w h = λ k. cc

  continue-kept :
      (payment : Option SdkPayment) (r : Result NotificationError (Option (Unit {0}))) (w : World)
      → (continue r (λ (done : Option (Unit {0})). pure (paid_after payment done)) w).1 ≡ w
  continue-kept payment (ok u) w = refl
  continue-kept payment (err e) w = refl
  continue-kept payment panic w = refl

  module _ (fuel : ℕ) (hash : String)
      (syncs : (calls : List Call) → SyncsWithin sdk fuel calls) where
    paid-goes :
        (r : Received) (w : World)
        → (made w ≤ made (paid_or_none sdk fuel hash r w).1)
          × ((paid_or_none sdk fuel hash r w).0 ≢ ok none)
    unfolding paid_or_none
    paid-goes (event (BreezEvent.invoice_paid i payment)) w = elim (Bool-cases (str_eq i hash)) [
      | inl same ↦
          (let end = (wait_for_synced_event sdk fuel w).1 in
            rw same (
              rw (continue-kept payment (wait_for_synced_event sdk fuel w).0 end)
                  (synced-grows sdk fuel w),
              paid_after-ends payment (wait_for_synced_event sdk fuel w).0 end
                  (synced-ends sdk fuel w (syncs w.calls)),
            ))
      | inr other ↦ rw other (omega arith, λ h. cc)
    ]
    paid-goes (event BreezEvent.new_block) w = (omega arith, λ h. cc)
    paid-goes (event BreezEvent.synced) w = (omega arith, λ h. cc)
    paid-goes (event BreezEvent.backup_started) w = (omega arith, λ h. cc)
    paid-goes (event BreezEvent.backup_succeeded) w = (omega arith, λ h. cc)
    paid-goes (event BreezEvent.backup_failed) w = (omega arith, λ h. cc)
    paid-goes (event (BreezEvent.payment_succeed q)) w = (omega arith, λ h. cc)
    paid-goes (event (BreezEvent.payment_failed i)) w = (omega arith, λ h. cc)
    paid-goes (event (BreezEvent.swap_updated st i)) w = (omega arith, λ h. cc)
    paid-goes (event (BreezEvent.reverse_swap_updated st i)) w = (omega arith, λ h. cc)
    paid-goes Received.timeout w = (omega arith, λ h. cc)
    paid-goes Received.disconnected w = (omega arith, λ h. cc)

    received-goes :
        (again : Handling (Option SdkPayment))
        (r : Result NotificationError (Option (Option SdkPayment))) (w : World)
        → r ≢ ok none
        → (again w).0 ≢ ok none
        → (continue r (λ (r : Option (Option SdkPayment)). received_or r again) w).0 ≢ ok none
    unfolding received_or
    received-goes again (ok none) w h k = absurd (h refl)
    received-goes again (ok (some none)) w h k = k
    received-goes again (ok (some (some p))) w h k = λ e. cc
    received-goes again (err e) w h k = λ e. cc
    received-goes again panic w h k = λ e. cc

    found-goes :
        (again : Handling (Option SdkPayment)) (o : Option SdkPayment) (w : World)
        → ((w' : World) → made w < made w' → (again w').0 ≢ ok none)
        → (found_or sdk fuel hash again o w).0 ≢ ok none
    unfolding found_or check_for_received_payment ask
    found-goes again (some p) w rest = λ e. cc
    found-goes again none w rest =
        let calls = Call.recv_event ∷ w.calls in
        let w1 = record w { calls = calls } in
        let (grows, goes) = paid-goes (sdk.answer_recv_event calls) w1 in
        received-goes again _ _ goes
          (rest (paid_or_none sdk fuel hash (sdk.answer_recv_event calls) w1).1 (omega arith))

    turn-goes :
        (again : Handling (Option SdkPayment)) (b : Bool) (w : World)
        → (b ≡ true → (w' : World) → made w < made w' → (again w').0 ≢ ok none)
        → (wait_turn sdk fuel hash again b w).0 ≢ ok none
    unfolding wait_turn get_confirmed_payment ask
    turn-goes again false w rest = λ e. cc
    turn-goes again true w rest =
        let calls = Call.payment_by_hash hash ∷ w.calls in
        let w1 = record w { calls = calls } in
        elim (Option-cases (sdk.answer_payment_by_hash calls)) [
          | inl failed ↦ rw failed (λ e. cc)
          | inr (o, answered) ↦
              rw answered (found-goes again (confirmed o) w1 (λ w' h. rest refl w' (omega arith)))
        ]

    turns-go :
        (turns : ℕ) (w : World)
        → limit ≤ turns + made w
        → 1 ≤ turns
        → (wait_for_payment sdk fuel turns hash timeout_instant w).0 ≢ ok none
    unfolding wait_for_payment ask
    turns-go zero w h k = absurd (omega arith)
    turns-go (suc turns) w h k =
        let calls = Call.read_clock ∷ w.calls in
        let w1 = record w { calls = calls } in
        turn-goes (wait_for_payment sdk fuel turns hash timeout_instant)
          (ltb (sdk.answer_clock calls) timeout_instant) w1
          λ early w' later.
            let few : ¬ (limit ≤ length calls) =
              λ h'. let past = over calls h' in absurd (ground arith) in
            turns-go turns w' (omega arith) (omega arith)

    -- The wait for a payment returns, with a payment or an error and not for want of fuel, where the
    -- fuel of the turns is greater than a number of calls after which the clock has passed the timeout,
    -- and that of the wait for a sync is a number of receives of which, whenever they begin, one tells
    -- that the SDK is in sync or has stopped: the wait for a sync has no timeout of its own. The other
    -- receives may time out or tell of any event.
    pub wait_for_payment_returns :
        (turns : ℕ) (w : World)
        → limit < turns
        → (wait_for_payment sdk fuel turns hash timeout_instant w).0 ≢ ok none
    wait_for_payment_returns turns w enough = turns-go turns w (omega arith) (omega arith)
