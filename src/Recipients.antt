-- ===== src/Recipients.antt =====
-- src/lib.rs: list_recipients, the addresses that were paid, from the most recent.
pub mod Order
pub mod Recent
mod Examples
use lipa_lightning_lib.Prelude.{
  ℕ, String, Bool, true, Option, none, some, List, [], ◌∷◌, or_err, str_eq, filter_map, map, leb,
  if◌then◌else◌,
}
use lipa_lightning_lib.Prelude.Sorting.{sort_by, text_ltb}
use lipa_lightning_lib.Prelude.Exec.{pure, lift, ◌>>=◌}
use lipa_lightning_lib.Payment.{Recipient}
use lipa_lightning_lib.Payment.Conversion.{from_lightning_address}
use lipa_lightning_lib.SdkPayment.{SdkPayment, sent, PaymentDetails, ln, closed}
use lipa_lightning_lib.Sdk.{Call, ask}
use lipa_lightning_lib.Support.{Support, Lib, node_unavailable}

-- The code keeps the time negated, so that times are compared the other way round.
pub record Usage : Type 0 where
  pub address : String
  pub payment_time : ℕ

unfoldable pub usage_at : ℕ → Option String → Option Usage
usage_at time none = none
usage_at time (some address) = some (record { address = address; payment_time = time })

-- `to_lightning_address`
unfoldable pub usage_of : SdkPayment → Option Usage
unfolding usage_at
usage_of p = elim p.details [ ln d ↦ usage_at p.payment_time d.ln_address | closed txid ↦ none ]

-- the order of the pairs: by address, and by the negated time
unfoldable pub usage_le : Usage → Usage → Bool
unfolding text_ltb
usage_le a b =
    if str_eq a.address b.address
    then leb b.payment_time a.payment_time
    else text_ltb a.address b.address

-- `dedup_by_key`, after an element that is kept
unfoldable pub dedup_after : Usage → List Usage → List Usage
dedup_after x [] = []
dedup_after x (y ∷ ys) =
    let same = dedup_after x ys in
    let rest = dedup_after y ys in if str_eq y.address x.address then same else y ∷ rest

unfoldable pub dedup_by_address : List Usage → List Usage
unfolding dedup_after
dedup_by_address [] = []
dedup_by_address (x ∷ xs) = x ∷ dedup_after x xs

-- by the negated time
unfoldable pub time_le : Usage → Usage → Bool
time_le a b = leb b.payment_time a.payment_time

unfoldable pub recent_usages : List SdkPayment → List Usage
unfolding usage_of usage_le dedup_by_address time_le sort_by
recent_usages payments =
    sort_by time_le (dedup_by_address (sort_by usage_le (filter_map usage_of payments)))

unfoldable pub list_recipients : Support → Lib (List Recipient)
unfolding recent_usages
list_recipients sup = do
  answer ← ask (Call.list_payments (sent ∷ []) true none) sup.sdk.answer_list_payments
  payments ← lift (or_err answer node_unavailable)
  pure (
      map (λ (u : Usage). from_lightning_address u.address sup.lipa_lightning_domain)
        (recent_usages payments))
