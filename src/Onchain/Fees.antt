-- ===== src/Onchain/Fees.antt =====
-- The fees and limits of the on-chain operations.
use lipa_lightning_lib.Prelude.{
  ℕ, ◌+◌, ◌*◌, ◌≤◌, ◌<◌, false, ◌≡◌, ◌≢◌, ◌↔◌, inl, inr, refl, Option, none, some, ok, err, arith,
  add64, sub64, mul64, permanent_failure, ltb, Bool-cases,
}
use lipa_lightning_lib.Prelude.Exec.{>>=-ok, pure, ◌>>=◌}
use lipa_lightning_lib.Config.{ExchangeRate}
use lipa_lightning_lib.Errors.{LibError}
use lipa_lightning_lib.Amount.{Amount, Msats, as_sats, sats_to_amount_up, sats_round_down}
use lipa_lightning_lib.Amount.Bounds.{InRange, up_sats}
use lipa_lightning_lib.Sdk.{SdkSwapInfo, PrepareOnchainPaymentResponse, World}
use lipa_lightning_lib.Support.{
  Support, get_exchange_rate, CalculateLspFeeResponse, amount_or_panic,
}
use lipa_lightning_lib.Onchain.Swap.{calculate_swap_lsp_fee}
use lipa_lightning_lib.Onchain.Resolving.{
  fees_with, sweep_only, swap_or_sweep, PreparedTx, OnchainResolvingFees, SwapToLightningFees,
  cannot_swap, swap_fees_for, resolving_fees_of,
}
use lipa_lightning_lib.Onchain.ReverseSwap.{inside, range_hit, ClearWalletInfo, clear_wallet_info}

-- The balance is reported to be in the range exactly when it is, below it or above it only when it
-- is, and the branch that the source calls unreachable is.
range_hit_correct :
    (rate : Option ExchangeRate) (least max_sat balance : ℕ) (w : World)
    → ((range_hit rate least max_sat balance w).0 ≡ ok inside
        ↔ ((least ≤ balance) × (balance ≤ max_sat)))
      × ((range_hit rate least max_sat balance w).0 ≢ err permanent_failure)
unfolding range_hit
range_hit_correct rate least max_sat balance w = ground arith

-- The steps of `clear_wallet_info`, on the amounts that the conversions give.
clear_info_parts :
    (a b c d : Option Amount) (r : PrepareOnchainPaymentResponse) (w : World)
    {info : ClearWalletInfo}
    → ((do
      clear_amount ← amount_or_panic {E = LibError} a
      total ← amount_or_panic b
      onchain_fee ← amount_or_panic c
      swap_fee ← amount_or_panic d
      pure (record {
        clear_amount = clear_amount;
        total_estimated_fees = total;
        onchain_fee = onchain_fee;
        swap_fee = swap_fee;
        prepare_response = r;
      }))
        w).0
      ≡ ok info
    → (a ≡ some info.clear_amount)
      × (b ≡ some info.total_estimated_fees)
      × (c ≡ some info.onchain_fee)
      × (d ≡ some info.swap_fee)
      × (info.prepare_response ≡ r)
clear_info_parts none b c d r w p = cc
clear_info_parts (some a) none c d r w p = cc
clear_info_parts (some a) (some b) none d r w p = cc
clear_info_parts (some a) (some b) (some c) none r w p = cc
clear_info_parts (some a) (some b) (some c) (some d) r w p = ground arith

-- The onchain fee and the swap fee of clearing the wallet add up to the total, and the amount to
-- clear is the one of the SDK's answer, where the parts do not exceed the total and the numbers, in
-- msats, fit a `u64`.
clear_wallet_info-fees :
    (rate : Option ExchangeRate) (r : PrepareOnchainPaymentResponse) (w : World)
    {info : ClearWalletInfo}
    → r.fees_claim + r.fees_lockup ≤ r.total_fees
    → InRange (r.total_fees * 1000)
    → InRange (r.sender_amount_sat * 1000)
    → (clear_wallet_info rate r w).0 ≡ ok info
    → (info.onchain_fee.sats + info.swap_fee.sats ≡ info.total_estimated_fees.sats)
      × (info.onchain_fee.sats ≡ r.fees_claim + r.fees_lockup)
      × (info.clear_amount.sats ≡ r.sender_amount_sat)
      × (info.prepare_response ≡ r)
unfolding clear_wallet_info
clear_wallet_info-fees rate r w le ht hs p =
    let onchain = add64 r.fees_claim r.fees_lockup in
    let swap = sub64 r.total_fees onchain in
    let (a, b, c, d, e) =
      clear_info_parts (sats_to_amount_up (as_sats r.sender_amount_sat) rate)
        (sats_to_amount_up (as_sats r.total_fees) rate) (sats_to_amount_up (as_sats onchain) rate)
        (sats_to_amount_up (as_sats swap) rate) r w p in
    let a' = up_sats r.sender_amount_sat rate hs a in
    let b' = up_sats r.total_fees rate ht b in
    let c' = up_sats onchain rate (omega arith) c in
    let d' = up_sats swap rate (omega arith) d in (omega arith, omega arith, a', e)

channel_fee-parts :
    (rate : Option ExchangeRate) (tx : PreparedTx) (r : CalculateLspFeeResponse)
    (a b c : Option Amount) (w : World) {fees : SwapToLightningFees}
    → ((do
      swap_fee ← amount_or_panic {E = LibError} a
      onchain_fee ← amount_or_panic b
      total ← amount_or_panic c
      pure (record {
        swap_fee = swap_fee;
        onchain_fee = onchain_fee;
        channel_opening_fee = r.lsp_fee;
        total_fees = total;
        lsp_fee_params = r.lsp_fee_params;
      }))
        w).0
      ≡ ok fees
    → fees.channel_opening_fee ≡ r.lsp_fee
channel_fee-parts rate tx r none b c w p = cc
channel_fee-parts rate tx r (some a) none c w p = cc
channel_fee-parts rate tx r (some a) (some b) none w p = cc
channel_fee-parts rate tx r (some a) (some b) (some c) w p = ground arith

channel_fee :
    (rate : Option ExchangeRate) (tx : PreparedTx) (r : CalculateLspFeeResponse) (w : World)
    {fees : SwapToLightningFees}
    → (swap_fees_for rate tx r w).0 ≡ ok fees
    → fees.channel_opening_fee ≡ r.lsp_fee
unfolding swap_fees_for
channel_fee rate tx r w p =
    channel_fee-parts rate tx r (sats_to_amount_up (as_sats 0) rate)
      (sats_to_amount_up tx.onchain_fee rate)
      (sats_to_amount_up (as_sats (add64 (add64 0 tx.onchain_fee.sats) r.lsp_fee.sats)) rate) w p

with_swap_fees :
    (o : Option Amount) (n : ℕ) (swap_fees' : SwapToLightningFees) (w : World)
    {fees : OnchainResolvingFees} {swap_fees : SwapToLightningFees}
    → ((do
      sweep_fee ← amount_or_panic {E = LibError} o
      pure (
          some (record {
            swap_fees = some swap_fees';
            sweep_onchain_fee_estimate = sweep_fee;
            sats_per_vbyte = n;
          })))
        w).0
      ≡ ok (some fees)
    → fees.swap_fees ≡ some swap_fees
    → swap_fees' ≡ swap_fees
with_swap_fees none n s w p q = cc
with_swap_fees (some a) n s w p q = ground arith

no_swap_fees :
    (o : Option Amount) (n : ℕ) (w : World) {fees : OnchainResolvingFees}
    {swap_fees : SwapToLightningFees}
    → ((do
      sweep_fee ← amount_or_panic {E = LibError} o
      pure (
          some (record {
            swap_fees = none;
            sweep_onchain_fee_estimate = sweep_fee;
            sats_per_vbyte = n;
          })))
        w).0
      ≡ ok (some fees)
    → fees.swap_fees ≢ some swap_fees
no_swap_fees none n w p q = cc
no_swap_fees (some a) n w p q = ground arith

swap_or_sweep-fee :
    (sup : Support) (tx : PreparedTx) (r : CalculateLspFeeResponse) (w : World)
    {fees : OnchainResolvingFees} {swap_fees : SwapToLightningFees}
    → (swap_or_sweep sup tx r w).0 ≡ ok (some fees)
    → fees.swap_fees ≡ some swap_fees
    → swap_fees.channel_opening_fee ≡ r.lsp_fee
unfolding swap_or_sweep
swap_or_sweep-fee sup tx r w p q =
    let o = sats_to_amount_up tx.onchain_fee (get_exchange_rate sup) in
    let (inner, e, rest, _) =
      >>=-ok (swap_fees_for (get_exchange_rate sup) tx r)
        (λ (s : SwapToLightningFees). do
          sweep_fee ← amount_or_panic o
          pure (
              some (record {
                swap_fees = some s;
                sweep_onchain_fee_estimate = sweep_fee;
                sats_per_vbyte = tx.sats_per_vbyte;
              })))
        w p in
    let same = with_swap_fees o tx.sats_per_vbyte inner _ rest q in
    let fee = channel_fee (get_exchange_rate sup) tx r w e in cc

swappable :
    (swap_info : Option SdkSwapInfo) (sent fee : ℕ)
    → cannot_swap swap_info sent fee ≡ false
    → (s : SdkSwapInfo) × (swap_info ≡ some s)
      × (s.min_allowed_deposit ≤ sent)
      × (sent ≤ s.max_allowed_deposit)
      × (fee < sent)
unfolding cannot_swap
swappable none sent fee h = cc
swappable (some s) sent fee h = (s, refl, ground arith, ground arith, ground arith)

fees_with-offer :
    (sup : Support) (swap_info : Option SdkSwapInfo) (tx : PreparedTx) (r : CalculateLspFeeResponse)
    (w : World) {fees : OnchainResolvingFees} {swap_fees : SwapToLightningFees}
    → (fees_with sup swap_info tx r w).0 ≡ ok (some fees)
    → fees.swap_fees ≡ some swap_fees
    → (cannot_swap swap_info tx.sent_amount.sats r.lsp_fee.sats ≡ false)
      × (swap_fees.channel_opening_fee ≡ r.lsp_fee)
unfolding fees_with sweep_only
fees_with-offer sup swap_info tx r w p q =
    elim (Bool-cases (cannot_swap swap_info tx.sent_amount.sats r.lsp_fee.sats)) [
      | inl bad ↦ absurd (
          no_swap_fees (sats_to_amount_up tx.onchain_fee (get_exchange_rate sup)) tx.sats_per_vbyte
            w (rw bad at p) q)
      | inr good ↦ (good, swap_or_sweep-fee sup tx r w (rw good at p) q)
    ]

-- Resolving fees offer a swap only when a swap address was given, and the amount that would be sent
-- lies within its limits and exceeds the fee of the channel.
swap_fees-offered :
    (sup : Support) (amount : Msats) (swap_info : Option SdkSwapInfo) (tx : PreparedTx) (w : World)
    {fees : OnchainResolvingFees} {swap_fees : SwapToLightningFees}
    → (resolving_fees_of sup amount swap_info tx w).0 ≡ ok (some fees)
    → fees.swap_fees ≡ some swap_fees
    → (s : SdkSwapInfo) × (swap_info ≡ some s)
      × (s.min_allowed_deposit ≤ tx.sent_amount.sats)
      × (tx.sent_amount.sats ≤ s.max_allowed_deposit)
      × (swap_fees.channel_opening_fee.sats < tx.sent_amount.sats)
unfolding resolving_fees_of
swap_fees-offered sup amount swap_info tx w p q =
    elim (Bool-cases (ltb (sats_round_down amount).sats (mul64 tx.onchain_fee.sats 2))) [
      | inl cheap ↦ let h = rw cheap at p in ground arith
      | inr good ↦
          let (r, e, rest, _) =
            >>=-ok (calculate_swap_lsp_fee sup amount.msats) (fees_with sup swap_info tx) w
              (rw good at p) in
          let (can, fee) = fees_with-offer sup swap_info tx r _ rest q in
          let (s, same, least, most, gt) = swappable swap_info tx.sent_amount.sats _ can in
          (s, same, least, most, rw fee gt)
    ]
