-- ===== src/Amount/Bounds.antt =====
-- How far rounding to sats moves an amount.
use lipa_lightning_lib.Prelude.{ℕ, ◌+◌, ◌*◌, ◌≤◌, ◌<◌, ◌≡◌, Option, some, arith, u64_mod}
use lipa_lightning_lib.Config.{ExchangeRate}
use lipa_lightning_lib.Amount.{
  Amount, up, down, round, as_sats, to_msats, permyriad_of, sats_to_amount_up, sats_to_amount_down,
}

-- A number of msats for which `round` does not wrap.
abbrev pub InRange : ℕ → Type 0
InRange msat = msat + 999 < u64_mod

-- Both roundings come within one sat of the exact amount, on their own side of it, and agree
-- exactly on whole sats.
pub round_bounds :
    (msat : ℕ)
    → InRange msat
    → (round msat down * 1000 ≤ msat)
      × (msat < round msat down * 1000 + 1000)
      × (msat ≤ round msat up * 1000)
      × (round msat up * 1000 < msat + 1000)
unfolding round
round_bounds msat h = omega arith

-- A whole number of sats survives the way through msats, in either rounding, and so does the
-- conversion of the amount back to msats.
sats_roundtrip :
    (n : ℕ) (rate : Option ExchangeRate) {a b : Amount}
    → InRange (n * 1000)
    → sats_to_amount_up (as_sats n) rate ≡ some a
    → sats_to_amount_down (as_sats n) rate ≡ some b
    → (a.sats ≡ n) × (b.sats ≡ n) × (to_msats a ≡ n * 1000) × (to_msats b ≡ n * 1000)
unfolding sats_to_amount_up sats_to_amount_down as_sats to_msats
sats_roundtrip n rate h p q = ground arith

-- A whole number of sats that fits is converted to an amount of as many sats.
pub up_sats :
    (n : ℕ) (rate : Option ExchangeRate) {a : Amount}
    → InRange (n * 1000)
    → sats_to_amount_up (as_sats n) rate ≡ some a
    → a.sats ≡ n
unfolding sats_to_amount_up as_sats
up_sats n rate h p = ground arith

-- At most 10000 permyriad of an amount are at most the amount, where the product fits a `u64`.
pub permyriad_of-le :
    (p n : ℕ)
    → p ≤ 10000
    → n * 10000 < u64_mod
    → (permyriad_of p (as_sats n)).msats ≤ (as_sats n).msats
unfolding permyriad_of as_sats
permyriad_of-le p n h k = grind arith
