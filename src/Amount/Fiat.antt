-- ===== src/Amount/Fiat.antt =====
-- The fiat part of an amount: when it exists, its rounding error, and when the code panics.
use native.Mathlib.Nat.{div-add-mod, mod-eq_of_lt}
use lipa_lightning_lib.Prelude.{
  ℕ, ◌+◌, ◌*◌, ◌/◌, ◌%◌, ◌≤◌, ◌<◌, ◌≡◌, ◌≢◌, ◌↔◌, refl, Option, none, some, arith, u64_mod, ◌==◌,
  Bool-cases, inl, inr,
}
use lipa_lightning_lib.Config.{ExchangeRate}
use lipa_lightning_lib.Amount.{
  Amount, FiatValue, Rounding, up, down, round, msats_to_amount, fiat_value,
}

-- A conversion panics exactly when it is given a rate of 0.
pub msats_to_amount-panic :
    (rounding : Rounding) (msats : ℕ) (rate : Option ExchangeRate)
    → (msats_to_amount rounding msats rate ≡ none)
      ↔ ((r : ExchangeRate) × (rate ≡ some r) × (r.rate ≡ 0))
unfolding msats_to_amount
msats_to_amount-panic rounding msats none = (λ e. cc, λ h. cc (h.1))
msats_to_amount-panic rounding msats (some r) = elim (Bool-cases (r.rate == 0)) [
  | inl z ↦ (λ e. (r, refl, ground arith), λ h. rw z)
  | inr z ↦ (λ e. ground arith, λ h. ground arith)
]

-- The fiat part is there exactly when a rate is given, and quotes that rate; the sats of the amount
-- do not depend on it.
pub fiat-rate :
    (rounding : Rounding) (msats : ℕ) (r : ExchangeRate) {a : Amount}
    → msats_to_amount rounding msats (some r) ≡ some a
    → (a.sats ≡ round msats rounding)
      × ((v : FiatValue) × (a.fiat ≡ some v)
          × (v.currency_code ≡ r.currency_code)
          × (v.rate ≡ r.rate)
          × (v.converted_at ≡ r.updated_at))
unfolding msats_to_amount fiat_value
fiat-rate rounding msats r h =
    (ground arith, (fiat_value rounding msats r, ground arith, refl, refl, refl))

-- With q the exact value in thousandths of a minor unit, rounded down, the minor units lie within
-- one of q / 1000 on the side of the rounding.
minor_units_bounds :
    (msats : ℕ) (r : ExchangeRate)
    → msats * 100 + 999 < u64_mod
    → let q = msats * 100 / r.rate in
      ((fiat_value down msats r).minor_units * 1000 ≤ q)
      × (q < (fiat_value down msats r).minor_units * 1000 + 1000)
      × (q ≤ (fiat_value up msats r).minor_units * 1000)
      × ((fiat_value up msats r).minor_units * 1000 < q + 1000)
unfolding fiat_value round
minor_units_bounds msats r h = grind arith

div-mul-lt : (x d : ℕ) → x % d ≢ 0 → x / d * d < x
div-mul-lt x d h = omega (arith, div-add-mod x d)

-- the number that `round` computes, where the value is a whole number of thousands
round_up_whole : (q : ℕ) → q + 999 < u64_mod → q % 1000 ≡ 0 → (q + 999) % u64_mod / 1000 * 1000 ≡ q
round_up_whole q h z = omega arith

-- Where the exact value lies above a whole number of minor units by less than a thousandth of one,
-- rounding up gives that whole number: the minor units are then worth less than the amount.
pub fiat_up_short :
    (msats : ℕ) (r : ExchangeRate)
    → msats * 100 + 999 < u64_mod
    → 0 < r.rate
    → msats * 100 % r.rate ≢ 0
    → msats * 100 / r.rate % 1000 ≡ 0
    → ((fiat_value up msats r).minor_units * 1000 ≡ msats * 100 / r.rate)
      × ((fiat_value up msats r).minor_units * 1000 * r.rate < msats * 100)
unfolding fiat_value round
fiat_up_short msats r h p k z = rw (mod-eq_of_lt {n = msats * 100} {m = u64_mod} (omega arith)) (
    rw (round_up_whole (msats * 100 / r.rate) (grind arith) z)
      (refl, div-mul-lt (msats * 100) r.rate k))
