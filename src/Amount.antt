-- ===== src/Amount.antt =====
-- src/amount.rs: sats, msats, their rounding, and amounts with a fiat value. `none` stands for the
-- panic of a division by a rate of 0.
pub mod Bounds
pub mod Fiat
mod Examples
use lipa_lightning_lib.Prelude.{
  ℕ, ◌/◌, String, Option, none, some, add64, mul64, ◌==◌, if◌then◌else◌,
}
use lipa_lightning_lib.Config.{ExchangeRate}

pub record Sats : Type 0 where
  pub sats : ℕ
  pub msats : ℕ

-- `Sats::new`, and `as_sats` on `u64` and `u32`
unfoldable pub as_sats : ℕ → Sats
as_sats n = record { sats = n; msats = mul64 n 1000 }

pub record Msats : Type 0 where
  pub msats : ℕ

abbrev pub as_msats : ℕ → Msats
as_msats n = record { msats = n }

pub data Rounding : Type 0 where
  up down : Rounding

unfoldable pub round : ℕ → Rounding → ℕ
round msat up = add64 msat 999 / 1000
round msat down = msat / 1000

unfoldable pub sats_round_up : Msats → Sats
unfolding round as_sats
sats_round_up m = as_sats (round m.msats up)

unfoldable pub sats_round_down : Msats → Sats
unfolding round as_sats
sats_round_down m = as_sats (round m.msats down)

-- `Permyriad(p).of(sats)`, with p a `u16`
unfoldable pub permyriad_of : ℕ → Sats → Msats
permyriad_of permyriad s = record { msats = mul64 s.sats permyriad / 10 }

pub record FiatValue : Type 0 where
  pub minor_units : ℕ
  pub currency_code : String
  pub rate : ℕ
  pub converted_at : ℕ

pub record Amount : Type 0 where
  pub sats : ℕ
  pub fiat : Option FiatValue

-- `Amount::default()`
abbrev pub zero_amount : Amount
zero_amount = record { sats = 0; fiat = none }

unfoldable pub to_msats : Amount → ℕ
unfolding as_sats
to_msats a = (as_sats a.sats).msats

unfoldable pub fiat_value : Rounding → ℕ → ExchangeRate → FiatValue
unfolding round
fiat_value rounding msats r = record {
  minor_units = round (mul64 msats 100 / r.rate) rounding;
  currency_code = r.currency_code;
  rate = r.rate;
  converted_at = r.updated_at;
}

unfoldable pub msats_to_amount : Rounding → ℕ → Option ExchangeRate → Option Amount
unfolding round fiat_value
msats_to_amount rounding msats none = some (record { sats = round msats rounding; fiat = none })
msats_to_amount rounding msats (some r) =
    if r.rate == 0
    then none
    else some (record { sats = round msats rounding; fiat = some (fiat_value rounding msats r) })

-- `to_amount_up` and `to_amount_down`, on `Msats` and on `Sats`
unfoldable pub to_amount_up : Msats → Option ExchangeRate → Option Amount
unfolding msats_to_amount
to_amount_up m rate = msats_to_amount up m.msats rate

unfoldable pub to_amount_down : Msats → Option ExchangeRate → Option Amount
unfolding msats_to_amount
to_amount_down m rate = msats_to_amount down m.msats rate

unfoldable pub sats_to_amount_up : Sats → Option ExchangeRate → Option Amount
unfolding msats_to_amount
sats_to_amount_up s rate = msats_to_amount up s.msats rate

unfoldable pub sats_to_amount_down : Sats → Option ExchangeRate → Option Amount
unfolding msats_to_amount
sats_to_amount_down s rate = msats_to_amount down s.msats rate
