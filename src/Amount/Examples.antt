-- ===== src/Amount/Examples.antt =====
-- Tests of src/amount.rs, and the theorems at concrete amounts.
use lipa_lightning_lib.Prelude.{◌/◌, ◌*◌, ◌+◌, ◌≤◌, ◌<◌, ◌≡◌, refl, some, arith}
use lipa_lightning_lib.Config.{ExchangeRate}
use lipa_lightning_lib.Amount.{
  Amount, up, down, round, as_sats, as_msats, permyriad_of, fiat_value, to_amount_up,
}
use lipa_lightning_lib.Amount.Bounds.{round_bounds}
use lipa_lightning_lib.Amount.Fiat.{fiat_up_short}

abbrev eur : ExchangeRate
eur = record { currency_code = "EUR"; rate = 4256; updated_at = 7 }

abbrev paid : Amount
paid = record {
  sats = 12350;
  fiat = some (record { minor_units = 291; currency_code = "EUR"; rate = 4256; converted_at = 7 });
}

rounding_to_amount_up : to_amount_up (as_msats 12349123) (some eur) ≡ some paid
unfolding to_amount_up
rounding_to_amount_up = refl

permyriads : (permyriad_of 10 (as_sats 1234)).msats ≡ 1234
unfolding permyriad_of as_sats
permyriads = refl

round_bounds_example :
    (round 1001 down * 1000 ≤ 1001)
    × (1001 < round 1001 down * 1000 + 1000)
    × (1001 ≤ round 1001 up * 1000)
    × (round 1001 up * 1000 < 1001 + 1000)
round_bounds_example = round_bounds 1001 (omega arith)

abbrev strong : ExchangeRate
strong = record { currency_code = "KWD"; rate = 150; updated_at = 7 }

-- 1501 msats are worth more than one minor unit, and rounding up gives one.
fiat_up_short_example :
    ((fiat_value up 1501 strong).minor_units * 1000 ≡ 1501 * 100 / 150)
    × ((fiat_value up 1501 strong).minor_units * 1000 * 150 < 1501 * 100)
fiat_up_short_example =
    fiat_up_short 1501 strong (omega arith) (omega arith) (omega arith) (omega arith)
