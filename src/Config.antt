-- ===== src/Config.antt =====
-- src/node_config.rs and src/exchange_rate_provider.rs: configuration values, times with a time
-- zone, and exchange rates. A `SystemTime` is a number of seconds after the Unix epoch.
use lipa_lightning_lib.Prelude.{ℕ, ℤ, String}

pub record TzConfig : Type 0 where
  pub timezone_id : String
  pub timezone_utc_offset_secs : ℤ

pub record TzTime : Type 0 where
  pub time : ℕ
  pub timezone_id : String
  pub timezone_utc_offset_secs : ℤ

unfoldable pub with_timezone : ℕ → TzConfig → TzTime
with_timezone time tz_config = record {
  time = time;
  timezone_id = tz_config.timezone_id;
  timezone_utc_offset_secs = tz_config.timezone_utc_offset_secs;
}

pub record UserPreferences : Type 0 where
  pub fiat_currency : String
  pub timezone_config : TzConfig

pub record MaxRoutingFeeConfig : Type 0 where
  pub max_routing_fee_permyriad : ℕ  -- u16
  pub max_routing_fee_exempt_fee_sats : ℕ  -- u64

-- The multiplier is an `f64`: its type is a parameter.
pub record ReceiveLimitsConfig (F : Type 0) : Type 0 where
  pub max_receive_amount_sat : ℕ  -- u64
  pub min_receive_channel_open_fee_multiplier : F

-- Sats per major unit of the currency.
pub record ExchangeRate : Type 0 where
  pub currency_code : String
  pub rate : ℕ  -- u32
  pub updated_at : ℕ
