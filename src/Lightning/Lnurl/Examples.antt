-- ===== src/Lightning/Lnurl/Examples.antt =====
-- The theorems on LNURL-pay at concrete requests.
use lipa_lightning_lib.Lightning.Lnurl.Metadata.{IsAllowed}
use lipa_lightning_lib.Prelude.{◌≡◌, some, List, [], ◌∷◌, ok, err, str_eq, if◌then◌else◌}
use lipa_lightning_lib.Amount.{as_sats}
use lipa_lightning_lib.SdkPayment.{LnUrlPayRequestData}
use lipa_lightning_lib.Sdk.{Call}
use lipa_lightning_lib.Sdk.Broadcasts.{Outcome}
use lipa_lightning_lib.Sample.{sample_support, sample_world}
use lipa_lightning_lib.Lightning.Lnurl.{
  MetadataItem, missing_short_description, parse_metadata, pay,
}
use lipa_lightning_lib.Lightning.Lnurl.Metadata.{
  text_or_empty, last_value, parse_metadata-last_value, lnurl_pay_is_guarded,
}

abbrev items : List MetadataItem
items =
    record { key = "text/plain"; value = "coffee" }
    ∷ record { key = "image/png"; value = "data" }
    ∷ record { key = "text/plain"; value = "tea" }
    ∷ []

parse_metadata-last_value_example : parse_metadata (some items) ≡ (
    if str_eq (text_or_empty (last_value "text/plain" items)) ""
    then err missing_short_description
    else ok (text_or_empty (last_value "text/plain" items), last_value "text/long-desc" items))
parse_metadata-last_value_example = parse_metadata-last_value items

abbrev request_data : LnUrlPayRequestData
request_data = record {
  callback = "https://lipa.swiss";
  domain = "lipa.swiss";
  metadata_str = "[]";
  min_sendable = 1000;
  max_sendable = 900000;
  comment_allowed = 10;
}

lnurl_pay_is_guarded_example :
    Outcome
      (λ c.
        (c ≡ Call.lnurl_pay request_data (as_sats 21).msats (some "thanks"))
        × IsAllowed (some "thanks") 10)
      sample_world
      (pay sample_support 7 request_data 21 (some "thanks") sample_world)
lnurl_pay_is_guarded_example =
    lnurl_pay_is_guarded sample_support 7 request_data 21 (some "thanks") sample_world
