-- ===== src/Util.antt =====
-- src/util.rs. The SDK's `parse` of an input, the crates `hex` and `uuid`, and the regular expression that
-- finds byte arrays in a text are parameters.
pub mod Replaced
mod Examples
use lipa_lightning_lib.Prelude.{is_ascii_digit, str_eq}
use Prim.Native.Char.{code}
use lipa_lightning_lib.Prelude.{bind_option, ◌-◌}
use lipa_lightning_lib.Prelude.{leb, map, same_char, ◌+◌, ◌==◌}
use lipa_lightning_lib.Prelude.{
  Char, if◌then◌else◌, strip_prefix_char, trim, utf8_bytes, ◌*◌, ◌>>=?◌,
}
use lipa_lightning_lib.Prelude.{
  ℕ, String, Option, none, some, List, [], ◌∷◌, Result, ok, err, panic, runtime_error,
  permanent_failure, invalid_input, or_err, text_append, map_option,
}
use lipa_lightning_lib.Prelude.Exec.{Exec, pure, lift, ◌>>=◌}
use lipa_lightning_lib.Config.{ExchangeRate}
use lipa_lightning_lib.Errors.{RuntimeErrorCode, LibError}
use lipa_lightning_lib.Payment.{LnInvoice, InvoiceDetails, from_ln_invoice}
use lipa_lightning_lib.SdkPayment.{LnUrlPayRequestData, LnUrlWithdrawRequestData}
use lipa_lightning_lib.Lightning.Lnurl.{
  MetadataItem, MetadataError, LnUrlPayDetails, from_lnurl_pay_request_data, LnUrlWithdrawDetails,
  from_lnurl_withdraw_request_data,
}
use lipa_lightning_lib.SymmetricEncryption.{Bytes}
use lipa_lightning_lib.Sdk.{Call, ask}
use lipa_lightning_lib.Support.{Support, Lib, get_exchange_rate}

pub data Network : Type 0 where
  bitcoin testnet signet regtest : Network

-- the SDK's `InputType`; an address is its text, and the data that are not read are left out
pub data InputType : Type 0 where
  bolt11 : Network → LnInvoice → InputType
  lnurl_pay : LnUrlPayRequestData → InputType
  bitcoin_address lnurl_error : String → InputType
  lnurl_withdraw : LnUrlWithdrawRequestData → InputType
  lnurl_auth node_id url : InputType

pub data UnsupportedDataType : Type 0 where
  unsupported_lnurl_auth unsupported_node_id unsupported_url : UnsupportedDataType
  unsupported_network : Network → UnsupportedDataType

pub data DecodeDataError : Type 0 where
  lnurl_error_of : String → DecodeDataError
  unsupported : UnsupportedDataType → DecodeDataError
  unrecognized : DecodeDataError
  -- an LNURL error as well, with the message of `parse_metadata`
  bad_metadata : MetadataError → DecodeDataError

pub data DecodedData : Type 0 where
  bolt11_invoice : InvoiceDetails → DecodedData
  lnurl_pay_data : LnUrlPayDetails → DecodedData
  lnurl_withdraw_data : LnUrlWithdrawDetails → DecodedData
  onchain_address : String → DecodedData

-- a conversion panics at a rate of 0
unfoldable pub or_panics :
    {A : Type 0} → (A → DecodedData) → Option A → Result DecodeDataError DecodedData
or_panics f none = panic
or_panics f (some a) = ok (f a)

unfoldable pub pay_data : Result MetadataError LnUrlPayDetails → Result DecodeDataError DecodedData
pay_data (ok d) = ok (lnurl_pay_data d)
pay_data (err e) = err (bad_metadata e)
pay_data panic = panic

unfoldable pub decode_input :
    (String → Option (List MetadataItem))
    → Option ExchangeRate
    → Option InputType
    → Result DecodeDataError DecodedData
unfolding or_panics pay_data
decode_input items_of rate (some (bolt11 bitcoin invoice)) =
    or_panics bolt11_invoice (from_ln_invoice invoice rate)
decode_input items_of rate (some (bolt11 testnet invoice)) =
    err (unsupported (unsupported_network testnet))
decode_input items_of rate (some (bolt11 signet invoice)) =
    err (unsupported (unsupported_network signet))
decode_input items_of rate (some (bolt11 regtest invoice)) =
    err (unsupported (unsupported_network regtest))
decode_input items_of rate (some (lnurl_pay data_)) =
    pay_data (from_lnurl_pay_request_data items_of data_ rate)
decode_input items_of rate (some (bitcoin_address address)) = ok (onchain_address address)
decode_input items_of rate (some lnurl_auth) = err (unsupported unsupported_lnurl_auth)
decode_input items_of rate (some (lnurl_error reason)) = err (lnurl_error_of reason)
decode_input items_of rate (some (lnurl_withdraw data_)) =
    or_panics lnurl_withdraw_data (from_lnurl_withdraw_request_data data_ rate)
decode_input items_of rate (some node_id) = err (unsupported unsupported_node_id)
decode_input items_of rate (some url) = err (unsupported unsupported_url)
decode_input items_of rate none = err unrecognized

-- with what `parse` makes of the text
unfoldable pub decode_data :
    (String → Option InputType)
    → (String → Option (List MetadataItem))
    → Support
    → String
    → Result DecodeDataError DecodedData
unfolding decode_input
decode_data parse items_of sup data_ = decode_input items_of (get_exchange_rate sup) (parse data_)

unfoldable pub query_wallet_pubkey_id : Support → Lib String
query_wallet_pubkey_id sup = do
  answer ← ask Call.get_wallet_pubkey_id sup.services.answer_get_wallet_pubkey_id
  lift (or_err answer (runtime_error RuntimeErrorCode.auth_service_unavailable))

-- `derive_payment_uuid`: `decode_hex` and `new_v5` are of the crates
unfoldable pub derive_payment_uuid :
    (String → Option Bytes) → (Bytes → String) → String → Result LibError String
derive_payment_uuid decode_hex new_v5 payment_hash =
    or_err (map_option new_v5 (decode_hex payment_hash)) invalid_input

-- a match of the regular expression: its bytes in the text, and its group
pub record Capture : Type 0 where
  pub start : ℕ
  pub end : ℕ
  pub group : Option String

-- `str::get`: nothing beyond the end, or within a character
unfoldable pub drop_bytes : ℕ → String → Option String
drop_bytes n String.[] = if n == 0 then some String.[] else none
drop_bytes n (String.◌∷◌ c s) =
    let rest = drop_bytes (n - utf8_bytes c) s in
    if n == 0 then some (String.◌∷◌ c s) else if leb (utf8_bytes c) n then rest else none

unfoldable pub take_bytes : ℕ → String → Option String
take_bytes n String.[] = if n == 0 then some String.[] else none
take_bytes n (String.◌∷◌ c s) =
    let rest = take_bytes (n - utf8_bytes c) s in
    if n == 0
    then some String.[]
    else if leb (utf8_bytes c) n
    then map_option (String.◌∷◌ c) rest
    else none

unfoldable pub get_range : ℕ → ℕ → String → Option String
unfolding drop_bytes take_bytes
get_range from to s =
    if leb from to then bind_option (drop_bytes from s) (take_bytes (to - from)) else none

-- `split`
unfoldable pub push_char : Char → List String → List String
push_char c [] = []
push_char c (s ∷ rest) = String.◌∷◌ c s ∷ rest

unfoldable pub split_on : Char → String → List String
unfolding push_char
split_on c String.[] = String.[] ∷ []
split_on c (String.◌∷◌ d s) =
    let rest = split_on c s in if same_char d c then String.[] ∷ rest else push_char d rest

-- `parse::<u8>`
unfoldable pub parse_digits : ℕ → String → Option ℕ
parse_digits n String.[] = some n
parse_digits n (String.◌∷◌ c s) =
    let m = n * 10 + (code c - 48) in
    let rest = parse_digits m s in
    if is_ascii_digit c then if leb m 255 then rest else none else none

unfoldable pub parse_u8 : String → Option ℕ
unfolding parse_digits strip_prefix_char
parse_u8 s =
    let digits : String = elim (strip_prefix_char "+" s) [ none ↦ s | some rest ↦ rest ] in
    if str_eq digits "" then none else parse_digits 0 digits

-- `collect` of results
unfoldable pub collect : List (Option ℕ) → Option Bytes
collect [] = some []
collect (none ∷ rest) = none
collect (some b ∷ rest) = let bytes = collect rest in map_option (λ l. b ∷ l) bytes

-- An error here is only logged, and is `none`.
module _ (encode_hex : Bytes → String) where
  -- the replacement of the group of a match
  unfoldable pub hex_of : Option String → Option String
  unfolding split_on parse_u8 collect trim
  hex_of group =
      bind_option group
        (λ g. map_option encode_hex (collect (map (λ b. parse_u8 (trim b)) (split_on "," g))))

  -- the loop of `replace_all`, from `last_match`
  unfoldable pub replace_all : String → ℕ → List Capture → Option String
  unfolding hex_of get_range drop_bytes
  replace_all original last_match [] = drop_bytes last_match original
  replace_all original last_match (m ∷ captures) =
      let rest = replace_all original m.end captures in
      bind_option (get_range last_match m.start original) (λ subslice.
        bind_option (hex_of m.group) (λ hex.
          map_option
            (λ t. text_append subslice (text_append "\"" (text_append hex (text_append "\"" t))))
            rest))

  -- `replace_byte_arrays_by_hex_string`, with the matches of the regular expression
  unfoldable pub replace_byte_arrays_by_hex_string : (String → List Capture) → String → String
  unfolding replace_all
  replace_byte_arrays_by_hex_string captures_iter original =
      elim (replace_all original 0 (captures_iter original)) [ none ↦ original | some new ↦ new ]
