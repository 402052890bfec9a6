-- ===== src/Db.antt =====
-- src/migrations.rs: the tables that the migrations leave, as lists of rows in the order of their
-- row ids, and the statements that the program runs on them. A column that may be NULL is an
-- `Option`; no comparison holds of NULL.
pub mod Connection
use lipa_lightning_lib.Prelude.{
  ℕ, ℤ, String, Bool, true, false, not, ◌&&◌, Option, none, some, List, [], ◌∷◌, ◌++◌, str_eq, ◌==◌,
  if◌then◌else◌, filter, find, any, map, leb, ltb,
}
use lipa_lightning_lib.Config.{ExchangeRate}

pub record PaymentRow : Type 0 where
  pub hash : String
  pub timezone_id : Option String
  pub timezone_utc_offset_secs : Option ℤ
  pub fiat_currency : Option String
  pub exchange_rates_history_snapshot_id : Option ℕ
  pub personal_note : Option String
  pub received_on : Option String
  pub received_lnurl_comment : Option String

pub record HistoryRow : Type 0 where
  pub snapshot_id : ℕ
  pub fiat_currency : String
  pub rate : ℕ
  pub updated_at : ℕ

pub record OfferRow : Type 0 where
  pub payment_hash : String
  pub pocket_id : Option String
  pub exchange_rate : ExchangeRate
  pub topup_value_minor_units : ℕ
  pub exchange_fee_minor_units : ℕ
  pub exchange_fee_rate_permyriad : ℕ
  pub error : Option String
  pub topup_value_sats : Option ℕ

pub record InvoiceRow : Type 0 where
  pub hash : String
  pub invoice : String
  pub channel_opening_fees : Option ℕ
  pub invoice_expiry_timestamp : ℕ

pub record LightningAddressRow : Type 0 where
  pub address : String
  pub registered_at : ℕ
  pub enable_status : ℕ  -- u8

-- `FiatTopupSetupInfo` of src/fiat_topup.rs
pub record FiatTopupSetupInfo : Type 0 where
  pub order_id : String
  pub debitor_iban : String
  pub creditor_reference : String
  pub creditor_iban : String
  pub creditor_bank_name : String
  pub creditor_bank_street : String
  pub creditor_bank_postal_code : String
  pub creditor_bank_town : String
  pub creditor_bank_country : String
  pub creditor_bank_bic : String
  pub creditor_name : String
  pub creditor_street : String
  pub creditor_postal_code : String
  pub creditor_town : String
  pub creditor_country : String
  pub currency : String

-- a row of `fiat_topup_info`: the time it was stored, and the other columns
pub record FiatTopupRow : Type 0 where
  pub created_at : ℕ
  pub info : FiatTopupSetupInfo

pub record Tables : Type 0 where
  pub payments : List PaymentRow
  pub history : List HistoryRow
  pub offers : List OfferRow
  pub rates : List ExchangeRate
  pub invoices : List InvoiceRow
  pub hidden_channel_close_amounts : List ℕ
  pub hidden_failed_swaps : List String
  pub fiat_currencies : List String
  pub analytics : List ℕ
  pub lightning_addresses : List LightningAddressRow
  pub fiat_topup_info : List FiatTopupRow

-- The tables of a new database: migration 10 inserts the first analytics status.
abbrev pub migrated : Tables
migrated = record {
  payments = [];
  history = [];
  offers = [];
  rates = [];
  invoices = [];
  hidden_channel_close_amounts = [];
  hidden_failed_swaps = [];
  fiat_currencies = [];
  analytics = 0 ∷ [];
  lightning_addresses = [];
  fiat_topup_info = [];
}

-- INSERT INTO payments: the primary key `hash` replaces on conflict
unfoldable pub insert_payment : PaymentRow → List PaymentRow → List PaymentRow
insert_payment row rows = filter (λ r. not (str_eq r.hash row.hash)) rows ++ row ∷ []

-- WHERE snapshot_id = id AND fiat_currency = currency
abbrev pub is_rate_of : ℕ → String → HistoryRow → Bool
is_rate_of id currency r = r.snapshot_id == id && str_eq r.fiat_currency currency

-- INSERT INTO exchange_rates_history: UNIQUE(snapshot_id, fiat_currency) ignores on conflict
unfoldable pub insert_history : HistoryRow → List HistoryRow → List HistoryRow
insert_history row rows =
    if any (is_rate_of row.snapshot_id row.fiat_currency) rows then rows else rows ++ row ∷ []

-- INSERT INTO offers: the primary key `payment_hash` replaces on conflict
unfoldable pub insert_offer : OfferRow → List OfferRow → List OfferRow
insert_offer row rows = filter (λ r. not (str_eq r.payment_hash row.payment_hash)) rows ++ row ∷ []

-- REPLACE INTO exchange_rates, by the primary key `fiat_currency`
unfoldable pub replace_rate : ExchangeRate → List ExchangeRate → List ExchangeRate
replace_rate r rows = filter (λ x. not (str_eq x.currency_code r.currency_code)) rows ++ r ∷ []

unfoldable pub set_note : String → Option String → PaymentRow → PaymentRow
set_note hash note r = if str_eq r.hash hash then record r { personal_note = note } else r

-- UPDATE payments SET personal_note WHERE hash
unfoldable pub update_note : String → Option String → List PaymentRow → List PaymentRow
unfolding set_note
update_note hash note rows = map (set_note hash note) rows

-- INSERT OR REPLACE INTO lightning_addresses: UNIQUE(address)
unfoldable pub replace_address :
    LightningAddressRow → List LightningAddressRow → List LightningAddressRow
replace_address row rows = filter (λ r. not (str_eq r.address row.address)) rows ++ row ∷ []

unfoldable pub set_status : String → ℕ → LightningAddressRow → LightningAddressRow
set_status address status r =
    if str_eq r.address address then record r { enable_status = status } else r

-- ORDER BY: the rows before those of a later time, and those of one time in the order of row ids
unfoldable pub insert_address_by_time :
    LightningAddressRow → List LightningAddressRow → List LightningAddressRow
insert_address_by_time r [] = r ∷ []
insert_address_by_time r (x ∷ rows) =
    if leb r.registered_at x.registered_at then r ∷ x ∷ rows else x ∷ insert_address_by_time r rows

-- SELECT … FROM lightning_addresses ORDER BY registered_at
unfoldable pub order_by_registered_at : List LightningAddressRow → List LightningAddressRow
unfolding insert_address_by_time
order_by_registered_at [] = []
order_by_registered_at (r ∷ rows) = insert_address_by_time r (order_by_registered_at rows)

-- ORDER BY created_at DESC LIMIT 1, the first row among those of the latest time
unfoldable pub latest_topup : List FiatTopupRow → Option FiatTopupRow
latest_topup [] = none
latest_topup (r ∷ rows) =
    let rest = latest_topup rows in
    elim rest [ none ↦ some r | some x ↦ if ltb r.created_at x.created_at then some x else some r ]

abbrev pub has_payment : String → List PaymentRow → Bool
has_payment hash rows = any (λ r. str_eq r.hash hash) rows

-- SELECT … FROM payments WHERE hash, the first row
unfoldable pub find_payment : String → List PaymentRow → Option PaymentRow
find_payment hash rows = find (λ r. str_eq r.hash hash) rows

-- LEFT JOIN exchange_rates_history ON snapshot_id AND fiat_currency
unfoldable pub find_history : Option ℕ → Option String → List HistoryRow → Option HistoryRow
find_history none currency rows = none
find_history (some id) none rows = none
find_history (some id) (some currency) rows = find (is_rate_of id currency) rows

-- LEFT JOIN offers ON payment_hash
unfoldable pub find_offer : String → List OfferRow → Option OfferRow
find_offer hash rows = find (λ r. str_eq r.payment_hash hash) rows

-- ORDER BY id DESC LIMIT 1
abbrev pub last {ℓ} : {A : Type ℓ} → List A → Option A
last [] = none
last (x ∷ []) = some x
last (x ∷ y ∷ xs) = last (y ∷ xs)
