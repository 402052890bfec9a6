-- ===== src/DataStore/Payments.antt =====
-- What `retrieve_payment_info` reads of what `store_payment_info` wrote.
use lipa_lightning_lib.Prelude.{
  ℕ, String, ◌≡◌, refl, Option, none, some, List, [], ◌∷◌, ok, arith, str_eq, eq_iff, find, or_else,
  map_option, find-replace, str_eq_refl,
}
use lipa_lightning_lib.Config.{UserPreferences, ExchangeRate}
use lipa_lightning_lib.Offer.{Offer, from_offer_error, to_offer_error}
use lipa_lightning_lib.Db.{
  PaymentRow, HistoryRow, OfferRow, Tables, insert_payment, insert_offer, is_rate_of, find_payment,
  find_history, find_offer,
}
use lipa_lightning_lib.Db.Connection.{DataStore, statement}
use lipa_lightning_lib.DataStore.{
  LocalPaymentData, payment_row, offer_row, store_payment_info, local_payment_data, offer_of,
  exchange_rate_of, select_payment_info, retrieve_payment_info,
}
use lipa_lightning_lib.DataStore.Stored.{
  history_row, add_rates, add_offer, snapshot_of, stored, rate_for, find_history-add_rates,
  store_payment_info-tables,
}

-- An offer as it is read back: its error through its text, and without the payout fee.
abbrev pub read_back : Offer → Offer
read_back o = record o {
  lightning_payout_fee = none;
  error = to_offer_error (from_offer_error o.error);
}

-- The rate that a payment is shown with: of an earlier snapshot of the same second if there is one,
-- and otherwise the first given rate of the user's currency; none if no rate was given.
abbrev pub snapshot_rate : ℕ → String → List ExchangeRate → List HistoryRow → Option ExchangeRate
snapshot_rate now currency [] rows = none
snapshot_rate now currency (r ∷ rates) rows =
    or_else
      (map_option
        (λ (h : HistoryRow). record {
          currency_code = currency;
          rate = h.rate;
          updated_at = h.updated_at;
        })
        (find (is_rate_of now currency) rows))
      (find (λ x. str_eq x.currency_code currency) (r ∷ rates))

pub retrieve-eq-select :
    (hash : String) (s : DataStore) {r : Option LocalPaymentData}
    → (retrieve_payment_info hash s).0 ≡ ok r
    → r ≡ select_payment_info hash s.tables
unfolding retrieve_payment_info statement
retrieve-eq-select hash s h = ground arith

pub stored_payment :
    (row : PaymentRow) (rows : List PaymentRow)
    → find_payment row.hash (insert_payment row rows) ≡ some row
unfolding find_payment insert_payment
stored_payment row rows = find-replace (λ r. str_eq r.hash row.hash) rows row (str_eq_refl row.hash)

stored_offer :
    (hash : String) (offer : Option Offer) (rows : List OfferRow)
    → offer_of (find_offer hash (add_offer hash offer rows))
      ≡ or_else (map_option read_back offer) (offer_of (find_offer hash rows))
stored_offer hash none rows = refl
stored_offer hash (some o) rows =
    unfold find_offer insert_offer offer_of offer_row in
    rw (
      find-replace (λ (r : OfferRow). str_eq r.payment_hash hash) rows (offer_row hash o)
        (str_eq_refl hash))

rate_of_row :
    (now : ℕ) (c : String) (rates : List ExchangeRate)
    → exchange_rate_of (some c) (map_option (history_row now) (rate_for c rates)) ≡ rate_for c rates
unfolding exchange_rate_of
rate_of_row now c [] = refl
rate_of_row now c (r ∷ rates) = ground (arith, eq_iff r.currency_code c, rate_of_row now c rates)

stored_rate :
    (now : ℕ) (currency : String) (rates : List ExchangeRate) (rows : List HistoryRow)
    → exchange_rate_of
        (some currency)
        (find_history (snapshot_of now rates) (some currency) (add_rates now rates rows))
      ≡ snapshot_rate now currency rates rows
unfolding exchange_rate_of find_history
stored_rate now currency [] rows = refl
stored_rate now currency (r ∷ rates) rows =
    rw (find_history-add_rates now (r ∷ rates) rows currency)
      (ground (arith, rate_of_row now currency (r ∷ rates)))

select-stored :
    (now : ℕ) (hash : String) (prefs : UserPreferences) (rates : List ExchangeRate)
    (offer : Option Offer) (on comment : Option String) (t : Tables)
    → select_payment_info hash (stored now hash prefs rates offer on comment t)
      ≡ some (record {
        user_preferences = some prefs;
        exchange_rate = snapshot_rate now prefs.fiat_currency rates t.history;
        offer = or_else (map_option read_back offer) (offer_of (find_offer hash t.offers));
        personal_note = none;
        received_on = on;
        received_lnurl_comment = comment;
      })
unfolding select_payment_info stored local_payment_data payment_row
select-stored now hash prefs rates offer on comment t =
    let row = payment_row hash prefs (snapshot_of now rates) on comment in
    rw (stored_payment row t.payments, select_payment_info)
      (rw (stored_offer hash offer t.offers, stored_rate now prefs.fiat_currency rates t.history)
        refl)

-- After a `store_payment_info` that succeeds, a `retrieve_payment_info` of the same hash that
-- succeeds returns the given preferences, recipient and comment, the rate of `snapshot_rate`, the
-- given offer as it is read back (or, if none is given, the offer that the hash had before), and no
-- personal note, whatever the store held before.
pub retrieve-store_payment_info :
    (now : ℕ) (hash : String) (prefs : UserPreferences) (rates : List ExchangeRate)
    (offer : Option Offer) (on comment : Option String) (s : DataStore)
    {r : Option LocalPaymentData}
    → (store_payment_info now hash prefs rates offer on comment s).0 ≡ ok tt
    → (retrieve_payment_info hash (store_payment_info now hash prefs rates offer on comment s).1).0
      ≡ ok r
    → r
      ≡ some (record {
        user_preferences = some prefs;
        exchange_rate = snapshot_rate now prefs.fiat_currency rates s.tables.history;
        offer = or_else (map_option read_back offer) (offer_of (find_offer hash s.tables.offers));
        personal_note = none;
        received_on = on;
        received_lnurl_comment = comment;
      })
retrieve-store_payment_info now hash prefs rates offer on comment s h k =
    let s' = (store_payment_info now hash prefs rates offer on comment s).1 in
    cc (
      store_payment_info-tables now hash prefs rates offer on comment s h,
      retrieve-eq-select hash s' k,
      select-stored now hash prefs rates offer on comment s.tables,
    )
