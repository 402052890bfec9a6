-- ===== src/FiatTopup/Uncompleted.antt =====
-- src/fiat_topup.rs: the offers that are not completed.
use lipa_lightning_lib.Prelude.{some}
use lipa_lightning_lib.Prelude.{false, Option, List, [], ◌∷◌, or_err, or_panic, filter}
use lipa_lightning_lib.Prelude.Exec.{pure, lift, ◌>>=◌}
use lipa_lightning_lib.Config.{ExchangeRate}
use lipa_lightning_lib.Offer.{OfferInfo, TopupInfo, offer_info_from}
use lipa_lightning_lib.Payment.Conversion.{Parsers}
use lipa_lightning_lib.Activities.Lookup.{valid_activities}
use lipa_lightning_lib.SdkPayment.{SdkPayment, received}
use lipa_lightning_lib.Sdk.{Call, ask}
use lipa_lightning_lib.Support.{Support, Lib, node_unavailable, get_exchange_rate}
use lipa_lightning_lib.FiatTopup.{filter_out_recently_claimed_topups}
use lipa_lightning_lib.FiatTopup.Setup.{offer_service_unavailable}
use lipa_lightning_lib.Notifications.Waiting.{is_complete}

unfoldable pub offer_infos : Option ExchangeRate → List TopupInfo → Lib (List OfferInfo)
offer_infos rate [] = pure []
offer_infos rate (t ∷ topups) = do
  offer ← lift (or_panic (offer_info_from t rate))
  rest ← offer_infos rate topups
  pure (offer ∷ rest)

unfoldable pub query_uncompleted_offers : Parsers → Support → Lib (List OfferInfo)
unfolding offer_infos
query_uncompleted_offers parsers sup = do
  topups ← ask Call.query_uncompleted_topups sup.services.answer_query_uncompleted_topups
  topup_infos ← lift (or_err topups offer_service_unavailable)
  answer ← ask (Call.list_payments (received ∷ []) false (some 5)) sup.sdk.answer_list_payments
  payments ← lift (or_err answer node_unavailable)
  latest_activities ←
      valid_activities parsers sup (filter (λ (p : SdkPayment). is_complete p.status) payments)
  offer_infos (get_exchange_rate sup)
      (filter_out_recently_claimed_topups topup_infos latest_activities)
