-- ===== src/Start/Currency.antt =====
-- The fiat currency of a node that starts.
use lipa_lightning_lib.Prelude.{Bool}
use lipa_lightning_lib.Prelude.{
  String, ◌≡◌, refl, sym, ap, ◌∙◌, Option, none, some, List, Result, ok, err, panic, arith, or_err,
  permanent_failure, invalid_input, replace_once,
}
use lipa_lightning_lib.Prelude.Exec.{pure, lift, continue, ◌>>=◌, >>=-ok}
use lipa_lightning_lib.Errors.{LibError}
use lipa_lightning_lib.Db.{Tables, last}
use lipa_lightning_lib.Db.Connection.{statement, query}
use lipa_lightning_lib.DataStore.Settings.{
  last-append, store_selected_fiat_currency, retrieve_last_set_fiat_currency,
  retrieve_analytics_config,
}
use lipa_lightning_lib.DataStore.{get_all_exchange_rates}
use lipa_lightning_lib.KeyDerivation.{
  Bip32, derive_analytics_key, derive_persistence_encryption_key,
}
use lipa_lightning_lib.Sdk.{Sdk, Services, Call, World, ask, on_store}
use lipa_lightning_lib.Support.{Lib, request, node_unavailable, auth_service_unavailable}
use lipa_lightning_lib.Webhook.{WebhookConfig, register_webhook_url}
use lipa_lightning_lib.Start.{
  StartConfig, StartedNode, prepare, initial_currency, currency_or_default, connect_first_lsp,
  ensure_lsp_of, connect_sdk, first_lsp, start_with, new_node,
}

record KeepsTables {A : Type 0} (m : Lib A) : Type 0 where
  at : (w : World) → (m w).1.store.tables ≡ w.store.tables

keep-continue :
    {A B : Type 0} (r : Result LibError A) (f : A → Lib B) (w : World)
    → ((a : A) → KeepsTables (f a))
    → (continue r f w).1.store.tables ≡ w.store.tables
keep-continue (ok a) f w h = (h a).at w
keep-continue (err e) f w h = refl
keep-continue panic f w h = refl

KeepsTables-bind :
    {A B : Type 0} (m : Lib A) (f : A → Lib B)
    → KeepsTables m
    → ((a : A) → KeepsTables (f a))
    → KeepsTables (m >>= f)
KeepsTables-bind m f h k = record { at = λ w. keep-continue (m w).0 f (m w).1 k ∙ h.at w }

keep_lift : {A : Type 0} (r : Result LibError A) → KeepsTables (lift r)
keep_lift r = record { at = λ w. refl }

keep_ask : {A : Type 0} (c : Call) (answer : List Call → A) → KeepsTables (ask c answer)
unfolding ask
keep_ask c answer = record { at = λ w. refl }

keep_query : {A : Type 0} (e : LibError) (run : Tables → A) → KeepsTables (on_store (query e run))
unfolding on_store statement
keep_query e run = record { at = λ w. ground arith }

keep_analytics : KeepsTables (on_store retrieve_analytics_config)
unfolding on_store retrieve_analytics_config statement
keep_analytics = record { at = λ w. ground arith }

keep_rates : KeepsTables (on_store get_all_exchange_rates)
unfolding get_all_exchange_rates
keep_rates = keep_query permanent_failure (λ t. t.rates)

keep_request :
    (c : Call) (answer : List Call → Bool) (e : LibError) → KeepsTables (request c answer e)
unfolding request ask
keep_request c answer e = record { at = λ w. ground arith }

lift_then :
    {A B : Type 0} (r : Result LibError A) (f : A → Lib B)
    → ((a : A) → KeepsTables (f a))
    → KeepsTables (lift r >>= f)
lift_then r f h = KeepsTables-bind (lift r) f (keep_lift r) h

ask_then :
    {A B : Type 0} (c : Call) (answer : List Call → A) (f : A → Lib B)
    → ((a : A) → KeepsTables (f a))
    → KeepsTables (ask c answer >>= f)
ask_then c answer f h = KeepsTables-bind (ask c answer) f (keep_ask c answer) h

module _ (sdk : Sdk) where
  keep_first_lsp : KeepsTables (connect_first_lsp sdk)
  unfolding connect_first_lsp
  keep_first_lsp = ask_then Call.list_lsps sdk.answer_list_lsps _ λ listed.
      lift_then (or_err listed node_unavailable) _ λ lsps.
        lift_then (or_err (first_lsp lsps) node_unavailable) _
          λ lsp. keep_request (Call.connect_lsp lsp) sdk.answer_connect_lsp node_unavailable

  keep_ensure_lsp : (o : Option String) → KeepsTables (ensure_lsp_of sdk o)
  unfolding ensure_lsp_of
  keep_ensure_lsp (some lsp) = record { at = λ w. refl }
  keep_ensure_lsp none = keep_first_lsp

  keep_connect : KeepsTables (connect_sdk sdk)
  unfolding connect_sdk
  keep_connect = ask_then Call.start_sdk sdk.answer_start_sdk _ λ started. lift_then started _ λ _.
      ask_then Call.lsp_id sdk.answer_lsp_id _
        λ answer. lift_then (or_err answer node_unavailable) _ λ o. keep_ensure_lsp o

  keep_webhook :
      (services : Services) (c : WebhookConfig) → KeepsTables (register_webhook_url sdk services c)
  unfolding register_webhook_url
  keep_webhook services c =
      ask_then Call.get_wallet_pubkey_id services.answer_get_wallet_pubkey_id _ λ answer.
        lift_then (or_err answer auth_service_unavailable) _ λ id.
          lift_then (or_err (c.key_of c.notification_webhook_secret_hex) invalid_input) _ λ key.
            lift_then (or_err (c.encrypted_id id key) permanent_failure) _ λ encrypted_id.
              keep_request
                (Call.register_webhook
                  (replace_once "{id}" encrypted_id c.notification_webhook_base_url))
                sdk.answer_register_webhook node_unavailable

-- What the start with a currency keeps, and gives.
record Ends (currency : String) (m : Lib StartedNode) : Type 0 where
  at :
      (w : World) {node : StartedNode}
      → (m w).0 ≡ ok node
      → ((m w).1.store.tables ≡ w.store.tables) × (node.user_preferences.fiat_currency ≡ currency)

Ends-after :
    {A : Type 0} (currency : String) (m : Lib A) (f : A → Lib StartedNode)
    → KeepsTables m
    → ((a : A) → Ends currency (f a))
    → Ends currency (m >>= f)
Ends-after currency m f k h = record {
  at = λ w e.
      let (a, p, q, same) = >>=-ok m f w e in
      let (t, c) = (h a).at (m w).1 q in (ap (λ r. r.1.store.tables) same ∙ t ∙ k.at w, c);
}

ok_injective : {A : Type 0} {a b : A} → Path (Result LibError A) (ok a) (ok b) → a ≡ b
ok_injective h = cc

read_currency_lem :
    (w : World) {o : Option String}
    → (on_store retrieve_last_set_fiat_currency w).0 ≡ ok o
    → o ≡ last (on_store retrieve_last_set_fiat_currency w).1.store.tables.fiat_currencies
unfolding on_store retrieve_last_set_fiat_currency statement
read_currency_lem w h = ground arith

stored_currency_lem :
    (currency : String) (w : World)
    → (on_store (store_selected_fiat_currency currency) w).0 ≡ ok tt
    → last (on_store (store_selected_fiat_currency currency) w).1.store.tables.fiat_currencies
      ≡ some currency
unfolding on_store store_selected_fiat_currency statement
stored_currency_lem currency w h =
    ground (arith, last-append w.store.tables.fiat_currencies currency)

stored_or_default :
    (default_currency : String) (o : Option String) (w : World) {c : String}
    → o ≡ last w.store.tables.fiat_currencies
    → (currency_or_default default_currency o w).0 ≡ ok c
    → last (currency_or_default default_currency o w).1.store.tables.fiat_currencies ≡ some c
unfolding currency_or_default
stored_or_default default_currency (some d) w {c} e h =
    let same : d ≡ c = cc in sym e ∙ ap some same
stored_or_default default_currency none w {c} e h =
    let (u, p, q, same) =
      >>=-ok (on_store (store_selected_fiat_currency default_currency)) (λ _. pure default_currency)
        w h in
    ap (λ m. last m.1.store.tables.fiat_currencies) same
    ∙ stored_currency_lem default_currency w p
    ∙ ap some (ok_injective q)

currency_stored :
    (default_currency : String) (w : World) {c : String}
    → (initial_currency default_currency w).0 ≡ ok c
    → last (initial_currency default_currency w).1.store.tables.fiat_currencies ≡ some c
unfolding initial_currency
currency_stored default_currency w h =
    let (o, p, q, same) =
      >>=-ok (on_store retrieve_last_set_fiat_currency) (currency_or_default default_currency) w
        h in
    ap (λ m. last m.1.store.tables.fiat_currencies) same
    ∙ stored_or_default default_currency o (on_store retrieve_last_set_fiat_currency w).1
        (read_currency_lem w p) q

abbrev pub value_or : String → Option String → String
value_or d none = d
value_or d (some c) = c

read_before_lem :
    (w : World) {o : Option String}
    → (on_store retrieve_last_set_fiat_currency w).0 ≡ ok o
    → o ≡ last w.store.tables.fiat_currencies
unfolding on_store retrieve_last_set_fiat_currency statement
read_before_lem w h = ground arith

chosen_or_default :
    (default_currency : String) (o : Option String) (w : World) {c : String}
    → (currency_or_default default_currency o w).0 ≡ ok c
    → c ≡ value_or default_currency o
unfolding currency_or_default
chosen_or_default default_currency (some d) w h = cc
chosen_or_default default_currency none w h =
    let (u, p, q, same) =
      >>=-ok (on_store (store_selected_fiat_currency default_currency)) (λ _. pure default_currency)
        w h in
    sym (ok_injective q)

currency_chosen :
    (default_currency : String) (w : World) {c : String}
    → (initial_currency default_currency w).0 ≡ ok c
    → c ≡ value_or default_currency (last w.store.tables.fiat_currencies)
unfolding initial_currency
currency_chosen default_currency w h =
    let (o, p, q, same) =
      >>=-ok (on_store retrieve_last_set_fiat_currency) (currency_or_default default_currency) w
        h in
    chosen_or_default default_currency o (on_store retrieve_last_set_fiat_currency w).1 q
    ∙ ap (value_or default_currency) (read_before_lem w p)

module _ (bip32 : Bip32) (sdk : Sdk) (services : Services) (c : StartConfig) where
  start_with-Ends : (currency : String) → Ends currency (start_with bip32 sdk services c currency)
  unfolding start_with
  start_with-Ends currency =
      Ends-after currency (lift (derive_analytics_key bip32 c.seed)) _ (keep_lift _) λ _.
        Ends-after currency (on_store retrieve_analytics_config) _ keep_analytics λ _.
          Ends-after currency (connect_sdk sdk) _ (keep_connect sdk) λ _.
            Ends-after currency (lift (derive_persistence_encryption_key bip32 c.seed)) _
              (keep_lift _)
              λ _. Ends-after currency (on_store get_all_exchange_rates) _ keep_rates λ _.
                Ends-after currency (register_webhook_url sdk services c.webhook) _
                  (keep_webhook sdk services c.webhook)
                  λ _. record {
                    at = λ w e. (
                      refl,
                      sym (
                          ap (λ (n : StartedNode). n.user_preferences.fiat_currency)
                            (ok_injective e)),
                    );
                  }

  -- A node that has started shows amounts in the fiat currency that the database held as the last one that
  -- was set, or in the default currency if it held none; and the database holds that currency as the last
  -- one afterwards.
  pub started_currency_is_stored :
      (w : World) {node : StartedNode}
      → (new_node bip32 sdk services c w).0 ≡ ok node
      → (node.user_preferences.fiat_currency
          ≡ value_or c.default_fiat_currency (last w.store.tables.fiat_currencies))
        × (last (new_node bip32 sdk services c w).1.store.tables.fiat_currencies
            ≡ some node.user_preferences.fiat_currency)
  unfolding new_node
  started_currency_is_stored w h =
      let (u, p, q, first) =
        >>=-ok (lift (prepare c))
          (λ _. initial_currency c.default_fiat_currency >>= start_with bip32 sdk services c) w h in
      let (currency, r, s, second) =
        >>=-ok (initial_currency c.default_fiat_currency) (start_with bip32 sdk services c) w q in
      let (t, shown) =
        (start_with-Ends currency).at (initial_currency c.default_fiat_currency w).1 s in
      (
        shown ∙ currency_chosen c.default_fiat_currency w r,
        ap (λ m. last m.1.store.tables.fiat_currencies) (first ∙ second)
            ∙ ap (λ (t : Tables). last t.fiat_currencies) t
            ∙ currency_stored c.default_fiat_currency w r
            ∙ ap some (sym shown),
      )
