-- ===== src/Lib.antt =====
-- lipa-lightning-lib
--
-- A library for wallets on top of the Breez SDK. The application calls operations on amounts,
-- payments and on-chain funds; the operations ask the SDK and lipa's services, and keep what
-- only the wallet knows in a local SQLite database. This development models the operations as
-- functions that pass the world along: the calls made to the SDK so far, and the data store.
--
-- The files:
--
--   - Prelude: shared names. Prelude/Exec is the monad of the code: an action returns ok, err or
--     panic together with the state, which keeps the changes made before a failure.
--     Prelude/Words has the wrapping arithmetic of u64 and u32, because the release profile of
--     Cargo.toml leaves overflow checks off.
--   - Config: values of src/node_config.rs and src/exchange_rate_provider.rs. Errors:
--     src/errors.rs.
--   - Amount: src/amount.rs. Amount/Bounds has the rounding to sats, Amount/Fiat the fiat
--     values.
--   - Offer: src/offer.rs and the texts of offer errors in src/data_store.rs, with
--     Offer/ErrorText on their round trips.
--   - Db: the tables of src/migrations.rs, with what their conflict clauses do. Db/Connection: a
--     connection on which any statement may fail, as a function of the number of statements
--     executed; Db/Connection/Reliable has the rules for one on which none does.
--   - DataStore: the methods of src/data_store.rs, one statement for each SQL statement;
--     DataStore/Settings the tables that are read at their last row. DataStore/Payments,
--     DataStore/Notes, DataStore/Rates and DataStore/Atomicity have the theorems.
--   - Sdk: the calls of the SDK that the code makes. Each answer is an arbitrary function of the
--     calls made before. Sdk/Broadcasts: actions that move no funds, and actions that do so
--     once.
--   - Support: src/support.rs, with Support/LspFee on the fee of the LSP.
--   - Onchain: src/onchain/. Onchain/Swap is swap.rs, Onchain/Resolving is mod.rs,
--     Onchain/ChannelClose is channel_closes.rs, Onchain/ReverseSwap is reverse_swap.rs;
--     Onchain/Quotes, Onchain/Guards and Onchain/Fees have the theorems.
--   - Lightning: src/lightning/mod.rs and src/lightning/receive_limits.rs, with Lightning/Fees
--     on routing fees.
--   - Payment: src/payment.rs and src/invoice_details.rs. Activity: src/activity.rs.
--   - Activities: src/activities.rs, with Activities/Listed on what is listed.
--   - Lightning/Bolt11: src/lightning/bolt11.rs, with Lightning/Bolt11/Guards on payments.
--   - FiatTopup: src/fiat_topup.rs, with FiatTopup/Offers on the topups that are offered.
--   - TaskManager: src/task_manager.rs, with TaskManager/Backup on the backup task beside other
--     code, and TaskManager/Health on the callback.
--   - SdkPayment: the SDK's payments, events and LNURL data.
--   - DataStore/Addresses: the lightning addresses of src/data_store.rs; DataStore/Addresses/Map
--     shows that they are a map from addresses to statuses. DataStore/Topups: the setup of the
--     fiat topup.
--   - UserConfig: src/config.rs, with UserConfig/FeatureFlags on what set_feature_flag does to
--     the addresses.
--   - PhoneNumber and LightningAddress: src/phone_number.rs and src/lightning_address.rs, with
--     PhoneNumber/RoundTrip on the conversion of numbers and addresses.
--   - Notifications: src/notification_handling.rs. Notifications/Waiting has the loops that wait
--     for a payment, Notifications/LnurlPay the request for an invoice; Notifications/Invoices,
--     Notifications/Payments and Notifications/Ending are on the invoices that are given out,
--     the payments that are taken for the awaited one, and the end of the loops. Webhook:
--     register_webhook_url of src/lib.rs.
--   - Event: src/event.rs and src/callbacks.rs. ActionsRequired: src/actions_required.rs, with
--     ActionsRequired/Hidden on the failed swaps that are listed.
--   - Lightning/Lnurl: src/lightning/lnurl.rs, with Lightning/Lnurl/Metadata on metadata and the
--     guard of a payment.
--   - FiatTopup/Setup and FiatTopup/Collection: the registration and the collection of
--     src/fiat_topup.rs.
--   - Payment/Conversion: PaymentInfo::new and its relatives in src/payment.rs, with the parsers
--     of invoices and of JSON as parameters.
--   - Activities/Conversion: the activities of the SDK's payments in src/activities.rs, with
--     Activities/Conversion/Hashes on the hash by which they are found. Activities/Lookup: get,
--     get_by_reverse_swap and the personal notes; Activities/Lookup/Found is on the activity
--     that get finds. FiatTopup/Uncompleted: query_uncompleted_offers of src/fiat_topup.rs.
--   - DataStore/Invoices: retrieve_created_invoices of src/data_store.rs, with
--     DataStore/Invoices/Listing on what it gives back. Activities/Collected: Activities::list,
--     with its calls.
--   - Parser: parser/src/lib.rs, with its grammars in Parser/PhoneNumber, Parser/Domain and
--     Parser/LightningAddress. Parser/Combinators: the combinators of nom as parameters, and
--     what the proofs use of them; Parser/Standard: concrete ones for which that holds.
--     Parser/Positions is on the positions of errors, Parser/Consuming and Parser/Numbers have
--     lemmas.
--   - PhoneNumber/Prefix: PhoneNumberPrefixParser of src/phone_number.rs;
--     PhoneNumber/Prefix/Verdicts is on what its verdicts mean for what is typed next, with
--     lemmas in PhoneNumber/Prefix/Continued.
--   - SymmetricEncryption: src/symmetric_encryption.rs, with SymmetricEncryption/RoundTrip.
--     KeyDerivation: src/key_derivation.rs.
--   - Backup: src/backup.rs and src/recovery.rs; Backup/Recovered is on what a recovery leaves
--     on the device.
--   - Recipients: list_recipients of src/lib.rs, with Recipients/Recent on what it lists and
--     Recipients/Order on the order it sorts by; Prelude/Sorting has the sort of the standard
--     library.
--   - Analytics: src/analytics.rs, with Analytics/Reported on what is reported of the events of
--     the SDK.
--   - Util: src/util.rs, with Util/Replaced on the replacement of byte arrays.
--   - Start: LightningNode::new of src/lib.rs; Start/Currency is on the currency that a started
--     node shows.
--   - Facade: parse_lightning_address of src/lib.rs, with Facade/Positions on the positions that
--     the application is told.
--   - Support/Gives: what is known of the result of a call, where it gives one; Support/FeeOf:
--     the fee of the provider in sats, apart from the code. DataStore/Invoices/Hashes: the hash
--     of the created invoice that is read by its hash.
--   - Sample: the node on which the theorems are tried, in the modules named Examples.
--
-- Bounds: the two loops that wait for a payment take fuel, and their outcome tells when it is
-- spent; one of the results says which fuel is enough. Every other loop of the modelled code is
-- over a list or a text. Numbers are unbounded where a theorem does not say otherwise, and every
-- sum, difference and product of the code wraps as the machine's does; a theorem that needs a
-- value to fit has that as a hypothesis.
--
-- Not modelled: the SDK and lipa's services (their answers are parameters), logging, the texts
-- of errors, threads and locks (an operation runs to its end; caches are read as they are when
-- it begins), ciphers, hashes and the derivation of keys (parameters), and the parts of the
-- library that the list of files does not name.
mod Prelude
pub mod Config
pub mod Errors
pub mod Amount
pub mod Offer
pub mod Db
pub mod DataStore
pub mod Sdk
pub mod SdkPayment
pub mod Support
pub mod Onchain
mod Sample
pub mod Lightning
pub mod Payment
pub mod Activity
pub mod Activities
pub mod FiatTopup
pub mod TaskManager
pub mod UserConfig
pub mod SymmetricEncryption
pub mod KeyDerivation
pub mod Backup
pub mod Parser
pub mod PhoneNumber
pub mod LightningAddress
pub mod Webhook
pub mod Notifications
pub mod Event
pub mod ActionsRequired
pub mod Recipients
pub mod Analytics
pub mod Util
pub mod Start
pub mod Facade
