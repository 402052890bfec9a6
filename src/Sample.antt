-- ===== src/Sample.antt =====
-- A node, an SDK with fixed answers, and a store, on which the theorems are tried.
use lipa_lightning_lib.Prelude.{pos, true, false, none, some, [], ◌∷◌, ok, length}
use lipa_lightning_lib.Config.{ExchangeRate}
use lipa_lightning_lib.Db.{migrated}
use lipa_lightning_lib.Db.Connection.{DataStore, waiting_for_backup}
use lipa_lightning_lib.Sdk.{
  OpeningFeeParams, NodeState, SdkSwapInfo, PrepareOnchainPaymentResponse, RedeemOnchainError, Sdk,
  Services, World,
}
use lipa_lightning_lib.SdkPayment.{endpoint_success, error_status, event, synced}
use lipa_lightning_lib.Support.{Support}
use lipa_lightning_lib.Onchain.Swap.{FailedSwapInfo}

abbrev pub sample_store : DataStore
sample_store = record {
  tables = migrated;
  backup = migrated;
  backup_status = waiting_for_backup;
  executed = 0;
  fails = λ _. false;
}

abbrev pub sample_state : NodeState
sample_state = record {
  id = "node";
  connected_peers = [];
  onchain_balance_msat = 90000000;
  channels_balance_msat = 70000000;
  max_payable_msat = 60000000;
  max_receivable_single_payment_amount_msat = 20000000;
  total_inbound_liquidity_msats = 20000000;
  utxos = [];
}

abbrev pub sample_swap : SdkSwapInfo
sample_swap = record {
  bitcoin_address = "new";
  created_at = 7;
  confirmed_sats = 0;
  unconfirmed_sats = 0;
  refund_tx_ids = [];
  min_allowed_deposit = 5000;
  max_allowed_deposit = 1000000;
  payment_hash = "hash";
}

abbrev pub sample_params : OpeningFeeParams
sample_params = record { min_msat = 2000000; proportional = 4000 }

abbrev pub sample_payment : PrepareOnchainPaymentResponse
sample_payment = record {
  fees_claim = 300;
  fees_lockup = 200;
  total_fees = 900;
  sender_amount_sat = 60000;
}

abbrev pub sample_sdk : Sdk
sample_sdk = record {
  answer_node_info = λ _. some sample_state;
  node_info_error = λ _. RedeemOnchainError.generic;
  answer_recommended_half_hour_fee = λ _. some 12;
  answer_onchain_payment_limits =
      λ _. some (record { min_sat = 50000; max_sat = 1000000; max_payable_sat = 60000 });
  answer_list_refundables = λ _. some (sample_swap ∷ []);
  answer_receive_onchain = λ _. ok sample_swap;
  answer_prepare_refund = λ _. some 1500;
  answer_refund = λ _. some "txid";
  answer_prepare_redeem_onchain_funds = λ _. ok 1500;
  answer_redeem_onchain_funds = λ _. ok "txid";
  answer_prepare_onchain_payment = λ _. some sample_payment;
  answer_pay_onchain = λ _. true;
  answer_receive_payment = λ _. none;
  answer_send_payment = λ _. none;
  answer_lnurl_pay = λ _. ok (endpoint_success "hash");
  answer_lnurl_withdraw = λ _. ok error_status;
  answer_in_progress_swap = λ _. some (some sample_swap);
  answer_redeem_swap = λ _. true;
  answer_claim_reverse_swap = λ _. true;
  answer_payment_by_hash = λ _. some none;
  answer_open_channel_fee = λ _. some none;
  answer_recv_event = λ _. event synced;
  answer_list_payments = λ _. some [];
  answer_sign_message = λ _. none;
  answer_clock = λ calls. length calls;
  answer_start_sdk = λ _. ok tt;
  answer_register_webhook = λ _. true;
  answer_lsp_id = λ _. some none;
  answer_list_lsps = λ _. some ("lsp" ∷ []);
  answer_connect_lsp = λ _. true;
}

abbrev pub sample_services : Services
sample_services = record {
  answer_assign_lightning_address = λ _. some "satoshi@lipa.swiss";
  answer_enable_lightning_addresses = λ _. true;
  answer_disable_lightning_addresses = λ _. true;
  answer_request_phone_number_verification = λ _. true;
  answer_verify_phone_number = λ _. true;
  answer_register_notification_token = λ _. true;
  answer_hide_topup = λ _. ok tt;
  answer_query_uncompleted_topups = λ _. some [];
  answer_start_topup_setup = λ _. none;
  answer_complete_topup_setup = λ _. none;
  answer_query_all_exchange_rates = λ _. some [];
  answer_authenticate = λ _. ok tt;
  answer_get_wallet_pubkey_id = λ _. some "id";
  answer_submit_lnurl_pay_invoice = λ _. ok tt;
}

abbrev pub sample_rate : ExchangeRate
sample_rate = record { currency_code = "EUR"; rate = 4123; updated_at = 5 }

abbrev pub sample_support : Support
sample_support = record {
  sdk = sample_sdk;
  services = sample_services;
  user_preferences = record {
    fiat_currency = "EUR";
    timezone_config = record { timezone_id = "Bern"; timezone_utc_offset_secs = pos 3600 };
  };
  exchange_rates = sample_rate ∷ [];
  cheaper_lsp_fee = some sample_params;
  longer_valid_lsp_fee = some sample_params;
  max_routing_fee_config = record {
    max_routing_fee_permyriad = 150;
    max_routing_fee_exempt_fee_sats = 21;
  };
  lipa_lightning_domain = "@lipa.swiss";
  allowed_countries_country_iso_3166_1_alpha_2 = "CH" ∷ [];
}

abbrev pub sample_world : World
sample_world = record { calls = []; store = sample_store }

abbrev pub sample_failed_swap : FailedSwapInfo
sample_failed_swap = record {
  address = "old";
  amount = record { sats = 40000; fiat = none };
  created_at = 3;
}
