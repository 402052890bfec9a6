-- ===== src/FiatTopup/Setup.antt =====
-- src/fiat_topup.rs: the registration for topups. The syntax of an IBAN and of an email is checked by
-- libraries.
use lipa_lightning_lib.Prelude.{map_runtime_error_to}
use lipa_lightning_lib.Prelude.{map_err}
use lipa_lightning_lib.Prelude.{
  ℕ, String, Bool, true, Option, none, some, or_err, invalid_input, runtime_error, leb, len,
  text_append,
}
use lipa_lightning_lib.Prelude.Exec.{pure, lift, ensure, ◌>>=◌, ◌>>◌}
use lipa_lightning_lib.Errors.{RuntimeErrorCode, LibError}
use lipa_lightning_lib.Db.{FiatTopupSetupInfo}
use lipa_lightning_lib.DataStore.Topups.{
  store_fiat_topup_info, clear_fiat_topup_info, retrieve_latest_fiat_topup_info,
}
use lipa_lightning_lib.Sdk.{Call, ask, on_store}
use lipa_lightning_lib.Support.{Support, Lib, node_unavailable, get_node_info}

-- `hide_topup` of the offer manager, with `map_runtime_error_to`
unfoldable pub hide_topup : Support → String → Lib (Unit {0})
hide_topup sup id = ask (Call.hide_topup id) sup.services.answer_hide_topup >>= λ r.
    lift (map_err (map_runtime_error_to RuntimeErrorCode.offer_service_unavailable) r)

abbrev pub offer_service_unavailable : LibError
offer_service_unavailable = runtime_error RuntimeErrorCode.offer_service_unavailable

-- `topup_referral_code_max_length` of the configuration, and the libraries' checks
pub record TopupChecks : Type 0 where
  pub is_iban : String → Bool
  pub is_email : String → Bool
  pub topup_referral_code_max_length : ℕ

unfoldable pub is_valid_email : TopupChecks → Option String → Bool
is_valid_email checks none = true
is_valid_email checks (some email) = checks.is_email email

unfoldable pub is_valid_code : TopupChecks → Option String → Bool
is_valid_code checks none = true
is_valid_code checks (some code) = leb (len code) checks.topup_referral_code_max_length

unfoldable pub confirmation : String → String
confirmation challenge = text_append "I confirm my bitcoin wallet. [" (text_append challenge "]")

module _ (checks : TopupChecks) (sup : Support) (now : ℕ) where
  unfoldable pub register :
      Option String → String → String → String → Option String → Lib FiatTopupSetupInfo
  unfolding is_valid_email is_valid_code confirmation
  register email user_iban user_currency provider referral_code = do
    ensure (checks.is_iban user_iban) invalid_input
    ensure (is_valid_email checks email) invalid_input
    ensure (is_valid_code checks referral_code) invalid_input
    info ← get_node_info sup
    started ←
        ask
          (Call.start_topup_setup info.node_pubkey provider user_iban user_currency email
            referral_code)
          sup.services.answer_start_topup_setup
    challenge ← lift (or_err started offer_service_unavailable)
    signed ← ask (Call.sign_message (confirmation challenge.1)) sup.sdk.answer_sign_message
    signature ← lift (or_err signed node_unavailable)
    completed ←
        ask (Call.complete_topup_setup challenge.0 signature user_iban)
          sup.services.answer_complete_topup_setup
    topup_info ← lift (or_err completed offer_service_unavailable)
    on_store (store_fiat_topup_info now topup_info)
    pure topup_info

unfoldable pub reset : Lib (Unit {0})
reset = on_store clear_fiat_topup_info

unfoldable pub get_info : Lib (Option FiatTopupSetupInfo)
get_info = on_store retrieve_latest_fiat_topup_info
