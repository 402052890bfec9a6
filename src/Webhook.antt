-- ===== src/Webhook.antt =====
-- src/lib.rs, `register_webhook_url`: where the SDK sends its notifications.
use lipa_lightning_lib.Prelude.{
  String, Option, invalid_input, permanent_failure, or_err, replace_once,
}
use lipa_lightning_lib.Prelude.Exec.{lift, ◌>>=◌}
use lipa_lightning_lib.Sdk.{Sdk, Services, Call, ask}
use lipa_lightning_lib.Support.{Lib, request, auth_service_unavailable, node_unavailable}

-- The settings of the webhook, and the cipher: `key_of` decodes the hexadecimal secret, and
-- `encrypted_id` is the hexadecimal `deterministic_encrypt` of the id.
pub record WebhookConfig : Type 0 where
  pub notification_webhook_secret_hex : String
  pub notification_webhook_base_url : String
  pub key_of : String → Option String
  pub encrypted_id : String → String → Option String

unfoldable pub register_webhook_url : Sdk → Services → WebhookConfig → Lib (Unit {0})
register_webhook_url sdk services config = do
  answer ← ask Call.get_wallet_pubkey_id services.answer_get_wallet_pubkey_id
  id ← lift (or_err answer auth_service_unavailable)
  key ← lift (or_err (config.key_of config.notification_webhook_secret_hex) invalid_input)
  encrypted_id ← lift (or_err (config.encrypted_id id key) permanent_failure)
  request
      (Call.register_webhook
        (replace_once "{id}" encrypted_id config.notification_webhook_base_url))
      sdk.answer_register_webhook node_unavailable
