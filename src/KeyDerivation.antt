-- ===== src/KeyDerivation.antt =====
-- src/key_derivation.rs. The derivation of BIP-32 is a parameter; a text is the path.
use lipa_lightning_lib.Prelude.{
  String, Option, Result, ok, invalid_input, permanent_failure, or_err, ◌>>=?◌,
}
use lipa_lightning_lib.Errors.{LibError}
use lipa_lightning_lib.SymmetricEncryption.{Bytes}

pub record KeyPair : Type 0 where
  pub secret_key : Bytes
  pub public_key : Bytes

-- The crate `bitcoin`: an extended key is its bytes, and a path its parsed text.
pub record Bip32 : Type 0 where
  pub new_master : Bytes → Option Bytes
  pub path_from_str : String → Option String
  pub derive_priv : Bytes → String → Option Bytes
  pub secret_bytes : Bytes → Bytes
  pub public_key_of : Bytes → Bytes

module _ (bip32 : Bip32) where
  unfoldable pub derive_key_pair : Bytes → String → Result LibError KeyPair
  derive_key_pair seed derivation_path =
      or_err (bip32.new_master seed) invalid_input >>=? λ master_xpriv.
      or_err (bip32.path_from_str derivation_path) invalid_input >>=? λ path.
      or_err (bip32.derive_priv master_xpriv path) permanent_failure >>=? λ derived_xpriv.
      ok (record {
        secret_key = bip32.secret_bytes derived_xpriv;
        public_key = bip32.public_key_of derived_xpriv;
      })

  unfoldable pub derive_persistence_encryption_key : Bytes → Result LibError Bytes
  unfolding derive_key_pair
  derive_persistence_encryption_key seed =
      derive_key_pair seed "m/76738065'/0'/1" >>=? λ (k : KeyPair). ok k.secret_key

  unfoldable pub derive_analytics_key : Bytes → Result LibError Bytes
  unfolding derive_key_pair
  derive_analytics_key seed =
      derive_key_pair seed "m/82640931'/0'/0" >>=? λ (k : KeyPair). ok k.secret_key

  unfoldable pub derive_auth_keys : Bytes → Result LibError KeyPair
  unfolding derive_key_pair
  derive_auth_keys seed = derive_key_pair seed "m/76738065'/0'/0"
