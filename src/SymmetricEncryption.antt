-- ===== src/SymmetricEncryption.antt =====
-- src/symmetric_encryption.rs. The cipher AES-256-GCM, the hash SHA-256 and the random bytes are
-- parameters; a byte is a number, and `none` an error.
pub mod RoundTrip
use lipa_lightning_lib.Prelude.{
  ◌>>=?◌, ℕ, ◌-◌, Option, List, ◌++◌, Result, ok, err, panic, invalid_input, permanent_failure,
  or_err, length, take, drop, leb, ◌==◌, if◌then◌else◌,
}
use lipa_lightning_lib.Prelude.Exec.{◌>>=◌}
use lipa_lightning_lib.Errors.{LibError}

abbrev pub Bytes : Type 0
Bytes = List ℕ

pub record Aes : Type 0 where
  -- the key, the nonce and the data
  pub cipher_encrypt : Bytes → Bytes → Bytes → Option Bytes
  pub cipher_decrypt : Bytes → Bytes → Bytes → Option Bytes
  pub sha256 : Bytes → Bytes

abbrev pub nonce_length : ℕ
nonce_length = 12

-- `Aes256Gcm::new_from_slice`: the key has 32 bytes
unfoldable pub make_cipher : Bytes → Result LibError Bytes
make_cipher key = if length key == 32 then ok key else err invalid_input

module _ (aes : Aes) where
  unfoldable pub encrypt_vanilla : Bytes → Bytes → Bytes → Result LibError Bytes
  unfolding make_cipher
  encrypt_vanilla plain key nonce = make_cipher key >>=? λ cipher.
      or_err (aes.cipher_encrypt cipher nonce plain) permanent_failure

  unfoldable pub decrypt_vanilla : Bytes → Bytes → Bytes → Result LibError Bytes
  unfolding make_cipher
  decrypt_vanilla encrypted key nonce = make_cipher key >>=? λ cipher.
      or_err (aes.cipher_decrypt cipher nonce encrypted) invalid_input

  -- with the random bytes for the nonce
  unfoldable pub encrypt : Option Bytes → Bytes → Bytes → Result LibError Bytes
  unfolding encrypt_vanilla
  encrypt random plain key = or_err random permanent_failure >>=? λ nonce.
      encrypt_vanilla plain key nonce >>=? λ ciphertext. ok (ciphertext ++ nonce)

  -- with a nonce that depends on the data and the key
  unfoldable pub deterministic_encrypt : Bytes → Bytes → Result LibError Bytes
  unfolding encrypt_vanilla
  deterministic_encrypt plain key =
      let nonce = take nonce_length (aes.sha256 (plain ++ key)) in
      encrypt_vanilla plain key nonce >>=? λ ciphertext. ok (ciphertext ++ nonce)

  unfoldable pub decrypt : Bytes → Bytes → Result LibError Bytes
  unfolding decrypt_vanilla
  decrypt encrypted key =
      if leb (length encrypted) nonce_length
      then err invalid_input
      else let nonce_start = length encrypted - nonce_length in
        decrypt_vanilla (take nonce_start encrypted) key (drop nonce_start encrypted)
