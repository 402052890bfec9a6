-- ===== src/SymmetricEncryption/RoundTrip.antt =====
-- What was encrypted is decrypted.
use lipa_lightning_lib.Prelude.{
  ℕ, zero, suc, ◌+◌, ◌-◌, ◌<◌, ◌≡◌, refl, sym, ap, ◌∙◌, arith, Option, some, [], ◌∷◌, ◌++◌, ok,
  length, take, drop, leb, ◌==◌, true, false, Bool-cases, inl, inr, ◌⊎◌, none, or_err-ok, ◌>>=?◌,
  >>=?-ok, permanent_failure,
}
use lipa_lightning_lib.SymmetricEncryption.{
  Bytes, Aes, nonce_length, make_cipher, encrypt_vanilla, decrypt_vanilla, encrypt,
  deterministic_encrypt, decrypt,
}

-- What the documentation of the cipher and of the hash says: a ciphertext is longer than the empty text, by
-- its tag, and is decrypted to what was encrypted; a hash has 32 bytes.
pub record IsAes (aes : Aes) : Type 0 where
  pub decrypts :
      (key nonce plain : Bytes) {ciphertext : Bytes}
      → aes.cipher_encrypt key nonce plain ≡ some ciphertext
      → aes.cipher_decrypt key nonce ciphertext ≡ some plain
  pub tagged :
      (key nonce plain : Bytes) {ciphertext : Bytes}
      → aes.cipher_encrypt key nonce plain ≡ some ciphertext
      → 0 < length ciphertext
  pub length-sha256 : (text : Bytes) → length (aes.sha256 text) ≡ 32

length-append : (xs ys : Bytes) → length (xs ++ ys) ≡ length xs + length ys
length-append [] ys = omega arith
length-append (x ∷ xs) ys = omega (arith, length-append xs ys)

take-append : (xs ys : Bytes) (n : ℕ) → length xs ≡ n → take n (xs ++ ys) ≡ xs
take-append [] ys zero h = refl
take-append [] ys (suc n) h = absurd (omega arith)
take-append (x ∷ xs) ys zero h = absurd (omega arith)
take-append (x ∷ xs) ys (suc n) h = ap (λ l. x ∷ l) (take-append xs ys n (omega arith))

drop-append : (xs ys : Bytes) (n : ℕ) → length xs ≡ n → drop n (xs ++ ys) ≡ ys
drop-append [] ys zero h = refl
drop-append [] ys (suc n) h = absurd (omega arith)
drop-append (x ∷ xs) ys zero h = absurd (omega arith)
drop-append (x ∷ xs) ys (suc n) h = drop-append xs ys n (omega arith)

length-take_of_le : (n : ℕ) (xs : Bytes) → n < suc (length xs) → length (take n xs) ≡ n
length-take_of_le zero xs h = refl
length-take_of_le (suc n) [] h = absurd (omega arith)
length-take_of_le (suc n) (x ∷ xs) h = omega (arith, length-take_of_le n xs (omega arith))

module _ (aes : Aes) (laws : IsAes aes) (key plain : Bytes) where
  encrypt_vanilla-ok :
      (nonce : Bytes) {ciphertext : Bytes}
      → encrypt_vanilla aes plain key nonce ≡ ok ciphertext
      → ((length key == 32) ≡ true) × (aes.cipher_encrypt key nonce plain ≡ some ciphertext)
  unfolding encrypt_vanilla make_cipher
  encrypt_vanilla-ok nonce h = elim (Bool-cases (length key == 32)) [
    | inl e ↦ (e, or_err-ok (aes.cipher_encrypt key nonce plain) permanent_failure (rw e at h))
    | inr e ↦ (let k = rw e at h in cc)
  ]

  decrypt-append :
      (nonce : Bytes) {ciphertext : Bytes}
      → length nonce ≡ nonce_length
      → encrypt_vanilla aes plain key nonce ≡ ok ciphertext
      → decrypt aes (ciphertext ++ nonce) key ≡ ok plain
  unfolding decrypt decrypt_vanilla make_cipher
  decrypt-append nonce {ciphertext} h e =
      let (fits, sealed) = encrypt_vanilla-ok nonce e in
      let long = laws.tagged key nonce plain sealed in
      let total = length-append ciphertext nonce in
      let more : leb (length (ciphertext ++ nonce)) nonce_length ≡ false = ground arith in
      let start : length ciphertext ≡ length (ciphertext ++ nonce) - nonce_length = omega arith in
      rw
        (
          more,
          fits,
          take-append ciphertext nonce _ start,
          drop-append ciphertext nonce _ start,
          laws.decrypts key nonce plain sealed,
        )
        refl

  encrypted-ok :
      (nonce : Bytes) {sealed : Bytes}
      → length nonce ≡ nonce_length
      → (encrypt_vanilla aes plain key nonce >>=? λ ciphertext. ok (ciphertext ++ nonce))
        ≡ ok sealed
      → decrypt aes sealed key ≡ ok plain
  encrypted-ok nonce {sealed} h e =
      let (ciphertext, sealed_by, joined) = >>=?-ok (encrypt_vanilla aes plain key nonce) _ e in
      let same : ciphertext ++ nonce ≡ sealed = cc in
      ap (λ t. decrypt aes t key) (sym same) ∙ decrypt-append nonce h sealed_by

  -- What was encrypted, with a random nonce or a derived one, is decrypted under the same key.
  pub decrypt-encrypt :
      (random : Option Bytes) {sealed : Bytes}
      → ((nonce : Bytes) → random ≡ some nonce → length nonce ≡ nonce_length)
      → (encrypt aes random plain key ≡ ok sealed)
        ⊎ (deterministic_encrypt aes plain key ≡ ok sealed)
      → decrypt aes sealed key ≡ ok plain
  unfolding encrypt deterministic_encrypt
  decrypt-encrypt none drawn (inl e) = cc
  decrypt-encrypt (some nonce) drawn (inl e) = encrypted-ok nonce (drawn nonce refl) e
  decrypt-encrypt random drawn (inr e) =
      encrypted-ok (take nonce_length (aes.sha256 (plain ++ key)))
        (length-take_of_le nonce_length _
          (let l = laws.length-sha256 (plain ++ key) in omega arith))
        e
