-- ===== src/Handlers/KeyGen/Encode/Laws.antt =====
-- What the client can recover of a private key that pkg/handlers/serverkeygen.go encrypted.
use est_service.X509.{Certificate, PrivateKey, PublicKey, ecdsa_key, other_key, rsa_key}
use mathlib.Core.Bool.{false≢true}
use mathlib.Core.Path.{subst}
use est_service.Prelude.{
  GoError, List, Option, Result, Result-cases, [], arith, bind_ok, context, context_iff, drop,
  drop-append, err, errorf, err≢ok, false, inl, inr, leb, length, length-append, none, ok,
  ok_injective, refl, require, require_iff, some, sym, take, take-append, true, ℕ, ◌++◌, ◌>>◌, ◌∙◌,
  ◌∷◌, ◌≡◌, ◌≢◌,
}
use est_service.KeyCrypto.{Aead, KeyCrypto}
use est_service.Handlers.KeyGen.Encode.{
  EncryptedPrivateKey, decrypt_with_aes_gcm, encode_private_key, encrypt_for_client,
  encrypt_password_for_client, encrypt_with_aes_gcm, is_rsa, open_gcm,
}

-- Documented of crypto/cipher: a nonce that is read fills its buffer, and Open inverts Seal.
pub record IsLawful {C G : Type 0} (aead : Aead C G) : Type 0 where
  pub nonce_length : (n : ℕ) (nonce : List ℕ) → aead.random_nonce n ≡ ok nonce → length nonce ≡ n
  pub opened :
      (gcm : G) (nonce plain : List ℕ)
      → length nonce ≡ aead.nonce_size gcm
      → aead.unseal gcm nonce (aead.seal gcm nonce plain) ≡ ok plain

module _ {C G : Type 0} (aead : Aead C G) (lawful : IsLawful aead) where
  unsealed :
      (gcm : G) (nonce plain sealed : List ℕ)
      → length nonce ≡ aead.nonce_size gcm
      → nonce ++ aead.seal gcm nonce plain ≡ sealed
      → (require (leb (aead.nonce_size gcm) (length sealed)) (errorf "ciphertext too short")
          >> context "decryption failed: " (
              aead.unseal gcm
                (take (aead.nonce_size gcm) sealed)
                (drop (aead.nonce_size gcm) sealed)))
        ≡ ok plain
  unsealed gcm nonce plain sealed fits e =
      let long : leb (length nonce) (length (nonce ++ aead.seal gcm nonce plain)) ≡ true =
        ground (arith, length-append nonce (aead.seal gcm nonce plain)) in
      rw (← e, ← fits, long, take-append nonce, drop-append nonce)
        ((context_iff _ _ plain).1 (lawful.opened gcm nonce plain fits))

  -- What was encrypted is decrypted under the same key.
  pub decrypt-encrypt :
      (plain key sealed : List ℕ)
      → encrypt_with_aes_gcm aead plain key ≡ ok sealed
      → decrypt_with_aes_gcm aead sealed key ≡ ok plain
  unfolding encrypt_with_aes_gcm decrypt_with_aes_gcm
  decrypt-encrypt plain key sealed h =
      let (gcm, opened, h') = bind_ok (open_gcm aead key) h in
      let (nonce, drawn, e) = bind_ok (context _ (aead.random_nonce (aead.nonce_size gcm))) h' in
      let fits = lawful.nonce_length _ nonce ((context_iff _ _ nonce).0 drawn) in
      rw opened (unsealed gcm nonce plain sealed fits (ok_injective e))

-- What a client with the RSA key `k` can do with an encrypted private key: its own key gives it the
-- password, and the password gives it the encoding of the private key.
pub record Recoverable {C G : Type 0} (keys : KeyCrypto C G)
    (decrypt_oaep : List ℕ → List ℕ → Result (List ℕ)) (key : PrivateKey)
    (client_cert : Option Certificate) (encoded : EncryptedPrivateKey) : Type 0 where
  pub cert : Certificate
  pub client : client_cert ≡ some cert
  pub k : List ℕ
  pub rsa : cert.public_key ≡ rsa_key k
  pub password : List ℕ
  pub recovered : decrypt_oaep k encoded.encrypted_password ≡ ok password
  pub sealed : List ℕ
  pub armoured :
      encoded.encrypted_key_der
      ≡ keys.pem_encode "ENCRYPTED PRIVATE KEY" (("Encryption", "AES-256-GCM") ∷ []) sealed
  pub der : List ℕ
  pub marshalled : keys.marshal_pkcs8 key ≡ ok der
  pub decrypted : decrypt_with_aes_gcm keys.aead sealed password ≡ ok der
  pub flagged : encoded.password_encrypted ≡ true

module _ {C G : Type 0} (keys : KeyCrypto C G) (lawful : IsLawful keys.aead)
    (decrypt_oaep : List ℕ → List ℕ → Result (List ℕ))
    (inverts : (k plain sealed : List ℕ)
      → keys.encrypt_oaep k plain ≡ ok sealed
      → decrypt_oaep k sealed ≡ ok plain) where
  sealed_for :
      (pk : PublicKey) (cert : Certificate) (password sealed : List ℕ)
      → cert.public_key ≡ pk
      → encrypt_password_for_client keys password cert ≡ ok sealed
      → (k : List ℕ) × (cert.public_key ≡ rsa_key k) × (keys.encrypt_oaep k password ≡ ok sealed)
  unfolding encrypt_password_for_client
  sealed_for (rsa_key k) cert password sealed e h =
      (k, e, (context_iff _ (keys.encrypt_oaep k password) sealed).0 (rw e at h))
  sealed_for (ecdsa_key k) cert password sealed e h = absurd (err≢ok (rw e at h))
  sealed_for (other_key k) cert password sealed e h = absurd (err≢ok (rw e at h))

  encrypted :
      (key : PrivateKey) (der : List ℕ) (cert : Certificate) (encoded : EncryptedPrivateKey)
      → keys.marshal_pkcs8 key ≡ ok der
      → encrypt_for_client keys der cert ≡ ok encoded
      → Recoverable keys decrypt_oaep key (some cert) encoded
  unfolding encrypt_for_client
  encrypted key der cert encoded marshalled h =
      let (_, h1) = (require_iff _ _ _ encoded).0 h in
      let (password, drawn, h2) = bind_ok (context _ (keys.random_password 32)) h1 in
      let (sealed, wrapped, h3) =
        bind_ok (context _ (encrypt_with_aes_gcm keys.aead der password)) h2 in
      let (hidden, hid, e) =
        bind_ok (context _ (encrypt_password_for_client keys password cert)) h3 in
      let (k, rsa, oaep) =
        sealed_for cert.public_key cert password hidden refl ((context_iff _ _ hidden).0 hid) in
      subst (Recoverable keys decrypt_oaep key (some cert)) (ok_injective e) (record {
        cert = cert;
        client = refl;
        k = k;
        rsa = rsa;
        password = password;
        recovered = inverts k password hidden oaep;
        sealed = sealed;
        armoured = refl;
        der = der;
        marshalled = marshalled;
        decrypted =
            decrypt-encrypt keys.aead lawful der password sealed
              ((context_iff _ _ sealed).0 wrapped);
        flagged = refl;
      })

  -- With the encryption on, a private key is only handed out to a client with an RSA certificate, and
  -- then the client's key gives back the password from the encrypted password, and the password gives
  -- back the encoding of the generated key from the encrypted key.
  pub encode_private_key-Recoverable :
      (key : PrivateKey) (client_cert : Option Certificate) (encoded : EncryptedPrivateKey)
      → encode_private_key keys true key client_cert ≡ ok encoded
      → Recoverable keys decrypt_oaep key client_cert encoded
  unfolding encode_private_key
  encode_private_key-Recoverable key none encoded h =
      let (der, _, h') = bind_ok (context _ (keys.marshal_pkcs8 key)) h in absurd (err≢ok h')
  encode_private_key-Recoverable key (some cert) encoded h =
      let (der, marshalled, h') = bind_ok (context _ (keys.marshal_pkcs8 key)) h in
      encrypted key der cert encoded ((context_iff _ _ der).0 marshalled) h'

-- The client has no certificate with an RSA key.
abbrev pub NoRsa : Option Certificate → Type 0
NoRsa none = Unit {0}
NoRsa (some cert) = (k : List ℕ) → cert.public_key ≢ rsa_key k

rsa_needed :
    (pk : PublicKey) (cert : Certificate)
    → cert.public_key ≡ pk
    → NoRsa (some cert)
    → is_rsa cert ≡ false
rsa_needed (rsa_key k) cert e no_rsa = absurd (no_rsa k e)
rsa_needed (ecdsa_key k) cert e no_rsa = rw e refl
rsa_needed (other_key k) cert e no_rsa = rw e refl

module _ {C G : Type 0} (keys : KeyCrypto C G) where
  encoded_needs_rsa :
      (key : PrivateKey) (client_cert : Option Certificate) (encoded : EncryptedPrivateKey)
      → NoRsa client_cert
      → encode_private_key keys true key client_cert ≢ ok encoded
  unfolding encode_private_key encrypt_for_client
  encoded_needs_rsa key none encoded no_rsa h =
      let (der, _, h') = bind_ok (context _ (keys.marshal_pkcs8 key)) h in err≢ok h'
  encoded_needs_rsa key (some cert) encoded no_rsa h =
      let (der, _, h') = bind_ok (context _ (keys.marshal_pkcs8 key)) h in
      false≢true
        (sym (rsa_needed cert.public_key cert refl no_rsa) ∙ ((require_iff _ _ _ encoded).0 h').0)

  -- The key of such a client is not encoded.
  pub unencodable :
      (key : PrivateKey) (client_cert : Option Certificate)
      → NoRsa client_cert
      → (e : GoError) × (encode_private_key keys true key client_cert ≡ err e)
  unencodable key client_cert no_rsa =
      elim (Result-cases (encode_private_key keys true key client_cert)) [
        | inl failed ↦ failed
        | inr (encoded, p) ↦ absurd (encoded_needs_rsa key client_cert encoded no_rsa p)
      ]
