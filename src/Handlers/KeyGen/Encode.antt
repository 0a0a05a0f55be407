-- ===== src/Handlers/KeyGen/Encode.antt =====
-- pkg/handlers/serverkeygen.go: the encoding and the encryption of a private key.
pub mod Laws
use est_service.Prelude.{
  Bool, List, Option, Result, [], context, drop, err, errorf, false, if◌then◌else◌, leb, length,
  none, not, ok, require, some, take, true, ℕ, ◌++◌, ◌>>=◌, ◌>>◌, ◌∷◌,
}
use est_service.X509.{Certificate, PrivateKey, ecdsa_key, other_key, rsa_key}
use est_service.KeyCrypto.{Aead, KeyCrypto}

-- `AES256KeySizeBytes`
abbrev pub aes256_key_size_bytes : ℕ
aes256_key_size_bytes = 32

-- `EncryptedPrivateKey`
pub record EncryptedPrivateKey : Type 0 where
  pub encrypted_key_der : List ℕ
  pub encrypted_password : List ℕ
  pub password_encrypted : Bool

module _ {C G : Type 0} (aead : Aead C G) where
  -- `aes.NewCipher` and `cipher.NewGCM`, as both functions call them
  open_gcm : List ℕ → Result G
  open_gcm key = do
    block ← context "failed to create cipher: " (aead.new_cipher key)
    context "failed to create GCM: " (aead.new_gcm block)

  -- `encryptWithAESGCM`; Seal appends to the nonce.
  unfoldable pub encrypt_with_aes_gcm : List ℕ → List ℕ → Result (List ℕ)
  unfolding open_gcm
  encrypt_with_aes_gcm plain key = do
    gcm ← open_gcm key
    nonce ← context "failed to generate nonce: " (aead.random_nonce (aead.nonce_size gcm))
    ok (nonce ++ aead.seal gcm nonce plain)

  -- `decryptWithAESGCM`
  unfoldable pub decrypt_with_aes_gcm : List ℕ → List ℕ → Result (List ℕ)
  unfolding open_gcm
  decrypt_with_aes_gcm ciphertext key = do
    gcm ← open_gcm key
    require (leb (aead.nonce_size gcm) (length ciphertext)) (errorf "ciphertext too short")
    context "decryption failed: " (
        aead.unseal gcm (take (aead.nonce_size gcm) ciphertext)
          (drop (aead.nonce_size gcm) ciphertext))

-- `clientCert.PublicKey.(*rsa.PublicKey)`
abbrev pub is_rsa : Certificate → Bool
is_rsa cert = elim cert.public_key [ rsa_key k ↦ true | ecdsa_key k ↦ false | other_key k ↦ false ]

module _ {C G : Type 0} (keys : KeyCrypto C G) where
  -- `encryptPasswordForClient`
  unfoldable pub encrypt_password_for_client : List ℕ → Certificate → Result (List ℕ)
  encrypt_password_for_client password cert = elim cert.public_key [
    | rsa_key k ↦ context "failed to encrypt password with RSA: " (keys.encrypt_oaep k password)
    | ecdsa_key k ↦ err (
        errorf
          "ECDSA client certificates not supported for password encryption (ECIES not implemented)")
    | other_key k ↦ err (errorf "unsupported client certificate public key type")
  ]

  -- `encodePrivateKey` with encryption, for a client certificate
  encrypt_for_client : List ℕ → Certificate → Result EncryptedPrivateKey
  unfolding encrypt_with_aes_gcm encrypt_password_for_client
  encrypt_for_client der cert = do
    require (is_rsa cert) (errorf "client certificate must be RSA to encrypt private key password")
    password ←
        context "failed to generate encryption password: "
          (keys.random_password aes256_key_size_bytes)
    encrypted ←
        context "failed to encrypt private key: " (encrypt_with_aes_gcm keys.aead der password)
    encrypted_password ←
        context "failed to encrypt password with client certificate: "
          (encrypt_password_for_client password cert)
    ok (record {
      encrypted_key_der =
          keys.pem_encode "ENCRYPTED PRIVATE KEY" (("Encryption", "AES-256-GCM") ∷ []) encrypted;
      encrypted_password = encrypted_password;
      password_encrypted = true;
    })

  -- `encodePrivateKey`, where the flag is `EncryptPrivateKey`
  unfoldable pub encode_private_key :
      Bool → PrivateKey → Option Certificate → Result EncryptedPrivateKey
  unfolding encrypt_for_client
  encode_private_key encrypt key client_cert = do
    der ← context "failed to marshal private key: " (keys.marshal_pkcs8 key)
    if not encrypt
        then ok (record {
          encrypted_key_der = der;
          encrypted_password = [];
          password_encrypted = false;
        })
        else elim client_cert [
          | none ↦ err (errorf "client certificate required to encrypt private key password")
          | some cert ↦ encrypt_for_client der cert
        ]
