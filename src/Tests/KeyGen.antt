-- ===== src/Tests/KeyGen.antt =====
-- Runs of pkg/handlers/serverkeygen.go.
use est_service.Auth.{authenticate, authenticate_token}
use est_service.Est.Payload.{read_csr_payload_with_limit}
use est_service.Handlers.Policy.{process_csr_signing}
use est_service.Handlers.KeyGen.Answer.{send_server_key_gen_response}
use est_service.Est.Pkcs7.{create_pkcs7_certs_only}
use est_service.Prelude.{
  GoError, List, [], ap, equal_fold, false, length, lower, none, ok, ok_injective, pos, refl, some,
  strip_prefix, suc, sym, trim, trim_suffix, true, zero, ℕ, ◌∙◌, ◌∷◌, ◌≡◌,
}
use est_service.KeyCrypto.{Aead, KeyCrypto}
use est_service.Http.{Request, empty_response, set_header, write, write_header}
use est_service.Handlers.KeyGen.{
  KeyGenConfig, KeyGenRequest, extract_label, parse_server_key_gen_request,
}
use est_service.Handlers.KeyGen.Keys.{generate_key_pair}
use est_service.Handlers.KeyGen.Encode.{
  EncryptedPrivateKey, encode_private_key, encrypt_password_for_client, encrypt_with_aes_gcm,
}
use est_service.Handlers.KeyGen.Encode.Laws.{IsLawful, Recoverable, encode_private_key-Recoverable}
use est_service.Handlers.KeyGen.Serve.{client_cert_of, rejected, serve_key_gen, sign_and_hand_out}
use est_service.Handlers.KeyGen.Serve.Outcome.{KeyOutcome}
use est_service.Handlers.KeyGen.Serve.Laws.{serve_key_gen-Outcome}
use est_service.Handlers.KeyGen.Serve.Encryption.{sign_and_hand_out-loses}
use est_service.Handlers.KeyGen.Labels.{extract_label-labelled_path, labelled_path}
use est_service.Tests.Fixtures.{auth, backend, client_cert, crypto, csr, policy, request, world}

abbrev zeros : ℕ → List ℕ
zeros zero = []
zeros (suc n) = 0 ∷ zeros n

length-zeros : (n : ℕ) → length (zeros n) ≡ n
length-zeros zero = refl
length-zeros (suc n) = ap suc (length-zeros n)

-- A cipher that hides nothing.
abbrev aead : Aead (List ℕ) (List ℕ)
aead = record {
  new_cipher = ok;
  new_gcm = ok;
  nonce_size = λ gcm. 2;
  random_nonce = λ n. ok (zeros n);
  seal = λ gcm nonce plain. plain;
  unseal = λ gcm nonce sealed. ok sealed;
}

abbrev keys : KeyCrypto (List ℕ) (List ℕ)
keys = record {
  aead = aead;
  generate_rsa = λ size. ok (5 ∷ []);
  generate_ecdsa = λ curve. ok (6 ∷ []);
  random_password = λ n. ok (zeros n);
  create_certificate_request = λ template key. ok key;
  marshal_pkcs8 = ok;
  encrypt_oaep = λ k plain. ok plain;
  pem_encode = λ kind headers bytes. bytes;
  lifetime = λ cert. "24h0m0s";
}

abbrev config : KeyGenConfig
config = record {
  default_key_type = "RSA";
  default_key_size = pos 3072;
  default_mount = "pki";
  labels = [];
  default_policy = policy;
  max_csr_size = pos 4;
  allowed_key_types = "rsa" ∷ "ecdsa" ∷ [];
  allowed_key_sizes = pos 2048 ∷ pos 3072 ∷ [];
  encrypt_private_key = true;
  use_open_bao_transit = false;
  transit_mount = "transit";
  transit_key_name_prefix = "";
}

aead-IsLawful : IsLawful aead
aead-IsLawful = record {
  nonce_length = λ n nonce drawn. ap length (sym (ok_injective drawn)) ∙ length-zeros n;
  opened = λ gcm nonce plain fits. refl;
}

serve_key_gen-Outcome_example :
    KeyOutcome crypto keys backend auth config request world
      (serve_key_gen crypto keys backend auth config request empty_response world)
serve_key_gen-Outcome_example =
    serve_key_gen-Outcome crypto keys backend auth config request empty_response world (refl, refl)

-- The request is delivered.
delivers :
    (serve_key_gen crypto keys backend auth config request empty_response world).0.status ≡ some 200
unfolding serve_key_gen authenticate authenticate_token strip_prefix parse_server_key_gen_request
    read_csr_payload_with_limit generate_key_pair equal_fold lower client_cert_of
    process_csr_signing encode_private_key encrypt_with_aes_gcm encrypt_password_for_client
    send_server_key_gen_response create_pkcs7_certs_only write write_header set_header trim_suffix
    trim
delivers = refl

abbrev encoded_key : EncryptedPrivateKey
encoded_key = record {
  encrypted_key_der = 0 ∷ 0 ∷ 5 ∷ [];
  encrypted_password = zeros 32;
  password_encrypted = true;
}

encode_private_key-Recoverable_example :
    Recoverable keys (λ k sealed. ok sealed) (5 ∷ []) (some client_cert) encoded_key
unfolding encode_private_key encrypt_with_aes_gcm encrypt_password_for_client
encode_private_key-Recoverable_example =
    encode_private_key-Recoverable keys aead-IsLawful (λ k sealed. ok sealed)
      (λ k plain sealed hidden. sym hidden) (5 ∷ []) (some client_cert) encoded_key refl

-- A request over a connection with no client certificate.
abbrev bare_request : Request
bare_request = record request { tls = none }

abbrev parsed : KeyGenRequest
parsed = record { csr = csr; label = ""; auth_token = "t1"; policy = policy }

sign_and_hand_out-loses_example :
    ((sign_and_hand_out crypto keys backend auth config bare_request parsed csr
        (5 ∷ [])
        empty_response
        world).0.status
      ≡ some 500)
    × ((e : GoError) × (sign_and_hand_out crypto keys backend auth config bare_request parsed csr
            (5 ∷ [])
            empty_response
            world).1
          ≡ rejected e
              (process_csr_signing backend
                (record { csr = csr; auth_token = "t1"; policy = policy })
                "pki"
                world).1)
unfolding client_cert_of process_csr_signing
sign_and_hand_out-loses_example =
    sign_and_hand_out-loses crypto keys backend auth config bare_request refl tt empty_response
      (refl, refl) parsed csr (5 ∷ [])
      (record {
        raw = csr.raw;
        subject = csr.subject;
        common_name = csr.common_name;
        serial_number = "43";
        dns_names = csr.dns_names;
        email_addresses = csr.email_addresses;
        ip_addresses = csr.ip_addresses;
        uris = csr.uris;
        public_key = csr.public_key;
      })
      world refl

extract_label-labelled_path_example : extract_label (labelled_path "iot") "serverkeygen" ≡ "iot"
unfolding trim trim_suffix
extract_label-labelled_path_example = extract_label-labelled_path "iot" (refl, λ e. cc) refl

unlabelled : extract_label "/.well-known/est/serverkeygen" "serverkeygen" ≡ ""
unfolding extract_label trim_suffix strip_prefix
unlabelled = refl
