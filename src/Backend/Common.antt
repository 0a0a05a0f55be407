-- ===== src/Backend/Common.antt =====
-- pkg/backend/openbao_impl.go and client.go: the common implementation as the interface `Backend`.
pub mod Signing
pub mod Tokens
use est_service.Prelude.{Result, err, ok, some}
use est_service.Pem.{PemCrypto}
use est_service.Backend.{Backend, TokenInfo}
use est_service.Backend.Api.{Api, Fields, as_text, entry}
use est_service.Backend.Objects.{Clients, check_health, clone_with_token, close}
use est_service.Backend.Pki as Pki
use est_service.Backend.Logins as Logins
use est_service.Backend.Identity as Identity
use est_service.Backend.Transit as Transit

-- The entries of a token's data that the service reads.
abbrev pub info_of : Fields → TokenInfo
info_of fields = record {
  display_name = as_text (entry "display_name" fields);
  entity_id = as_text (entry "entity_id" fields);
}

abbrev map_ok : {A B : Type 0} → (A → B) → Result A → Result B
map_ok f (ok a) = ok (f a)
map_ok f (err e) = err e

-- `openBaoBackend`, and `Client`, which passes every method on. The base object has the handle 0, and
-- the signing methods are called on clones.
abbrev pub common : {S : Type 0} → Api S → PemCrypto → Backend (Clients S)
common api pem = record {
  health = check_health api 0;
  get_ca_certificate = Pki.get_ca_certificate api pem 0;
  get_ca_chain = Pki.get_ca_chain api pem 0;
  sign_csr = Pki.sign_csr api pem;
  sign_csr_verbatim = Pki.sign_csr_verbatim api pem;
  authenticate_userpass = Logins.authenticate_userpass api 0;
  authenticate_ldap = Logins.authenticate_ldap api 0;
  authenticate_app_role = Logins.authenticate_app_role api 0;
  authenticate_cert =
      λ mount tls role prefix ttl. Identity.authenticate_cert api pem 0 (some tls) role prefix ttl;
  lookup_token = λ token c. let (r, c') = Logins.look_up api 0 token c in (map_ok info_of r, c');
  clone_with_token = clone_with_token api 0;
  close = close;
  generate_exportable_key = Transit.generate_exportable_key api pem 0;
}
