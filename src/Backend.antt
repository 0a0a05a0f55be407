-- ===== src/Backend.antt =====
-- The interface `Backend` of pkg/backend/backend.go, as its clients in pkg/auth, pkg/handlers and
-- pkg/server use it. `R` is the state behind it: the remote server and the client objects.
pub mod Api
pub mod Objects
pub mod Pki
pub mod Logins
pub mod Identity
pub mod Transit
pub mod Start
pub mod Common
use est_service.Prelude.{Bool, List, Option, Result, String, ℕ, ℤ}
use est_service.X509.{Certificate, CertificateRequest}
use est_service.Est.Reenroll.{Tls}

-- What LookupToken returns of a token: `none` for an entry that is missing or no string.
pub record TokenInfo : Type 0 where
  pub display_name : Option String
  pub entity_id : Option String

-- api.HealthResponse
pub record Health : Type 0 where
  pub sealed : Bool
  pub initialized : Bool

-- A client object that CloneWithToken returned.
abbrev pub Handle : Type 0
Handle = ℕ

pub record Backend (R : Type 0) : Type 0 where
  -- Health, with the timeout of its context in seconds, if it has one
  pub health : Option ℕ → R → Result Health × R
  pub get_ca_certificate : String → R → Result Certificate × R
  pub get_ca_chain : String → R → Result (List Certificate) × R
  pub sign_csr : Handle → String → String → CertificateRequest → String → R → Result Certificate × R
  pub sign_csr_verbatim : Handle → String → CertificateRequest → String → R → Result Certificate × R
  pub authenticate_userpass : String → String → String → R → Result String × R
  pub authenticate_ldap : String → String → String → R → Result String × R
  pub authenticate_app_role : String → String → String → R → Result String × R
  pub authenticate_cert : String → Tls → String → String → String → R → Result String × R
  pub lookup_token : String → R → Result TokenInfo × R
  pub clone_with_token : String → R → Result Handle × R
  pub close : Handle → R → R
  pub generate_exportable_key : String → String → ℤ → R → Result (List ℕ) × R
