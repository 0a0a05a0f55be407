-- ===== src/World.antt =====
-- What a handler acts on besides its response: the backend, and the records that it leaves. Each
-- call of the backend is kept in `calls`, the latest first, so that theorems can speak of it.
use est_service.Prelude.{Bool, List, Option, Result, String, ℕ, ℤ, ◌∷◌}
use est_service.X509.{Certificate, CertificateRequest}
use est_service.Est.Reenroll.{Tls}
use est_service.Backend.{Backend, Handle, Health, TokenInfo}

pub data Call : Type 0 where
  health : Option ℕ → Call
  ca_certificate ca_chain lookup clone : String → Call
  sign : Handle → String → String → CertificateRequest → String → Call
  sign_verbatim : Handle → String → CertificateRequest → String → Call
  userpass ldap app_role : String → String → String → Call
  cert_login : String → Tls → String → String → String → Call
  close : Handle → Call
  generate_key : String → String → ℤ → Call

-- A call of the telemetry interface of pkg/handlers/telemetry.go, or of RecordRateLimitReject.
pub data Metric : Type 0 where
  auth_success auth_failure certificate_rejected : String → String → Metric
  certificate_issued : String → String → String → String → Metric
  rate_limited : String → Metric

-- The fields of an entry in the audit log.
pub record AuditEntry : Type 0 where
  pub request_id : String
  pub action : String
  pub outcome : String
  pub reason : String
  pub auth_method : String
  pub remote_addr : String
  pub user_agent : String

-- `credentials` is the buffer of the last decoded basic credentials; `panicked` is set where the code
-- dereferences nil, which ends the handler.
pub record World (R : Type 0) : Type 0 where
  pub remote : R
  pub calls : List Call
  pub metrics : List Metric
  pub audit : List AuditEntry
  pub credentials : List ℕ
  pub panicked : Bool

module _ {R : Type 0} where
  -- One call: its result, and the world with the call noted.
  abbrev noted : {A : Type 0} → Call → (R → A × R) → World R → A × World R
  noted c f w = let (a, s) = f w.remote in (a, record w { remote = s; calls = c ∷ w.calls })

  abbrev pub call_health : Backend R → Option ℕ → World R → Result Health × World R
  call_health b timeout = noted (health timeout) (b.health timeout)

  abbrev pub call_ca_certificate : Backend R → String → World R → Result Certificate × World R
  call_ca_certificate b mount = noted (ca_certificate mount) (b.get_ca_certificate mount)

  abbrev pub call_ca_chain : Backend R → String → World R → Result (List Certificate) × World R
  call_ca_chain b mount = noted (ca_chain mount) (b.get_ca_chain mount)

  abbrev pub call_lookup : Backend R → String → World R → Result TokenInfo × World R
  call_lookup b token = noted (lookup token) (b.lookup_token token)

  abbrev pub call_clone : Backend R → String → World R → Result Handle × World R
  call_clone b token = noted (clone token) (b.clone_with_token token)

  abbrev pub call_sign :
      Backend R
      → Handle
      → String
      → String
      → CertificateRequest
      → String
      → World R
      → Result Certificate × World R
  call_sign b h mount role csr ttl =
      noted (sign h mount role csr ttl) (b.sign_csr h mount role csr ttl)

  abbrev pub call_sign_verbatim :
      Backend R
      → Handle
      → String
      → CertificateRequest
      → String
      → World R
      → Result Certificate × World R
  call_sign_verbatim b h mount csr ttl =
      noted (sign_verbatim h mount csr ttl) (b.sign_csr_verbatim h mount csr ttl)

  abbrev pub call_userpass :
      Backend R → String → String → String → World R → Result String × World R
  call_userpass b mount user pass =
      noted (userpass mount user pass) (b.authenticate_userpass mount user pass)

  abbrev pub call_ldap : Backend R → String → String → String → World R → Result String × World R
  call_ldap b mount user pass = noted (ldap mount user pass) (b.authenticate_ldap mount user pass)

  abbrev pub call_app_role :
      Backend R → String → String → String → World R → Result String × World R
  call_app_role b mount role secret =
      noted (app_role mount role secret) (b.authenticate_app_role mount role secret)

  abbrev pub call_cert :
      Backend R → String → Tls → String → String → String → World R → Result String × World R
  call_cert b mount tls role prefix ttl =
      noted (cert_login mount tls role prefix ttl) (b.authenticate_cert mount tls role prefix ttl)

  abbrev pub call_generate_key :
      Backend R → String → String → ℤ → World R → Result (List ℕ) × World R
  call_generate_key b mount kind bits =
      noted (generate_key mount kind bits) (b.generate_exportable_key mount kind bits)

  abbrev pub call_close : Backend R → Handle → World R → World R
  call_close b h w = record w { remote = b.close h w.remote; calls = close h ∷ w.calls }
