-- ===== src/Tests/Fixtures.antt =====
-- A backend, a set of cryptographic operations and requests to run the code on.
use est_service.Prelude.{
  List, Result, String, [], err, errorf, false, if◌then◌else◌, itoa, none, ok, pos, some, true, ℕ,
  ◌+◌, ◌==◌, ◌∷◌,
}
use est_service.X509.{
  Certificate, CertificateRequest, Crypto, PublicKey, ecdsa_key, other_key, rsa_key,
  sha256_with_rsa,
}
use est_service.Est.Payload.{Body}
use est_service.Est.Reenroll.{Tls}
use est_service.Http.{Request}
use est_service.Backend.{Backend}
use est_service.World.{World}
use est_service.Auth.{AuthConfig}
use est_service.Handlers.Policy.{EnrollmentConfig, LabelPolicy}
use est_service.Handlers.Base.{EnrollHandler}

abbrev pub device_key : PublicKey
device_key = rsa_key (3 ∷ 5 ∷ [])

-- A request with the bytes of its body, for two names.
abbrev pub csr_of : List ℕ → CertificateRequest
csr_of bytes = record {
  raw = bytes;
  subject = "CN=device";
  common_name = "device";
  signature_algorithm = sha256_with_rsa;
  attributes = [];
  dns_names = "a.example" ∷ "b.example" ∷ [];
  email_addresses = [];
  ip_addresses = (10 ∷ 0 ∷ 0 ∷ 1 ∷ []) ∷ [];
  uris = [];
  extra_extensions = [];
  public_key = device_key;
}

abbrev pub csr : CertificateRequest
csr = csr_of (7 ∷ 8 ∷ 9 ∷ [])

-- The client's certificate, with the names in another order.
abbrev pub client_cert : Certificate
client_cert = record {
  raw = 1 ∷ 2 ∷ [];
  subject = "CN=device";
  common_name = "device";
  serial_number = "42";
  dns_names = "b.example" ∷ "a.example" ∷ [];
  email_addresses = [];
  ip_addresses = (10 ∷ 0 ∷ 0 ∷ 1 ∷ []) ∷ [];
  uris = [];
  public_key = device_key;
}

abbrev key_bytes : PublicKey → Result (List ℕ)
key_bytes (rsa_key k) = ok k
key_bytes (ecdsa_key k) = ok k
key_bytes (other_key k) = err (errorf "unsupported public key type")

abbrev first_text : List ℕ → String
first_text [] = ""
first_text (n ∷ ns) = itoa n

-- Base64 is the identity here, and every text of basic credentials is the same.
abbrev pub crypto : Crypto
crypto = record {
  marshal_pkix = key_bytes;
  check_signature = λ request. ok tt;
  ip_text = first_text;
  uri_text = first_text;
  decode_base64 = ok;
  partly_decoded = λ bytes. bytes;
  encode_base64 = first_text;
  bytes_text = λ bytes. "alice:secret";
  pem_decode = λ bytes. none;
  parse_certificate_request = λ bytes. ok (csr_of bytes);
  marshal_signed_data = λ signed. ok signed.certificates.bytes;
  marshal_content_info = λ info. ok info.content.bytes;
}

abbrev issued_cert : CertificateRequest → Certificate
issued_cert request = record {
  raw = request.raw;
  subject = request.subject;
  common_name = request.common_name;
  serial_number = "43";
  dns_names = request.dns_names;
  email_addresses = request.email_addresses;
  ip_addresses = request.ip_addresses;
  uris = request.uris;
  public_key = request.public_key;
}

-- The backend's state counts its clients. It accepts the token "t1", alice's password and every
-- certificate, and signs for the role "est".
abbrev pub backend : Backend ℕ
backend = record {
  health = λ timeout n. (ok (record { sealed = false; initialized = true }), n);
  get_ca_certificate = λ mount n. (ok client_cert, n);
  get_ca_chain = λ mount n. (ok (client_cert ∷ []), n);
  sign_csr = λ h mount role request ttl n. (
    if role == "est" then ok (issued_cert request) else err (errorf "Code: 404. unknown role"),
    n,
  );
  sign_csr_verbatim = λ h mount request ttl n. (ok (issued_cert request), n);
  authenticate_userpass = λ mount user pass n.
      (if pass == "secret" then ok "t2" else err (errorf "permission denied"), n);
  authenticate_ldap = λ mount user pass n. (err (errorf "permission denied"), n);
  authenticate_app_role = λ mount user pass n. (err (errorf "permission denied"), n);
  authenticate_cert = λ mount tls role prefix ttl n. (ok "t3", n);
  lookup_token = λ token n. (
    if token == "t1"
        then ok (record { display_name = some "alice"; entity_id = none })
        else err (errorf "permission denied"),
    n,
  );
  clone_with_token = λ token n. (ok n, n + 1);
  close = λ h n. n;
  generate_exportable_key = λ mount kind bits n. (err (errorf "no transit engine"), n);
}

abbrev pub auth : AuthConfig
auth = record {
  userpass_enabled = true;
  userpass_mount_path = "userpass";
  ldap_enabled = true;
  ldap_mount_path = "ldap";
  app_role_enabled = false;
  app_role_mount_path = "approle";
  cert_enabled = true;
  cert_mount_path = "cert";
  cert_role = "";
  cert_entity_alias_prefix = "est-cert-";
  cert_token_ttl = "24h";
  token_enabled = true;
}

abbrev pub policy : LabelPolicy
policy = record { kind = "role"; value = "est"; mount = ""; ttl = "24h" }

abbrev pub enrollment : EnrollmentConfig
enrollment = record {
  default_mount = "pki";
  labels = [];
  default_policy = policy;
  max_csr_size = pos 4;
  allowed_signature_algos = "SHA256WithRSA" ∷ [];
  use_authenticated_token = true;
}

abbrev pub handler : EnrollHandler
handler = record { auth = auth; config = enrollment; telemetry = true; audit_log = true }

abbrev pub body : Body
body = record { bytes = 7 ∷ 8 ∷ 9 ∷ []; failure = none }

abbrev pub tls : Tls
tls = record { peer_certificates = client_cert ∷ [] }

-- A request with a bearer token, or with whatever it authorizes itself with.
abbrev pub request_with : String → Request
request_with authorization = record {
  method = "POST";
  path = "/.well-known/est/simpleenroll";
  authorization = authorization;
  forwarded_for = "";
  request_id_header = "";
  context_request_id = "r1";
  remote_addr = "192.0.2.7:4711";
  user_agent = "estclient";
  tls = some tls;
  content_length = pos 3;
  body = body;
}

abbrev pub request : Request
request = request_with "Bearer t1"

abbrev pub world : World ℕ
world = record {
  remote = 0;
  calls = [];
  metrics = [];
  audit = [];
  credentials = [];
  panicked = false;
}
