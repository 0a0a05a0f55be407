-- ===== src/Handlers/Policy.antt =====
-- pkg/handlers/types.go: label policies and the signing of a request.
pub mod Trace
pub mod Unknown
pub mod Frame
use Prim.Native.String.{◌++◌}
use est_service.Prelude.{
  Bool, List, Result, String, context, err, errorf, if◌then◌else◌, ok, wrap, ℤ, ◌==◌,
}
use est_service.X509.{Certificate, CertificateRequest}
use est_service.Backend.{Backend, Handle}
use est_service.World.{World, call_clone, call_close, call_sign, call_sign_verbatim}

-- `LabelPolicy`
pub record LabelPolicy : Type 0 where
  pub kind : String
  pub value : String
  pub mount : String
  pub ttl : String

-- `EnrollmentConfig`
pub record EnrollmentConfig : Type 0 where
  pub default_mount : String
  pub labels : List (String × LabelPolicy)
  pub default_policy : LabelPolicy
  pub max_csr_size : ℤ
  pub allowed_signature_algos : List String
  pub use_authenticated_token : Bool

-- `EnrollmentRequest`, as far as the signing reads it
pub record EnrollmentRequest : Type 0 where
  pub csr : CertificateRequest
  pub auth_token : String
  pub policy : LabelPolicy

-- `if mount == "" { mount = config.DefaultMount }`
abbrev pub mount_of : LabelPolicy → String → String
mount_of policy default_mount = if policy.mount == "" then default_mount else policy.mount

module _ {R : Type 0} (b : Backend R) where
  -- The `switch policy.Type`, with the client that was cloned for the request.
  unfoldable pub sign_by_policy :
      Handle → String → EnrollmentRequest → World R → Result Certificate × World R
  sign_by_policy client mount req w =
      if req.policy.kind == "role"
      then (let (signed, w') = call_sign b client mount req.policy.value req.csr req.policy.ttl w in
          (context "failed to sign CSR: " signed, w'))
      else if req.policy.kind == "sign-verbatim"
      then (let (signed, w') = call_sign_verbatim b client mount req.csr req.policy.ttl w in
          (context "failed to sign CSR: " signed, w'))
      else (err (errorf ("invalid policy type: " ++ req.policy.kind)), w)

  -- `processCSRSigning`; the deferred `Close` runs whatever the switch returns.
  unfoldable pub process_csr_signing :
      EnrollmentRequest → String → World R → Result Certificate × World R
  unfolding sign_by_policy
  process_csr_signing req default_mount w =
      let mount = mount_of req.policy default_mount in
      if req.auth_token == ""
      then (err (errorf "no authentication available"), w)
      else let (cloned, w') = call_clone b req.auth_token w in
        elim cloned [
          | err e ↦ (err (wrap "failed to create authenticated backend client: " e), w')
          | ok client ↦
              let (signed, w'') = sign_by_policy client mount req w' in
              (signed, call_close b client w'')
        ]
