-- ===== src/Handlers/Policy/Unknown.antt =====
-- A signing under a policy of an unknown type.
use Prim.Native.String.{◌++◌ as append}
use est_service.Prelude.{
  Among, Bool-cases, GoError, String, [], eq_iff, err, errorf, false, inl, inr, ok, refl, ◌==◌, ◌∷◌,
  ◌≡◌, ◌≢◌,
}
use est_service.Backend.{Backend, Handle}
use est_service.World.{World, call_clone}
use est_service.Handlers.Errors.{parse_backend_error}
use est_service.Handlers.Errors.Laws.{invalid_policy_type}
use est_service.Handlers.Policy.{EnrollmentRequest, mount_of, process_csr_signing, sign_by_policy}

-- A test that a text fails.
unequal : (s t : String) → s ≢ t → (s == t) ≡ false
unequal s t differs = elim (Bool-cases (s == t)) [
  | inl same ↦ absurd (differs ((eq_iff s t).0 same))
  | inr other ↦ other
]

module _ {R : Type 0} (b : Backend R) (req : EnrollmentRequest) where
  sign_by_policy-invalid :
      (client : Handle) (mount : String) (w : World R)
      → req.policy.kind ≢ "role"
      → req.policy.kind ≢ "sign-verbatim"
      → (sign_by_policy b client mount req w).0
        ≡ err (errorf (append "invalid policy type: " req.policy.kind))
  unfolding sign_by_policy
  sign_by_policy-invalid client mount w no_role no_verbatim =
      rw (unequal _ _ no_role, unequal _ _ no_verbatim) refl

  -- Where the requester has a token and a client is cloned with it, a signing under a policy whose type
  -- is neither `role` nor `sign-verbatim`, which only the server's configuration can cause, fails with
  -- an error that is answered as the client's fault: by 400, 401 or 403.
  pub unknown_policy-status :
      (default_mount : String) (w : World R) (client : Handle)
      → req.policy.kind ≢ "role"
      → req.policy.kind ≢ "sign-verbatim"
      → req.auth_token ≢ ""
      → (call_clone b req.auth_token w).0 ≡ ok client
      → (e : GoError) × ((process_csr_signing b req default_mount w).0 ≡ err e)
        × Among (parse_backend_error e).status_code (403 ∷ 401 ∷ 400 ∷ [])
  unfolding process_csr_signing
  unknown_policy-status default_mount w client no_role no_verbatim token cloned = (
    errorf (append "invalid policy type: " req.policy.kind),
    rw (unequal _ _ token, cloned, process_csr_signing)
        (sign_by_policy-invalid client (mount_of req.policy default_mount)
          (call_clone b req.auth_token w).1 no_role no_verbatim),
    invalid_policy_type req.policy.kind,
  )
