-- ===== src/Handlers/Policy/Trace.antt =====
-- The calls that a signing makes, and what its result is.
use Prim.Native.String.{◌++◌ as append}
use est_service.Prelude.{
  GoError, List, Result, Result-cases, String, [], ap, arith, context, eq_iff, err, errorf, if_elim,
  inl, inr, refl, ◌++◌, ◌==◌, ◌∷◌, ◌≡◌, ◌≢◌,
}
use est_service.X509.{Certificate}
use est_service.Backend.{Backend, Handle}
use est_service.World.{Call, World, call_clone, call_close, clone, close, sign, sign_verbatim}
use est_service.Handlers.Policy.{EnrollmentRequest, mount_of, process_csr_signing, sign_by_policy}

module _ {R : Type 0} (b : Backend R) (req : EnrollmentRequest) (default_mount : String) where
  abbrev mount : String
  mount = mount_of req.policy default_mount

  -- The result of a signing, and its calls, the latest first: without a token nothing is called; the
  -- client cloned with the token signs at most once, by the policy, and is always closed.
  pub data Signing : Result Certificate → List Call → Type 0 where
    no_token : {e : GoError} → req.auth_token ≡ "" → Signing (err e) []
    not_cloned : {e : GoError} → Signing (err e) (clone req.auth_token ∷ [])
    by_role :
        {result : Result Certificate} (h : Handle) (s : R)
        → req.policy.kind ≡ "role"
        → result
          ≡ context "failed to sign CSR: "
              (b.sign_csr h mount req.policy.value req.csr req.policy.ttl s).0
        → Signing result (
            close h
            ∷ sign h mount req.policy.value req.csr req.policy.ttl
            ∷ clone req.auth_token
            ∷ [])
    verbatim :
        {result : Result Certificate} (h : Handle) (s : R)
        → req.policy.kind ≡ "sign-verbatim"
        → result
          ≡ context "failed to sign CSR: " (b.sign_csr_verbatim h mount req.csr req.policy.ttl s).0
        → Signing result
            (close h ∷ sign_verbatim h mount req.csr req.policy.ttl ∷ clone req.auth_token ∷ [])
    unknown_policy :
        (h : Handle)
        → req.policy.kind ≢ "role"
        → req.policy.kind ≢ "sign-verbatim"
        → Signing
            (err (errorf (append "invalid policy type: " req.policy.kind)))
            (close h ∷ clone req.auth_token ∷ [])

  -- The signing that a world went through.
  pub record Signed (before : World R) (x : Result Certificate × World R) : Type 0 where
    pub calls : List Call
    pub grown : x.1.calls ≡ calls ++ before.calls
    pub signing : Signing x.0 calls

  abbrev Closed : World R → Handle → Result Certificate × World R → Type 0
  Closed before h x = Signed before (x.0, call_close b h x.1)

  sign_by_policy-Closed :
      (before w : World R) (h : Handle)
      → w.calls ≡ clone req.auth_token ∷ before.calls
      → Closed before h (sign_by_policy b h mount req w)
  unfolding sign_by_policy
  sign_by_policy-Closed before w h e =
      if_elim (Closed before h) (req.policy.kind == "role")
        (λ role. record {
          calls =
              close h
              ∷ sign h mount req.policy.value req.csr req.policy.ttl
              ∷ clone req.auth_token
              ∷ [];
          grown = ap (λ cs. close h ∷ sign h mount req.policy.value req.csr req.policy.ttl ∷ cs) e;
          signing = by_role h w.remote ((eq_iff _ _).0 role) refl;
        })
        λ no_role.
          if_elim (Closed before h) (req.policy.kind == "sign-verbatim")
            (λ as_is. record {
              calls =
                  close h
                  ∷ sign_verbatim h mount req.csr req.policy.ttl
                  ∷ clone req.auth_token
                  ∷ [];
              grown = ap (λ cs. close h ∷ sign_verbatim h mount req.csr req.policy.ttl ∷ cs) e;
              signing = verbatim h w.remote ((eq_iff _ _).0 as_is) refl;
            })
            (λ not_as_is. record {
              calls = close h ∷ clone req.auth_token ∷ [];
              grown = ap (λ cs. close h ∷ cs) e;
              signing =
                  unknown_policy h (λ p. ground (arith, no_role, (eq_iff _ _).1 p))
                    (λ p. ground (arith, not_as_is, (eq_iff _ _).1 p));
            })

  -- Every signing has this form: without a token the backend is not called; otherwise the request's
  -- token is cloned into a client, which signs at most once, as the policy says, and is closed.
  pub process_csr_signing-Signed :
      (w : World R) → Signed w (process_csr_signing b req default_mount w)
  unfolding process_csr_signing
  process_csr_signing-Signed w =
      if_elim (Signed w) (req.auth_token == "")
        (λ empty. record { calls = []; grown = refl; signing = no_token ((eq_iff _ _).0 empty) })
        λ given. elim (Result-cases (b.clone_with_token req.auth_token w.remote).0) [
          | inl (e, p) ↦
              rw p
                (record { calls = clone req.auth_token ∷ []; grown = refl; signing = not_cloned })
          | inr (h, p) ↦ rw p (sign_by_policy-Closed w (call_clone b req.auth_token w).1 h refl)
        ]
