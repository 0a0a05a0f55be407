-- ===== src/Handlers/Base/Steps.antt =====
-- What each step of a request for a certificate leaves.
use est_service.Est.Payload.{read_csr_payload_with_limit}
use est_service.Est.Algorithm.{validate_csr_signature_algorithm}
use est_service.Auth.Effects.{authenticate-refused}
use est_service.Auth.Frame.{authenticate-Framed}
use mathlib.Core.Bool.{false≢true}
use est_service.Prelude.{
  Among, GoError, List, Option, Result-cases, String, [], ap, arith, false, if_elim, inl, inr, none,
  ok, refl, some, sym, ℕ, ◌∙◌, ◌∷◌, ◌≡◌, ◌⊎◌,
}
use est_service.X509.{CertificateRequest, Crypto}
use est_service.Http.Laws.{http_error-status}
use est_service.Http.{Request, Response, add_header, http_error}
use est_service.Backend.{Backend}
use est_service.World.{Metric, World, auth_success}
use est_service.Auth.{AuthConfig, AuthResult, authenticate, www_authenticate_headers}
use est_service.Auth.Laws.{Evidence, authenticate-Evidence}
use est_service.Handlers.Base.{
  EnrollHandler, add_challenges, audit_entry, authenticate_request, parse_and_validate_csr, proceed,
  record_audit, record_auth_failure, record_metric, send_auth_required,
}
use est_service.Handlers.Base.Outcome.{IsFresh, Unsuccessful, audited, refusals, unaudited}

add_challenges-IsFresh :
    (headers : List String) (r : Response) → IsFresh r → IsFresh (add_challenges headers r)
unfolding add_challenges add_header
add_challenges-IsFresh [] r f = f
add_challenges-IsFresh (header ∷ headers) r f =
    add_challenges-IsFresh headers (add_header "WWW-Authenticate" header r) f

-- A refused authentication is answered by 401.
pub send_auth_required-status :
    (cfg : AuthConfig) (r : Response) → IsFresh r → (send_auth_required cfg r).status ≡ some 401
unfolding send_auth_required
send_auth_required-status cfg r fresh =
    http_error-status "Authentication required" 401
      (add_challenges (www_authenticate_headers cfg) r)
      (add_challenges-IsFresh (www_authenticate_headers cfg) r fresh).0

module _ {R : Type 0} where
  -- What a step that can end the request leaves.
  abbrev pub Leaves :
      {A : Type 0}
      → (A → Response → World R → Type 0)
      → (Response → World R → Type 0)
      → Option A × Response × World R
      → Type 0
  Leaves Good Bad (none, r, w) = Bad r w
  Leaves Good Bad (some a, r, w) = Good a r w

  pub proceed_elim :
      {A : Type 0} {Good : A → Response → World R → Type 0} {Bad : Response → World R → Type 0}
      (Q : Response × World R → Type 0) (x : Option A × Response × World R)
      (k : A → Response → World R → Response × World R)
      → Leaves Good Bad x
      → ((a : A) (r : Response) (w : World R) → Good a r w → Q (k a r w))
      → ((r : Response) (w : World R) → Bad r w → Q (r, w))
      → Q (proceed x k)
  proceed_elim Q (none, r, w) k s good bad = bad r w s
  proceed_elim Q (some a, r, w) k s good bad = good a r w s

  -- A refusal of a request that began in the world `before`.
  pub record Refused (operation : String) (before : World R) (r : Response) (w : World R)
      : Type 0 where
    pub code : ℕ
    pub status : r.status ≡ some code
    pub among : Among code refusals
    pub unsuccessful : Unsuccessful operation before w

  -- A response and a world that nothing that counts was written to.
  abbrev pub Untouched : World R → Response → World R → Type 0
  Untouched before r w = IsFresh r × (w.audit ≡ before.audit) × (w.panicked ≡ before.panicked)

module _ {R : Type 0} (crypto : Crypto) (b : Backend R) (h : EnrollHandler) (req : Request)
    (operation : String) (before : World R) where
  abbrev Bad : Response → World R → Type 0
  Bad = Refused operation before

  -- An entry of the audit log that is no success.
  pub record_audit-Unsuccessful :
      (outcome reason method : String) (w : World R)
      → (outcome ≡ "denied") ⊎ (outcome ≡ "error")
      → w.audit ≡ before.audit
      → w.panicked ≡ before.panicked
      → Unsuccessful operation before
          (record_audit h.audit_log req operation outcome reason method w)
  record_audit-Unsuccessful outcome reason method w o e p =
      if_elim (Unsuccessful operation before) h.audit_log
        (λ _.
          let e' = audit_entry req operation outcome reason method in
          audited e' (ap (λ a. e' ∷ a) e) refl o p)
        (λ _. unaudited e p)

  pub denied :
      (code : ℕ) (message reason : String) (r : Response) (w : World R)
      → Among code refusals
      → Untouched before r w
      → Bad
          (http_error message code r)
          (record_audit h.audit_log req operation "denied" reason "" w)
  denied code message reason r w among (fresh, same, calm) = record {
    code = code;
    status = http_error-status message code r fresh.0;
    among = among;
    unsuccessful = record_audit-Unsuccessful "denied" reason "" w (inl refl) same calm;
  }

  abbrev pub Authentic : AuthResult → Response → World R → Type 0
  Authentic result r w = Evidence crypto b h.auth req result × Untouched before r w

  pub record_metric-Untouched :
      (m : Metric) (r : Response) (w : World R)
      → Untouched before r w
      → Untouched before r (record_metric h.telemetry m w)
  record_metric-Untouched m r w u = if_elim (Untouched before r) h.telemetry (λ _. u) (λ _. u)

  record_auth_failure-Framed :
      (result : AuthResult) (e : GoError) (w : World R)
      → result.error ≡ some e
      → (record_auth_failure crypto b h req operation result w).audit ≡ w.audit
        × (record_auth_failure crypto b h req operation result w).panicked ≡ w.panicked
  unfolding record_auth_failure
  record_auth_failure-Framed result e w p = rw p (ground arith)

  -- The step ends the request only with 401.
  pub authenticate_request-Leaves :
      (r : Response) (w : World R)
      → before.panicked ≡ false
      → Untouched before r w
      → Leaves Authentic Bad (authenticate_request crypto b h req operation r w)
  unfolding authenticate_request send_auth_required
  authenticate_request-Leaves r w awake (fresh, same, calm) =
      let (metrics, audit, panicked) = authenticate-Framed crypto b h.auth req w in
      let result = (authenticate crypto b h.auth req w).0 in
      let w' = (authenticate crypto b h.auth req w).1 in
      if_elim (Leaves Authentic Bad) result.authenticated
        (λ granted. (
          authenticate-Evidence crypto b h.auth req w granted,
          record_metric-Untouched (auth_success result.method result.identity) r w'
              (fresh, audit ∙ same, panicked ∙ calm),
        ))
        λ refused'.
          let failed =
            record_auth_failure-Framed result _ w'
              (ap (λ x. x.error) (authenticate-refused crypto b h.auth req w refused')) in
          if_elim (Leaves Authentic Bad)
            (record_auth_failure crypto b h req operation result w').panicked
            (λ yes. absurd (false≢true (sym awake ∙ sym (failed.1 ∙ panicked ∙ calm) ∙ yes)))
            (λ _.
              denied 401 "Authentication required" "auth_failed"
                (add_challenges (www_authenticate_headers h.auth) r)
                (record_auth_failure crypto b h req operation result w') (inl refl)
                (
                  add_challenges-IsFresh (www_authenticate_headers h.auth) r fresh,
                  failed.0 ∙ audit ∙ same,
                  failed.1 ∙ panicked ∙ calm,
                ))

  -- A request that is read, of an algorithm that is allowed, with a signature that holds.
  pub record Parsed (csr : CertificateRequest) (r : Response) (w : World R) : Type 0 where
    pub read :
        read_csr_payload_with_limit crypto req.content_length req.body h.config.max_csr_size
        ≡ ok csr
    pub algorithm : validate_csr_signature_algorithm csr h.config.allowed_signature_algos ≡ ok tt
    pub signature : crypto.check_signature csr ≡ ok tt
    pub untouched : Untouched before r w

  unread :
      (code : ℕ) (message : String) (r : Response) (w : World R)
      → Among code refusals
      → Untouched before r w
      → Bad (http_error message code r) w
  unread code message r w among (fresh, same, calm) = record {
    code = code;
    status = http_error-status message code r fresh.0;
    among = among;
    unsuccessful = unaudited same calm;
  }

  -- The step ends the request only with 413 or 400.
  pub parse_and_validate_csr-Leaves :
      (r : Response) (w : World R)
      → Untouched before r w
      → Leaves Parsed Bad (parse_and_validate_csr crypto b h req operation r w)
  unfolding parse_and_validate_csr
  parse_and_validate_csr-Leaves r w u =
      elim (Result-cases
        (read_csr_payload_with_limit crypto req.content_length req.body h.config.max_csr_size)) [
          | inl (e, p) ↦
              rw (p, Leaves, parse_and_validate_csr)
                (if_elim (Leaves Parsed Bad) e.too_large
                  (λ _. unread 413 "Request body too large" r w (inr (inl refl)) u)
                  (λ _. unread 400 "Invalid CSR" r w (inr (inr (inl refl))) u))
          | inr (csr, p) ↦
              rw (p, Leaves, parse_and_validate_csr)
                (elim (Result-cases
                  (validate_csr_signature_algorithm csr h.config.allowed_signature_algos)) [
                    | inl (e, q) ↦
                        rw (q, Leaves)
                          (denied 400 "Invalid CSR signature algorithm"
                            "invalid_signature_algorithm" r w (inr (inr (inl refl))) u)
                    | inr (_, q) ↦
                        rw (q, Leaves)
                          (elim (Result-cases (crypto.check_signature csr)) [
                            | inl (e, s) ↦
                                rw (s, Leaves)
                                  (denied 400 "Invalid CSR signature" "invalid_signature" r w
                                    (inr (inr (inl refl))) u)
                            | inr (_, s) ↦
                                rw (s, Leaves)
                                  (record { read = p; algorithm = q; signature = s; untouched = u })
                          ])
                  ])
        ]
