-- ===== src/Handlers/Kept.antt =====
-- What the logins and every signing keep, the enrollment handlers keep.
use mathlib.Core.Path.{subst⁻¹}
use est_service.Prelude.{Option, String, arith, if_elim, none, not, some, ◌==◌, ◌≡◌}
use est_service.X509.{CertificateRequest, Crypto}
use est_service.Http.{Request, Response}
use est_service.Backend.{Backend}
use est_service.World.{World}
use est_service.Auth.{AuthResult, authenticate}
use est_service.Auth.Kept.{LoginsKeep, authenticate-Keeps}
use est_service.Handlers.Policy.{EnrollmentRequest, process_csr_signing}
use est_service.Handlers.Base.{
  EnrollHandler, authenticate_request, parse_and_validate_csr, proceed, record_auth_failure,
}
use est_service.Handlers.Enroll.{issue, serve_enroll}
use est_service.Handlers.Reenroll.{check_client, serve_reenroll}

abbrev pub SigningsKeep : {R : Type 0} → Backend R → (R → Type 0) → Type 0
SigningsKeep {R} b P =
    (req : EnrollmentRequest) (default_mount : String) (w : World R)
    → P w.remote
    → P (process_csr_signing b req default_mount w).1.remote

module _ {R : Type 0} (P : R → Type 0) where
  proceed-Keeps :
      {A : Type 0} (x : Option A × Response × World R)
      (k : A → Response → World R → Response × World R)
      → P x.2.remote
      → ((a : A) (r : Response) (w : World R) → P w.remote → P (k a r w).1.remote)
      → P (proceed x k).1.remote
  proceed-Keeps (none, r, w) k h rest = h
  proceed-Keeps (some a, r, w) k h rest = rest a r w h

module _ {R : Type 0} (crypto : Crypto) (b : Backend R) (P : R → Type 0) (logins : LoginsKeep b P)
    (signings : SigningsKeep b P) (h : EnrollHandler) (req : Request) where
  record_auth_failure-remote :
      (operation : String) (result : AuthResult) (w : World R)
      → (record_auth_failure crypto b h req operation result w).remote ≡ w.remote
  unfolding record_auth_failure
  record_auth_failure-remote operation result w = ground arith

  authenticate_request-Keeps :
      (operation : String) (r : Response) (w : World R)
      → P w.remote
      → P (authenticate_request crypto b h req operation r w).2.remote
  unfolding authenticate_request
  authenticate_request-Keeps operation r w p =
      let result = (authenticate crypto b h.auth req w).0 in
      let w' = (authenticate crypto b h.auth req w).1 in
      let kept = authenticate-Keeps crypto b P logins h.auth req w p in
      let failed = subst⁻¹ P (record_auth_failure-remote operation result w') kept in
      let Keeps : Option AuthResult × Response × World R → Type 0 = λ x. P x.2.remote in
      if_elim Keeps result.authenticated
        (λ _. if_elim (λ (v : World R). P v.remote) h.telemetry (λ _. kept) (λ _. kept))
        λ _.
          if_elim Keeps (record_auth_failure crypto b h req operation result w').panicked
            (λ _. failed)
            (λ _. if_elim (λ (v : World R). P v.remote) h.audit_log (λ _. failed) (λ _. failed))

  parse_and_validate_csr-remote :
      (operation : String) (r : Response) (w : World R)
      → (parse_and_validate_csr crypto b h req operation r w).2.remote ≡ w.remote
  unfolding parse_and_validate_csr
  parse_and_validate_csr-remote operation r w = ground arith

  check_client-remote :
      (csr : CertificateRequest) (r : Response) (w : World R)
      → (check_client crypto b h req csr r w).2.remote ≡ w.remote
  unfolding check_client
  check_client-remote csr r w = ground arith

  issue-remote :
      (operation description : String) (result : AuthResult) (csr : CertificateRequest)
      (r : Response) (w : World R)
      → (issue crypto b h req operation description result csr r w).1.remote
        ≡ (process_csr_signing b
            (record { csr = csr; auth_token = result.token; policy = h.config.default_policy })
            h.config.default_mount
            w).1.remote
  unfolding issue
  issue-remote operation description result csr r w = ground arith

  issue-Keeps :
      (operation description : String) (result : AuthResult) (csr : CertificateRequest)
      (r : Response) (w : World R)
      → P w.remote
      → P (issue crypto b h req operation description result csr r w).1.remote
  issue-Keeps operation description result csr r w p =
      subst⁻¹ P (issue-remote operation description result csr r w) (
        signings (record { csr = csr; auth_token = result.token; policy = h.config.default_policy })
          h.config.default_mount w p)

  parsed_enroll-Keeps :
      (result : AuthResult) (r : Response) (w : World R)
      → P w.remote
      → P
          (proceed
            (parse_and_validate_csr crypto b h req "enroll" r w)
            λ csr. issue crypto b h req "enroll" "certificate enrollment" result csr).1.remote
  parsed_enroll-Keeps result r w p =
      proceed-Keeps P (parse_and_validate_csr crypto b h req "enroll" r w)
        (λ csr. issue crypto b h req "enroll" "certificate enrollment" result csr)
        (subst⁻¹ P (parse_and_validate_csr-remote "enroll" r w) p)
        (issue-Keeps "enroll" "certificate enrollment" result)

  pub serve_enroll-Keeps :
      (r : Response) (w : World R) → P w.remote → P (serve_enroll crypto b h req r w).1.remote
  unfolding serve_enroll
  serve_enroll-Keeps r w p =
      if_elim (λ (x : Response × World R). P x.1.remote) (not (req.method == "POST")) (λ _. p)
        λ _.
          proceed-Keeps P (authenticate_request crypto b h req "enroll" r w)
            (λ result r' w'.
              proceed (parse_and_validate_csr crypto b h req "enroll" r' w')
                λ csr. issue crypto b h req "enroll" "certificate enrollment" result csr)
            (authenticate_request-Keeps "enroll" r w p) parsed_enroll-Keeps

  abbrev renewed : AuthResult → CertificateRequest → Response → World R → Response × World R
  renewed result csr = issue crypto b h req "reenroll" "certificate re-enrollment" result csr

  abbrev checked : AuthResult → CertificateRequest → Response → World R → Response × World R
  checked result csr r w = proceed (check_client crypto b h req csr r w) λ _. renewed result csr

  abbrev reparsed : AuthResult → Response → World R → Response × World R
  reparsed result r w =
      proceed (parse_and_validate_csr crypto b h req "reenroll" r w) (checked result)

  checked-Keeps :
      (result : AuthResult) (csr : CertificateRequest) (r : Response) (w : World R)
      → P w.remote
      → P (checked result csr r w).1.remote
  checked-Keeps result csr r w p =
      proceed-Keeps P (check_client crypto b h req csr r w) (λ _. renewed result csr)
        (subst⁻¹ P (check_client-remote csr r w) p)
        (λ _. issue-Keeps "reenroll" "certificate re-enrollment" result csr)

  reparsed-Keeps :
      (result : AuthResult) (r : Response) (w : World R)
      → P w.remote
      → P (reparsed result r w).1.remote
  reparsed-Keeps result r w p =
      proceed-Keeps P (parse_and_validate_csr crypto b h req "reenroll" r w) (checked result)
        (subst⁻¹ P (parse_and_validate_csr-remote "reenroll" r w) p) (checked-Keeps result)

  pub serve_reenroll-Keeps :
      (r : Response) (w : World R) → P w.remote → P (serve_reenroll crypto b h req r w).1.remote
  unfolding serve_reenroll
  serve_reenroll-Keeps r w p =
      if_elim (λ (x : Response × World R). P x.1.remote) (not (req.method == "POST")) (λ _. p)
        λ _.
          proceed-Keeps P (authenticate_request crypto b h req "reenroll" r w) reparsed
            (authenticate_request-Keeps "reenroll" r w p) reparsed-Keeps
