-- ===== src/Handlers/KeyGen/Serve/Laws.antt =====
-- Every request to `/serverkeygen` ends as its contract says.
use est_service.Handlers.Policy.Frame.{process_csr_signing-Framed}
use est_service.Handlers.Errors.{parse_backend_error}
use est_service.Handlers.Errors.Laws.{send_backend_error-status}
use est_service.Handlers.Enroll.Laws.{answer-refusal}
use est_service.Http.Laws.{http_error-status}
use est_service.Handlers.Base.Steps.{send_auth_required-status}
use Prim.Native.String.{◌++◌ as append}
use text.Mathlib.TextLemmas.{nil-append}
use est_service.Prelude.{
  All, Among, Bool, GoError, List, Option-cases, Result, Result-cases, String, [], arith, eq_iff,
  err, if_elim, inl, inr, none, not, ok, refl, some, ℕ, ◌==◌, ◌∷◌, ◌≡◌,
}
use est_service.X509.{Certificate, CertificateRequest, Crypto, PrivateKey}
use est_service.KeyCrypto.{KeyCrypto}
use est_service.Http.{Request, Response, http_error, set_header, write, write_header}
use est_service.Backend.{Backend}
use est_service.World.{Metric, World, auth_failure, auth_success, certificate_rejected}
use est_service.Auth.{AuthConfig, AuthResult, authenticate}
use est_service.Auth.Laws.{Evidence, authenticate-Evidence}
use est_service.Auth.Frame.{Framed, authenticate-Framed}
use est_service.Est.Pkcs7.{create_pkcs7_certs_only}
use est_service.Handlers.Policy.{EnrollmentRequest, process_csr_signing}
use est_service.Handlers.Base.Outcome.{IsFresh}
use est_service.Handlers.KeyGen.{KeyGenConfig, KeyGenRequest, parse_server_key_gen_request}
use est_service.Handlers.KeyGen.Keys.{generate_key_pair}
use est_service.Handlers.KeyGen.Encode.{EncryptedPrivateKey, encode_private_key}
use est_service.Handlers.KeyGen.Answer.{
  multipart_body, multipart_boundary, send_server_key_gen_response,
}
use est_service.Handlers.KeyGen.Serve.Outcome.{
  IsNoIssue, KeyOutcome, Recorded, Recorded-Framed, Recorded-metric, delivered, key_gen_refusals,
  left_unwritten, not_posted, turned_down,
}
use est_service.Handlers.KeyGen.Serve.{
  client_cert_of, generate_and_sign, hand_out, metric, refuse_login, refuse_request, rejected,
  required, serve_key_gen, sign_and_hand_out, template_of,
}

answered-status :
    (crypto : Crypto) (encrypt : Bool) (encoded : List ℕ) (key : EncryptedPrivateKey) (r : Response)
    → r.status ≡ none
    → (write (multipart_body crypto encrypt encoded key) (
        write_header 200 (
          set_header "Content-Type"
            (append "multipart/mixed; boundary=" multipart_boundary)
            r))).status
      ≡ some 200
unfolding write write_header set_header
answered-status crypto encrypt encoded key r h = rw h refl

answered-body :
    (text header : String) (r : Response)
    → IsFresh r
    → (write text (write_header 200 (set_header "Content-Type" header r))).body ≡ text
unfolding write write_header set_header
answered-body text header r (h, empty) = rw (h, empty) (nil-append _)

module _ {C G R : Type 0} (keys : KeyCrypto C G) (config : KeyGenConfig) (b : Backend R) where
  generate_key_pair-Framed : (w : World R) → Framed w (generate_key_pair keys config b w).1
  unfolding generate_key_pair
  generate_key_pair-Framed w = ground arith

module _ {C G R : Type 0} (crypto : Crypto) (keys : KeyCrypto C G) (b : Backend R)
    (auth : AuthConfig) (config : KeyGenConfig) (req : Request) (r : Response) (fresh : IsFresh r)
    (before : World R) where
  abbrev Ends : Response × World R → Type 0
  Ends = KeyOutcome crypto keys b auth config req before

  -- A refusal that http.Error sends.
  down :
      (message : String) (code : ℕ) (ms : List Metric) (w : World R)
      → Among code key_gen_refusals
      → All IsNoIssue ms
      → Recorded before ms w
      → Ends (http_error message code r, w)
  down message code ms w among quiet recorded =
      turned_down code ms (http_error-status message code r fresh.0) among quiet recorded

  refuse_request-Ends :
      (e : GoError) (ms : List Metric) (w : World R)
      → All IsNoIssue ms
      → Recorded before ms w
      → Ends (refuse_request crypto keys b auth config req e r w)
  unfolding refuse_request
  refuse_request-Ends e ms w quiet recorded =
      if_elim Ends e.too_large
        (λ _. down "Request body too large" 413 ms w (inr (inr (inl refl))) quiet recorded)
        (λ _.
          down (append "Invalid request: " e.text) 400
            (certificate_rejected "serverkeygen" e.text ∷ ms) (rejected e w)
            (inr (inr (inr (inl refl)))) (tt, quiet) (Recorded-metric before w ms _ recorded))

  refuse_login-Ends :
      (result : AuthResult) (w : World R)
      → Recorded before [] w
      → Ends (refuse_login crypto keys b auth config req result r w)
  unfolding refuse_login
  refuse_login-Ends result w recorded = elim (Option-cases result.error) [
    | inl p ↦
        rw (p, refuse_login)
          (turned_down 401 [] (send_auth_required-status auth r fresh) (inr (inl refl)) tt recorded)
    | inr (e, p) ↦
        rw (p, refuse_login)
          (turned_down 401 (auth_failure result.method e.text ∷ [])
            (send_auth_required-status auth r fresh) (inr (inl refl)) (tt, tt)
            (Recorded-metric before w [] _ recorded))
  ]

  -- A step that is required: it fails with 500, or the rest goes on with its value.
  required-Ends :
      {A : Type 0} (message : String) (step : Result A) (ms : List Metric) (w : World R)
      (k : A → Response × World R)
      → All IsNoIssue ms
      → Recorded before ms w
      → ((a : A) → step ≡ ok a → Ends (k a))
      → Ends (required message step r w k)
  required-Ends message (err e) ms w k quiet recorded next =
      down message 500 (certificate_rejected "serverkeygen" e.text ∷ ms) (rejected e w) (inl refl)
        (tt, quiet) (Recorded-metric before w ms _ recorded)
  required-Ends message (ok a) ms w k quiet recorded next = next a refl

  module _ (post : req.method ≡ "POST") (result : AuthResult)
      (evidence : Evidence crypto b auth req result) (parsed : KeyGenRequest)
      (parses : parse_server_key_gen_request crypto config req result ≡ ok parsed)
      (logged_in : result ≡ (authenticate crypto b auth req before).0) (generating : World R)
      (after_login : generating
        ≡ metric
            (auth_success result.method result.identity)
            (authenticate crypto b auth req before).1)
      (key : PrivateKey) (generated : (generate_key_pair keys config b generating).0 ≡ ok key)
      (der : List ℕ)
      (created : keys.create_certificate_request (template_of parsed.csr) key ≡ ok der)
      (csr : CertificateRequest) (read : crypto.parse_certificate_request der ≡ ok csr) where
    abbrev ms : List Metric
    ms = auth_success result.method result.identity ∷ []

    abbrev quiet : All IsNoIssue ms
    quiet = (tt, tt)

    abbrev signing : EnrollmentRequest
    signing = record { csr = csr; auth_token = parsed.auth_token; policy = parsed.policy }

    hand_out-Ends :
        (cert : Certificate) (w signer : World R)
        → Recorded before ms w
        → signer ≡ (generate_key_pair keys config b generating).1
        → (process_csr_signing b signing config.default_mount signer).0 ≡ ok cert
        → Ends (hand_out crypto keys b auth config req cert key r w)
    unfolding hand_out send_server_key_gen_response
    hand_out-Ends cert w signer recorded after_generating signed =
        required-Ends "Failed to encode private key"
          (encode_private_key keys config.encrypt_private_key key (client_cert_of req)) ms w _ quiet
          recorded
          λ encoded_key key_encodes.
            elim (Result-cases (create_pkcs7_certs_only crypto (cert ∷ []))) [
              | inl (e, p) ↦ rw p (left_unwritten cert e ms p fresh.0 quiet recorded)
              | inr (encoded, p) ↦ rw p (
                  delivered post (record {
                    result = result;
                    logged_in = logged_in;
                    evidence = evidence;
                    parsed = parsed;
                    parses = parses;
                    generating = generating;
                    after_login = after_login;
                    key = key;
                    generated = generated;
                    der = der;
                    created = created;
                    csr = csr;
                    read = read;
                    signing = signer;
                    after_generating = after_generating;
                    cert = cert;
                    signed = signed;
                    encoded_key = encoded_key;
                    key_encodes = key_encodes;
                    encoded = encoded;
                    encodes = p;
                    status =
                        answered-status crypto config.encrypt_private_key encoded encoded_key r
                          fresh.0;
                    body = answered-body _ _ r fresh;
                    recorded = Recorded-metric before w ms _ recorded;
                  }))
            ]

    sign_and_hand_out-Ends :
        (w : World R)
        → Recorded before ms w
        → w ≡ (generate_key_pair keys config b generating).1
        → Ends (sign_and_hand_out crypto keys b auth config req parsed csr key r w)
    unfolding sign_and_hand_out
    sign_and_hand_out-Ends w recorded after_generating =
        let w' = (process_csr_signing b signing config.default_mount w).1 in
        let recorded' =
          Recorded-Framed before w w' ms recorded
            (process_csr_signing-Framed b signing config.default_mount w) in
        elim (Result-cases (process_csr_signing b signing config.default_mount w).0) [
          | inl (e, p) ↦
              rw (p, sign_and_hand_out)
                (turned_down (parse_backend_error e).status_code
                  (certificate_rejected "serverkeygen" e.text ∷ ms)
                  (send_backend_error-status e "certificate signing" r fresh.0)
                  (inr (answer-refusal e)) (tt, quiet) (Recorded-metric before w' ms _ recorded'))
          | inr (cert, p) ↦
              rw (p, sign_and_hand_out) (hand_out-Ends cert w' w recorded' after_generating p)
        ]

  generate_and_sign-Ends :
      (post : req.method ≡ "POST") (result : AuthResult)
      (evidence : Evidence crypto b auth req result) (parsed : KeyGenRequest)
      (parses : parse_server_key_gen_request crypto config req result ≡ ok parsed) (w : World R)
      → result ≡ (authenticate crypto b auth req before).0
      → w
        ≡ metric
            (auth_success result.method result.identity)
            (authenticate crypto b auth req before).1
      → Recorded before (auth_success result.method result.identity ∷ []) w
      → Ends (generate_and_sign crypto keys b auth config req parsed r w)
  unfolding generate_and_sign
  generate_and_sign-Ends post result evidence parsed parses w logged_in after_login recorded =
      let w' = (generate_key_pair keys config b w).1 in
      let ms : List Metric = auth_success result.method result.identity ∷ [] in
      let recorded' =
        Recorded-Framed before w w' ms recorded (generate_key_pair-Framed keys config b w) in
      required-Ends "Failed to generate key pair" (generate_key_pair keys config b w).0 ms w' _
        (tt, tt) recorded'
        λ key generated.
          required-Ends "Failed to create CSR"
            (keys.create_certificate_request (template_of parsed.csr) key) ms w' _ (tt, tt)
            recorded'
            λ der created.
              required-Ends "Failed to parse CSR" (crypto.parse_certificate_request der) ms w' _
                (tt, tt) recorded'
                λ csr read.
                  sign_and_hand_out-Ends post result evidence parsed parses logged_in w after_login
                    key generated der created csr read w' recorded' refl

module _ {C G R : Type 0} (crypto : Crypto) (keys : KeyCrypto C G) (b : Backend R)
    (auth : AuthConfig) (config : KeyGenConfig) (req : Request) (r : Response) (w : World R) where
  -- Every request to `/serverkeygen` that begins with a fresh response has one of four ends: a method
  -- that is not POST gives 405, and nothing is called; it is turned down by 400, 401, 403, 404, 413,
  -- 500, 502 or 503, and no certificate is recorded as issued; the certificate is signed but not
  -- encoded, and nothing is written; or it is delivered, and then the request was authenticated with
  -- evidence and parsed, a key was generated in the state that the authentication left, a request with
  -- the client's names was created for that key and, in the state that the generation left, signed
  -- with the requester's token, the key was encoded as the configuration and the
  -- client's certificate ask, and the response is 200 with the parts for both. The audit log never
  -- changes, and nothing panics.
  pub serve_key_gen-Outcome :
      IsFresh r
      → KeyOutcome crypto keys b auth config req w (serve_key_gen crypto keys b auth config req r w)
  unfolding serve_key_gen
  serve_key_gen-Outcome fresh =
      let Goal : Response × World R → Type 0 = KeyOutcome crypto keys b auth config req w in
      let result = (authenticate crypto b auth req w).0 in
      let w' = (authenticate crypto b auth req w).1 in
      let framed =
        Recorded-Framed w w w' [] (refl, refl, refl) (authenticate-Framed crypto b auth req w) in
      if_elim Goal (not (req.method == "POST"))
        (λ other.
          not_posted (λ e. ground (arith, other, (eq_iff _ _).1 e))
            (http_error-status "Method not allowed" 405 r fresh.0) refl)
        λ post.
          if_elim Goal (not result.authenticated)
            (λ _. refuse_login-Ends crypto keys b auth config req r fresh w result w' framed)
            λ granted.
              let m = auth_success result.method result.identity in
              let recorded = Recorded-metric w w' [] m framed in
              elim (Result-cases (parse_server_key_gen_request crypto config req result)) [
                | inl (e, p) ↦ rw p (
                    refuse_request-Ends crypto keys b auth config req r fresh w e (m ∷ [])
                      (metric m w') (tt, tt) recorded)
                | inr (parsed, p) ↦ rw p (
                    generate_and_sign-Ends crypto keys b auth config req r fresh w
                      ((eq_iff _ _).0 (ground (arith, post))) result
                      (authenticate-Evidence crypto b auth req w (ground (arith, granted))) parsed p
                      (metric m w') refl refl recorded)
              ]
