-- ===== src/Handlers/CaCerts.antt =====
-- pkg/handlers/cacerts.go
pub mod Laws
use est_service.Prelude.{
  List, Result, String, [], err, if◌then◌else◌, is_empty, not, ok, wrap, ◌==◌, ◌∷◌,
}
use est_service.X509.{Certificate, Crypto}
use est_service.Http.{Request, Response, http_error}
use est_service.Backend.{Backend}
use est_service.World.{World, call_ca_certificate, call_ca_chain}
use est_service.Est.Pkcs7.{create_pkcs7_certs_only}
use est_service.Handlers.Base.{method_not_allowed, write_certificate}

-- The answer with the encoded certificates.
unfoldable pub send_ca_certs : Crypto → List Certificate → Response → Response
send_ca_certs crypto certs r =
    if is_empty certs
    then http_error "No CA certificates available" 500 r
    else elim (create_pkcs7_certs_only crypto certs) [
      | err e ↦ http_error "Failed to encode certificates" 500 r
      | ok encoded ↦ write_certificate crypto encoded r
    ]

-- []*x509.Certificate{cert}, or the error
abbrev pub as_chain : Result Certificate → Result (List Certificate)
as_chain (ok cert) = ok (cert ∷ [])
as_chain (err e) = err (wrap "failed to get CA certificate: " e)

module _ {R : Type 0} (b : Backend R) (mount : String) where
  -- The CA's certificate alone, where the backend gave no chain.
  unfoldable pub single_ca : World R → Result (List Certificate) × World R
  single_ca w = let (cert, w') = call_ca_certificate b mount w in (as_chain cert, w')

  -- `getCAChain`
  unfoldable pub get_ca_chain : World R → Result (List Certificate) × World R
  get_ca_chain w =
      let (chain, w') = call_ca_chain b mount w in
      elim chain [ ok certs ↦ (ok certs, w') | err _ ↦ single_ca w' ]

module _ {R : Type 0} (crypto : Crypto) (b : Backend R) (mount : String) where
  -- The answer to what `getCAChain` returned.
  abbrev pub answer_chain : Response → Result (List Certificate) × World R → Response × World R
  answer_chain r (err _, w) = (http_error "Failed to retrieve CA certificates" 500 r, w)
  answer_chain r (ok certs, w) = (send_ca_certs crypto certs r, w)

  -- `CACertsHandler.ServeHTTP`, where w.Write succeeds
  unfoldable pub serve_ca_certs : Request → Response → World R → Response × World R
  serve_ca_certs req r w =
      if not (req.method == "GET")
      then (method_not_allowed r, w)
      else answer_chain r (get_ca_chain b mount w)
