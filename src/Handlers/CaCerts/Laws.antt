-- ===== src/Handlers/CaCerts/Laws.antt =====
-- What `/cacerts` answers.
use est_service.Prelude.{GoError, List, String, [], err, ok, some, ℕ, ◌++◌, ◌∷◌, ◌≡◌, ◌≢◌}
use est_service.X509.{Certificate, Crypto}
use est_service.Http.{Request, Response}
use est_service.Backend.{Backend}
use est_service.World.{Call, World, ca_certificate, ca_chain}
use est_service.Est.Pkcs7.{create_pkcs7_certs_only}
use est_service.Handlers.Base.{write_certificate}
use est_service.Handlers.Base.Outcome.{IsFresh}
use est_service.Handlers.CaCerts.{get_ca_chain}

module _ {R : Type 0} (crypto : Crypto) (b : Backend R) (mount : String) (req : Request)
    (r : Response) (fresh : IsFresh r) where
  -- The certificates that the backend gave: its chain, or, where it has none, the CA's certificate.
  pub data Given : List Certificate → List Call → Type 0 where
    chain :
        {certs : List Certificate} (s : R)
        → (b.get_ca_chain mount s).0 ≡ ok certs
        → Given certs (ca_chain mount ∷ [])
    single :
        {cert : Certificate} (e : GoError) (s s' : R)
        → (b.get_ca_chain mount s).0 ≡ err e
        → (b.get_ca_certificate mount s').0 ≡ ok cert
        → Given (cert ∷ []) (ca_certificate mount ∷ ca_chain mount ∷ [])

  -- The ends of a request for the CA certificates.
  pub data Served (before : World R) (x : Response × World R) : Type 0 where
    not_get : req.method ≢ "GET" → x.0.status ≡ some 405 → x.1 ≡ before → Served before x
    unserved : req.method ≡ "GET" → x.0.status ≡ some 500 → Served before x
    served :
        (certs : List Certificate) (encoded : List ℕ) (calls : List Call)
        → req.method ≡ "GET"
        → certs ≢ []
        → Given certs calls
        → x.1.calls ≡ calls ++ before.calls
        → create_pkcs7_certs_only crypto certs ≡ ok encoded
        → x.0 ≡ write_certificate crypto encoded r
        → Served before x
