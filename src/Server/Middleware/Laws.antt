-- ===== src/Server/Middleware/Laws.antt =====
-- What the middleware lets through, and what it adds.
use Prim.Native.Nat.{◌≤◌}
use est_service.Prelude.{
  String, arith, eq_iff, if_elim, if◌then◌else◌, len, ltb, refl, some, ◌==◌, ◌=ℕ=◌, ◌||◌, ◌≡◌, ◌≢◌,
}
use est_service.X509.{Crypto}
use est_service.Http.{Request, Response}
use est_service.Backend.{Backend}
use est_service.World.{World}
use est_service.Auth.{AuthConfig, authenticate}
use est_service.Auth.Laws.{Evidence, authenticate-Evidence}
use est_service.Handlers.Base.Outcome.{IsFresh}
use est_service.Handlers.Base.Steps.{send_auth_required-status}
use est_service.Server.Middleware.{Handler, auth_middleware, request_id_of}

module _ {R : Type 0} (crypto : Crypto) (b : Backend R) (cfg : AuthConfig) (next : Handler R)
    (req : Request) (r : Response) (w : World R) where
  -- What the authentication of an internal endpoint leads to.
  pub data Guarded (x : Response × World R) : Type 0 where
    passed :
        Evidence crypto b cfg req (authenticate crypto b cfg req w).0
        → x ≡ next req r (authenticate crypto b cfg req w).1
        → Guarded x
    stopped : x.0.status ≡ some 401 → x.1 ≡ (authenticate crypto b cfg req w).1 → Guarded x

  -- A request to a guarded endpoint with a fresh response reaches the endpoint only with
  -- evidence of an authentication; otherwise it is answered by 401 and the endpoint does not run.
  pub auth_middleware-Guarded : IsFresh r → Guarded (auth_middleware crypto b cfg next req r w)
  unfolding auth_middleware
  auth_middleware-Guarded fresh =
      if_elim Guarded (authenticate crypto b cfg req w).0.authenticated
        (λ granted. passed (authenticate-Evidence crypto b cfg req w granted) refl)
        (λ _. stopped (send_auth_required-status cfg r fresh) refl)

abbrev IsRequestId : String → Type 0
IsRequestId id = (id ≢ "") × (len id ≤ 128)

or_unknown-IsRequestId :
    (id : String) → len id ≤ 128 → IsRequestId (if id == "" then "unknown" else id)
or_unknown-IsRequestId id h =
    if_elim IsRequestId (id == "")
      (λ _. (λ e. ground (arith, (eq_iff "unknown" "").1 e), omega arith))
      (λ full. (λ e. ground (arith, full, (eq_iff id "").1 e), h))

-- The request ID that the handlers see is never empty, and has at most 128 bytes where a new one
-- has.
pub request_id_of-bounded :
    (header new_id : String)
    → len new_id ≤ 128
    → (request_id_of header new_id ≢ "") × (len (request_id_of header new_id) ≤ 128)
unfolding request_id_of
request_id_of-bounded header new_id h =
    or_unknown-IsRequestId (if len header =ℕ= 0 || ltb 128 (len header) then new_id else header) (
      if_elim (λ id. len id ≤ 128) (len header =ℕ= 0 || ltb 128 (len header)) (λ _. h)
        (λ short. ground (arith, short)))
