-- ===== src/Tests/Server.antt =====
-- Runs of the middleware, the health handlers and the handlers without authentication.
use Prim.Native.Nat.{◌≤◌}
use est_service.Prelude.{
  [], arith, err, errorf, false, if◌then◌else◌, len, ltb, negsuc, none, ok, pos, refl, some, true,
  ℕ, ◌∷◌, ◌≡◌, ◌≢◌,
}
use est_service.Backend.{Backend}
use est_service.Http.{Request, empty_response}
use est_service.Handlers.CsrAttrs.{parse_components, parse_oid}
use est_service.Handlers.CsrAttrs.Laws.{dotted, parse_oid-dotted, value}
use est_service.Server.Middleware.{Handler, auth_middleware, request_id_of}
use est_service.Server.Middleware.Laws.{Guarded, auth_middleware-Guarded, request_id_of-bounded}
use est_service.Server.Status.{
  cert_status, days_remaining, serve_deep_health, serve_health, serve_ready,
}
use est_service.Server.Status.Laws.{cert_status-expired_today, health_handlers_agree, is_down}
use est_service.Tests.Fixtures.{auth, backend, crypto, request, world}

abbrev get : Request
get = record request { method = "GET" }

-- An endpoint behind the authentication.
abbrev deep : Handler ℕ
deep = serve_deep_health backend (λ status. status) none false

auth_middleware-Guarded_example :
    Guarded crypto backend auth deep get empty_response world
      (auth_middleware crypto backend auth deep get empty_response world)
auth_middleware-Guarded_example =
    auth_middleware-Guarded crypto backend auth deep get empty_response world (refl, refl)

request_id_of-bounded_example :
    (request_id_of "" "5f3a" ≢ "") × (len (request_id_of "" "5f3a") ≤ 128)
request_id_of-bounded_example = request_id_of-bounded "" "5f3a" (omega arith)

-- A backend that answers after three seconds.
abbrev three_seconds : Backend ℕ
three_seconds = record backend {
  health = λ timeout n. elim timeout [
    | none ↦ (ok (record { sealed = false; initialized = true }), n)
    | some seconds ↦
        if ltb 3 seconds
        then (ok (record { sealed = false; initialized = true }), n)
        else (err (errorf "context deadline exceeded"), n)
  ];
}

health_handlers_agree_example :
    ((serve_deep_health three_seconds
        (λ status. status)
        (some (pos 60))
        true
        get
        empty_response
        world).0.status
      ≡ (serve_health three_seconds (λ status. status) get empty_response world).0.status)
    × ((serve_health three_seconds (λ status. status) get empty_response world).0.status ≡ some 200)
    × ((serve_ready three_seconds (λ status. status) get empty_response world).0.status ≡ some 503)
unfolding is_down
health_handlers_agree_example =
    health_handlers_agree three_seconds (λ status. status) get empty_response world refl
      (some (pos 60)) true

-- A text's length is that of its UTF-8.
two_bytes : len "é" ≡ 2
two_bytes = refl

-- So a client's ID of 65 characters with two bytes each is replaced.
long_id_replaced :
    request_id_of "ééééééééééééééééééééééééééééééééééééééééééééééééééééééééééééééééé" "5f3a"
    ≡ "5f3a"
unfolding request_id_of
long_id_replaced = refl

-- A certificate that expired a minute ago.
cert_status-expired_today_example : cert_status (days_remaining (negsuc 59)) ≡ "critical"
cert_status-expired_today_example = cert_status-expired_today 59 (omega arith)

parse_oid-dotted_example : parse_oid "2.5.29.17" ≡ ok (2 ∷ 5 ∷ 29 ∷ 17 ∷ [])
unfolding dotted value
parse_oid-dotted_example =
    parse_oid-dotted "2.5.29.17" (2 ∷ []) (5 ∷ []) ((2 ∷ 9 ∷ []) ∷ (1 ∷ 7 ∷ []) ∷ []) refl (
      ((omega arith, tt), omega arith),
      (
        ((omega arith, tt), omega arith),
        (
          ((omega arith, (omega arith, tt)), omega arith),
          (((omega arith, (omega arith, tt)), omega arith), tt),
        ),
      ),
    )

-- A component may be empty.
empty_component : parse_oid "1..2" ≡ ok (1 ∷ 0 ∷ 2 ∷ [])
unfolding parse_oid parse_components
empty_component = refl
