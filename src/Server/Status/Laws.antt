-- ===== src/Server/Status/Laws.antt =====
-- When the health handlers say that the service is well.
use est_service.Http.{Request, Response, set_header, write, write_header}
use est_service.Http.Laws.{http_error-status}
use est_service.Prelude.{
  Bool, Bool-cases, Option, Result, Result-cases, String, arith, eq_iff, err, if_elim,
  if◌then◌else◌, inl, inr, ltb_ℤ, negsuc, none, not, ok, pos, refl, some, sym, true, ℕ, ℤ, ◌&&◌,
  ◌+◌, ◌/◌, ◌<◌, ◌==◌, ◌∙◌, ◌≡◌,
}
use est_service.Backend.{Backend, Health}
use est_service.World.{World}
use est_service.Server.Status.{
  backend_status, cert_status, days_remaining, serve_deep_health, serve_health, serve_ready,
  service_status, write_json,
}

-- A certificate that expired less than a day ago is reported as critical, and not as expired.
pub cert_status-expired_today :
    (seconds : ℕ) → seconds + 1 < 86400 → cert_status (days_remaining (negsuc seconds)) ≡ "critical"
unfolding cert_status days_remaining
cert_status-expired_today seconds h =
    let today : (seconds + 1) / 86400 ≡ 0 = omega (arith, h) in rw today refl

-- The backend fails, or is sealed.
unfoldable pub is_down : Result Health → Bool
is_down (err _) = true
is_down (ok state) = state.sealed

backend_status-down :
    (reply : Result Health) (slow : Bool)
    → (backend_status reply slow == "unhealthy") ≡ is_down reply
unfolding backend_status is_down
backend_status-down (err e) slow = refl
backend_status-down (ok state) slow = elim (Bool-cases state.sealed) [
  | inl p ↦ rw p refl
  | inr p ↦ elim (Bool-cases state.initialized) [
    | inr q ↦ rw (p, q) refl
    | inl q ↦ elim (Bool-cases slow) [ inl s ↦ rw (p, q, s) refl | inr s ↦ rw (p, q, s) refl ]
  ]
]

-- The certificate makes no status unhealthy, and leaves an unhealthy one.
service_status-unhealthy :
    (status : String) (leaf : Option ℤ)
    → (service_status status leaf == "unhealthy") ≡ (status == "unhealthy")
unfolding service_status
service_status-unhealthy status none = refl
service_status-unhealthy status (some seconds) =
    if_elim (λ s. (s == "unhealthy") ≡ (status == "unhealthy"))
      (ltb_ℤ (days_remaining seconds) (pos 7) && status == "healthy")
      (λ h. rw ((eq_iff status "healthy").0 (ground (arith, h))) refl) (λ _. refl)

service_status-down :
    (reply : Result Health) (slow : Bool) (leaf : Option ℤ)
    → (service_status (backend_status reply slow) leaf == "unhealthy") ≡ is_down reply
service_status-down reply slow leaf =
    service_status-unhealthy (backend_status reply slow) leaf ∙ backend_status-down reply slow

write_json-status :
    (code : ℕ) (text : String) (r : Response)
    → r.status ≡ none
    → (write_json code text r).status ≡ some code
unfolding write_json write write_header set_header
write_json-status code text r fresh = rw fresh refl

module _ {R : Type 0} (b : Backend R) (encode : String → String) (req : Request) (r : Response)
    (w : World R) (fresh : r.status ≡ none) where
  -- The status of a request where the backend has these seconds: it must answer, and not be sealed.
  abbrev pub expected : ℕ → Option ℕ
  expected timeout =
      if not (req.method == "GET")
      then some 405
      else some (if is_down (b.health (some timeout) w.remote).0 then 503 else 200)

  serve_health-expected : (serve_health b encode req r w).0.status ≡ expected 5
  unfolding serve_health is_down
  serve_health-expected = elim (Bool-cases (req.method == "GET")) [
    | inr other ↦ rw other (http_error-status "Method not allowed" 405 r fresh)
    | inl get ↦ elim (Result-cases (b.health (some 5) w.remote).0) [
      | inl (e, p) ↦ rw (get, p) (http_error-status "Backend unavailable" 503 r fresh)
      | inr (state, p) ↦ elim (Bool-cases state.sealed) [
        | inl q ↦ rw (get, p, q) (http_error-status "Backend sealed" 503 r fresh)
        | inr q ↦ rw (get, p, q) (write_json-status 200 (encode "ok") r fresh)
      ]
    ]
  ]

  serve_ready-expected : (serve_ready b encode req r w).0.status ≡ expected 2
  unfolding serve_ready is_down
  serve_ready-expected = elim (Bool-cases (req.method == "GET")) [
    | inr other ↦ rw other (http_error-status "Method not allowed" 405 r fresh)
    | inl get ↦ elim (Result-cases (b.health (some 2) w.remote).0) [
      | inl (e, p) ↦ rw (get, p) (http_error-status "Backend unavailable" 503 r fresh)
      | inr (state, p) ↦ elim (Bool-cases state.sealed) [
        | inl q ↦ rw (get, p, q) (http_error-status "Backend sealed" 503 r fresh)
        | inr q ↦ rw (get, p, q) (write_json-status 200 (encode "ready") r fresh)
      ]
    ]
  ]

  serve_deep_health-expected :
      (leaf : Option ℤ) (slow : Bool)
      → (serve_deep_health b encode leaf slow req r w).0.status ≡ expected 5
  unfolding serve_deep_health
  serve_deep_health-expected leaf slow =
      let reply = (b.health (some 5) w.remote).0 in
      elim (Bool-cases (req.method == "GET")) [
        | inr other ↦ rw other (http_error-status "Method not allowed" 405 r fresh)
        | inl get ↦
            rw (get, service_status-down reply slow leaf)
              (write_json-status (if is_down reply then 503 else 200)
                (encode (service_status (backend_status reply slow) leaf)) r fresh)
      ]

  -- To a request whose status is not written yet, `/health` and the deep health endpoint give the
  -- same status, whatever the certificate's remaining time and whether the answer was slow: 405 where
  -- the method is not GET, 503 where the backend fails to answer in 5 seconds or is sealed, and 200
  -- otherwise, also where the deep endpoint reports a degraded service. `/ready` gives the status that
  -- is due where the backend has only 2 seconds.
  pub health_handlers_agree :
      (leaf : Option ℤ) (slow : Bool)
      → ((serve_deep_health b encode leaf slow req r w).0.status
          ≡ (serve_health b encode req r w).0.status)
        × ((serve_health b encode req r w).0.status ≡ expected 5)
        × ((serve_ready b encode req r w).0.status ≡ expected 2)
  health_handlers_agree leaf slow = (
    serve_deep_health-expected leaf slow ∙ sym serve_health-expected,
    serve_health-expected,
    serve_ready-expected,
  )
