-- ===== src/Server/Status.antt =====
-- The health handlers of pkg/server/server.go, up to the JSON text of their answers, which is the
-- parameter `encode`; a certificate's remaining time is in seconds.
pub mod Laws
use est_service.Prelude.{
  Bool, Option, Result, String, err, if◌then◌else◌, ltb_ℤ, negated, negsuc, none, not, ok, pos,
  some, ℕ, ℤ, ◌&&◌, ◌+◌, ◌/◌, ◌==◌,
}
use est_service.Http.{Request, Response, http_error, set_header, write, write_header}
use est_service.Backend.{Backend, Health}
use est_service.World.{World, call_health}
use est_service.Handlers.Base.{method_not_allowed}

-- int(time.Until(t).Hours() / 24): the whole days, towards 0
unfoldable pub days_remaining : ℤ → ℤ
days_remaining (pos seconds) = pos (seconds / 86400)
days_remaining (negsuc seconds) = negated ((seconds + 1) / 86400)

-- `certStatus`
unfoldable pub cert_status : ℤ → String
cert_status days =
    if ltb_ℤ days (pos 0)
    then "expired"
    else if ltb_ℤ days (pos 7)
    then "critical"
    else if ltb_ℤ days (pos 30)
    then "warning"
    else "ok"

-- Writing a JSON answer.
unfoldable pub write_json : ℕ → String → Response → Response
write_json code text r =
    write text (write_header code (set_header "Content-Type" "application/json" r))

module _ {R : Type 0} (b : Backend R) (encode : String → String) where
  -- `healthHandler`, where the backend has 5 seconds
  unfoldable pub serve_health : Request → Response → World R → Response × World R
  serve_health req r w =
      if not (req.method == "GET")
      then (method_not_allowed r, w)
      else let (reply, w') = call_health b (some 5) w in
        elim reply [
          | err _ ↦ (http_error "Backend unavailable" 503 r, w')
          | ok state ↦
              if state.sealed
              then (http_error "Backend sealed" 503 r, w')
              else (write_json 200 (encode "ok") r, w')
        ]

  -- `readyHandler`, where the backend has 2 seconds
  unfoldable pub serve_ready : Request → Response → World R → Response × World R
  serve_ready req r w =
      if not (req.method == "GET")
      then (method_not_allowed r, w)
      else let (reply, w') = call_health b (some 2) w in
        elim reply [
          | err _ ↦ (http_error "Backend unavailable" 503 r, w')
          | ok state ↦
              if state.sealed
              then (http_error "Backend sealed" 503 r, w')
              else (write_json 200 (encode "ready") r, w')
        ]

-- `serviceStatus` of `deepHealthHandler`, from the backend's answer
unfoldable pub backend_status : Result Health → Bool → String
backend_status (err _) slow = "unhealthy"
backend_status (ok state) slow =
    if state.sealed
    then "unhealthy"
    else if not state.initialized
    then "degraded"
    else if slow
    then "degraded"
    else "healthy"

-- `serviceStatus` after the look at the certificate, if there is one
unfoldable pub service_status : String → Option ℤ → String
service_status status none = status
service_status status (some seconds) =
    if ltb_ℤ (days_remaining seconds) (pos 7) && status == "healthy" then "degraded" else status

module _ {R : Type 0} (b : Backend R) (encode : String → String) where
  -- `deepHealthHandler`, where the backend has 5 seconds; `slow` is whether it took longer than one.
  unfoldable pub serve_deep_health :
      Option ℤ → Bool → Request → Response → World R → Response × World R
  serve_deep_health leaf slow req r w =
      if not (req.method == "GET")
      then (method_not_allowed r, w)
      else let (reply, w') = call_health b (some 5) w in
        let status = service_status (backend_status reply slow) leaf in
        (write_json (if status == "unhealthy" then 503 else 200) (encode status) r, w')
