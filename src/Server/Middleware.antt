-- ===== src/Server/Middleware.antt =====
-- The middleware of pkg/server/server.go: handlers from handlers. Logging is left out.
pub mod Laws
use est_service.Prelude.{
  String, false, has_prefix, if◌then◌else◌, is_some, len, ltb, ◌==◌, ◌=ℕ=◌, ◌||◌,
}
use est_service.X509.{Crypto}
use est_service.Http.{Request, Response, http_error, set_header}
use est_service.Backend.{Backend}
use est_service.World.{World}
use est_service.Auth.{AuthConfig, authenticate}
use est_service.Handlers.Base.{send_auth_required}

abbrev pub Handler : Type 0 → Type 0
Handler R = Request → Response → World R → Response × World R

-- The headers of `securityHeadersMiddleware`.
unfoldable pub secured : Request → Response → Response
secured req r =
    let r1 =
      set_header "X-Frame-Options" "DENY" (set_header "X-Content-Type-Options" "nosniff" r) in
    let r2 =
      if is_some req.tls
      then set_header "Strict-Transport-Security" "max-age=31536000; includeSubDomains" r1
      else r1 in
    let r3 = set_header "Content-Security-Policy" "default-src 'none'; frame-ancestors 'none'" r2 in
    let r4 =
      if has_prefix req.path "/.well-known/est/"
      then set_header "Expires" "0" (
          set_header "Pragma" "no-cache"
            (set_header "Cache-Control" "no-store, no-cache, must-revalidate, private" r3))
      else r3 in
    set_header "Server" "EST-Service" r4

-- The request ID: the client's, if it has one of 128 bytes at most (`len` counts the bytes of a text, as Go's does), or else the new one.
unfoldable pub request_id_of : String → String → String
request_id_of header new_id =
    let id = if len header =ℕ= 0 || ltb 128 (len header) then new_id else header in
    if id == "" then "unknown" else id

module _ {R : Type 0} where
  -- `securityHeadersMiddleware`
  unfoldable pub security_headers_middleware : Handler R → Handler R
  security_headers_middleware next req r w = next req (secured req r) w

  -- `requestIDMiddleware`, where NewRequestID gives `new_id`
  unfoldable pub request_id_middleware : String → Handler R → Handler R
  request_id_middleware new_id next req r w =
      let id = request_id_of req.request_id_header new_id in
      next (record req { context_request_id = id }) (set_header "X-Request-ID" id r) w

  -- `recoveryMiddleware`
  unfoldable pub recovery_middleware : Handler R → Handler R
  recovery_middleware next req r w =
      let (r', w') = next req r w in
      if w'.panicked
      then (http_error "Internal server error" 500 r', record w' { panicked = false })
      else (r', w')

  -- `authMiddleware`
  unfoldable pub auth_middleware : Crypto → Backend R → AuthConfig → Handler R → Handler R
  auth_middleware crypto b cfg next req r w =
      let (result, w') = authenticate crypto b cfg req w in
      if result.authenticated then next req r w' else (send_auth_required cfg r, w')
