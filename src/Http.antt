-- ===== src/Http.antt =====
-- The parts of net/http that the service uses: a request as its handlers read it, and the response
-- that a handler writes.
pub mod Laws
use Prim.Native.String
use est_service.Prelude.{List, Option, String, [], if◌then◌else◌, none, some, ℕ, ℤ, ◌++◌, ◌==◌, ◌∷◌}
use est_service.Est.Payload.{Body}
use est_service.Est.Reenroll.{Tls}

-- `authorization`, `forwarded_for` and `request_id_header` are the headers of these names, "" if
-- missing; `context_request_id` is the request ID that the context carries.
pub record Request : Type 0 where
  pub method : String
  pub path : String
  pub authorization : String
  pub forwarded_for : String
  pub request_id_header : String
  pub context_request_id : String
  pub remote_addr : String
  pub user_agent : String
  pub tls : Option Tls
  pub content_length : ℤ
  pub body : Body

-- `status` is `none` until the header is written.
pub record Response : Type 0 where
  pub status : Option ℕ
  pub headers : List (String × String)
  pub body : String

abbrev pub empty_response : Response
empty_response = record { status = none; headers = []; body = "" }

unfoldable pub without_header : String → List (String × String) → List (String × String)
without_header k [] = []
without_header k ((j, v) ∷ h) =
    let rest = without_header k h in if j == k then rest else (j, v) ∷ rest

-- w.Header().Set and Add
unfoldable pub set_header : String → String → Response → Response
set_header k v r = record r { headers = without_header k r.headers ++ (k, v) ∷ [] }

unfoldable pub add_header : String → String → Response → Response
add_header k v r = record r { headers = r.headers ++ (k, v) ∷ [] }

-- w.WriteHeader: only the first call counts.
unfoldable pub write_header : ℕ → Response → Response
write_header code r = elim r.status [ none ↦ record r { status = some code } | some _ ↦ r ]

-- w.Write, which writes the header 200 if none is written
unfoldable pub write : String → Response → Response
unfolding write_header
write text r = let r' = write_header 200 r in record r' { body = String.◌++◌ r'.body text }

-- http.Error
unfoldable pub http_error : String → ℕ → Response → Response
unfolding set_header write_header write
http_error message code r = write (String.◌++◌ message "\n") (
    write_header code (
      set_header "X-Content-Type-Options" "nosniff"
        (set_header "Content-Type" "text/plain; charset=utf-8" r)))

-- The status that the client sees: 200 where a handler wrote none.
abbrev pub status_of : Response → ℕ
status_of r = elim r.status [ none ↦ 200 | some code ↦ code ]
