-- ===== src/Http/Laws.antt =====
-- The status of an error response.
use est_service.Prelude.{String, none, refl, some, ℕ, ◌≡◌}
use est_service.Http.{Response, http_error, set_header, write, write_header}

pub http_error-status :
    (message : String) (code : ℕ) (r : Response)
    → r.status ≡ none
    → (http_error message code r).status ≡ some code
unfolding http_error set_header write_header write
http_error-status message code r h = rw h refl
