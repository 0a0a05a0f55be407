-- ===== src/Handlers/Errors/Laws.antt =====
-- Which status a backend error gives.
use Prim.Native.String
use mathlib.Core.List.{map-append, map}
use Prim.Native.Char.{code}
use text.Mathlib.TextLemmas.{cons-append, nil-append}
use est_service.Http.{Response, http_error, set_header}
use est_service.Http.Laws.{http_error-status}
use est_service.Prelude.{
  Among, Bool, GoError, List, String, [], ap, arith, codes, contains, errorf, if_elim, inl, inr,
  itoa, ltb, none, refl, some, to_lower, true, wrap, ℕ, ◌++◌, ◌<◌, ◌||◌, ◌↔◌, ◌∙◌, ◌∷◌, ◌≡◌, ◌⊎◌,
}
use est_service.Handlers.Errors.{
  BackendError, ErrorClass, answer, bad_request, bad_request_patterns, classify, classify_lower,
  error_message, extract_backend_error, forbidden, forbidden_patterns, mentions,
  parse_backend_error, send_backend_error, unauthorized,
}

-- The statuses that a backend error can give, and that a retry is advised exactly with 503.
abbrev pub IsAnswer : BackendError → Type 0
IsAnswer e =
    ((e.status_code ≡ 503) × (0 < e.retry_after))
    ⊎ ((e.retry_after ≡ 0) × Among e.status_code (403 ∷ 401 ∷ 400 ∷ 404 ∷ 502 ∷ []))

answer-IsAnswer : (c : ErrorClass) (details : String) → IsAnswer (answer c details)
unfolding answer
answer-IsAnswer forbidden details = ground arith
answer-IsAnswer _ details = ground arith

-- Every backend error is answered by 400, 401, 403, 404 or 502 with no advice to retry, or by 503
-- with a time to retry after.
pub parse_backend_error-IsAnswer : (e : GoError) → IsAnswer (parse_backend_error e)
unfolding parse_backend_error
parse_backend_error-IsAnswer e = answer-IsAnswer (classify e.text) (extract_backend_error e.text)

codes-append : (s t : String) → codes (String.◌++◌ s t) ≡ codes s ++ codes t
codes-append String.[] t = ap codes (nil-append t)
codes-append (String.◌∷◌ c s) t =
    ap codes (cons-append c s t) ∙ ap (λ l. code c ∷ l) (codes-append s t)

contains-append : (a s p : List ℕ) → contains s p ≡ true → contains (a ++ s) p ≡ true
unfolding contains
contains-append [] s p h = h
contains-append (c ∷ a) s p h = ground (arith, contains-append a s p h)

mentions-append :
    (a s : List ℕ) (ps : List String) → mentions s ps ≡ true → mentions (a ++ s) ps ≡ true
unfolding mentions
mentions-append a s [] h = h
mentions-append a s (p ∷ ps) h =
    ground (arith, contains-append a s (codes p), mentions-append a s ps)

lower-append :
    (s t : String)
    → map to_lower (codes (String.◌++◌ s t)) ≡ map to_lower (codes s) ++ map to_lower (codes t)
lower-append s t = ap (map to_lower) (codes-append s t) ∙ map-append to_lower (codes s) (codes t)

classify_lower-forbidden_iff :
    (l : List ℕ) → (classify_lower l ≡ forbidden) ↔ (mentions l forbidden_patterns ≡ true)
unfolding classify_lower
classify_lower-forbidden_iff l = ground arith

classify-wrap :
    (prefix text : String)
    → classify text ≡ forbidden
    → classify (String.◌++◌ prefix text) ≡ forbidden
unfolding classify
classify-wrap prefix text h = rw (lower-append prefix text) (
    (classify_lower-forbidden_iff _).1 (
      mentions-append (map to_lower (codes prefix)) (map to_lower (codes text)) forbidden_patterns
        ((classify_lower-forbidden_iff _).0 h)))

status-forbidden :
    (e : GoError) → classify e.text ≡ forbidden → (parse_backend_error e).status_code ≡ 403
unfolding parse_backend_error answer
status-forbidden e h = rw h

answer-forbidden :
    (c : ErrorClass) (details : String) → (answer c details).status_code ≡ 403 → c ≡ forbidden
unfolding answer
answer-forbidden forbidden details h = refl
answer-forbidden _ details h = absurd (omega arith)

-- However an error is wrapped, one that is answered by 403 still is.
pub parse_backend_error-wrap :
    (prefix : String) (e : GoError)
    → (parse_backend_error e).status_code ≡ 403
    → (parse_backend_error (wrap prefix e)).status_code ≡ 403
unfolding parse_backend_error
parse_backend_error-wrap prefix e h = status-forbidden (wrap prefix e) (
    classify-wrap prefix e.text
      (answer-forbidden (classify e.text) (extract_backend_error e.text) h))

bad_request_class :
    (l : List ℕ)
    → mentions l bad_request_patterns ≡ true
    → (classify_lower l ≡ forbidden)
      ⊎ (classify_lower l ≡ unauthorized)
      ⊎ (classify_lower l ≡ bad_request)
unfolding classify_lower
bad_request_class l h = ground arith

or_last : (a b c : Bool) → c ≡ true → (a || (b || c)) ≡ true
or_last a b c h = ground arith

mentions-invalid :
    (kind : String)
    → mentions
        (map to_lower (codes (String.◌++◌ "invalid policy type: " kind)))
        bad_request_patterns
      ≡ true
unfolding mentions contains to_lower
mentions-invalid kind = rw (lower-append "invalid policy type: " kind) (or_last _ _ true refl)

-- Whatever the type is, the error that names it as invalid gives 400, 401 or 403.
pub invalid_policy_type :
    (kind : String)
    → Among
        (parse_backend_error (errorf (String.◌++◌ "invalid policy type: " kind))).status_code
        (403 ∷ 401 ∷ 400 ∷ [])
unfolding parse_backend_error classify answer
invalid_policy_type kind = elim (bad_request_class _ (mentions-invalid kind)) [
  | inl e ↦ rw e (inl refl)
  | inr (inl e) ↦ rw e (inr (inl refl))
  | inr (inr e) ↦ rw e (inr (inr (inl refl)))
]

-- The status that is sent is the error's.
pub send_backend_error-status :
    (e : GoError) (operation : String) (r : Response)
    → r.status ≡ none
    → (send_backend_error e operation r).status ≡ some (parse_backend_error e).status_code
unfolding send_backend_error set_header
send_backend_error-status e operation r h =
    let parsed = parse_backend_error e in
    if_elim
      (λ (r' : Response).
        (http_error (error_message parsed operation) parsed.status_code r').status
        ≡ some parsed.status_code)
      (ltb 0 parsed.retry_after)
      (λ _.
        http_error-status (error_message parsed operation) parsed.status_code
          (set_header "Retry-After" (itoa parsed.retry_after) r) h)
      (λ _. http_error-status (error_message parsed operation) parsed.status_code r h)
