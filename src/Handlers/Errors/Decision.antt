-- ===== src/Handlers/Errors/Decision.antt =====
-- The answers to backend errors as a table, and that the code decides by it.
use mathlib.Core.List.{map}
use est_service.Prelude.{
  =ℕ=_iff, Bool-cases, GoError, List, String, [], ap, arith, codes, contains, false, if_elim, inl,
  inr, prefix_of, refl, sym, to_lower, true, ℕ, ◌++◌, ◌∙◌, ◌∷◌, ◌≡◌, ◌⊎◌,
}
use est_service.Handlers.Errors.{
  BackendError, ErrorClass, answer, bad_request_patterns, classify, classify_lower,
  extract_backend_error, forbidden_patterns, mentions, not_found_patterns, parse_backend_error,
  sealed_patterns, unauthorized_patterns, unavailable_patterns,
}

-- The pattern stands somewhere in the text.
abbrev pub Occurs : List ℕ → List ℕ → Type 0
Occurs p text = (before after : List ℕ) × (text ≡ before ++ (p ++ after))

-- Some pattern of the list stands in the text.
abbrev pub OccursSome : List String → List ℕ → Type 0
OccursSome [] text = ⊥
OccursSome (p ∷ ps) text = Occurs (codes p) text ⊎ OccursSome ps text

prefix_of_sound :
    (p text : List ℕ) → prefix_of p text ≡ true → (after : List ℕ) × (text ≡ p ++ after)
unfolding prefix_of
prefix_of_sound [] text h = (text, refl)
prefix_of_sound (c ∷ p) [] h = absurd (ground (arith, h))
prefix_of_sound (c ∷ p) (d ∷ text) h =
    let (after, same) = prefix_of_sound p text (ground (arith, h)) in
    let first : c ≡ d = (=ℕ=_iff c d).0 (ground (arith, h)) in
    (after, ap (λ x. x ∷ text) (sym first) ∙ ap (λ l. c ∷ l) same)

prefix_of_complete : (p after : List ℕ) → prefix_of p (p ++ after) ≡ true
unfolding prefix_of
prefix_of_complete [] after = refl
prefix_of_complete (c ∷ p) after = ground (arith, prefix_of_complete p after, (=ℕ=_iff c c).1 refl)

contains_sound : (text p : List ℕ) → contains text p ≡ true → Occurs p text
unfolding contains
contains_sound [] p h = let (after, same) = prefix_of_sound p [] h in ([], after, same)
contains_sound (c ∷ text) p h = elim (Bool-cases (prefix_of p (c ∷ text))) [
  | inl here ↦ let (after, same) = prefix_of_sound p (c ∷ text) here in ([], after, same)
  | inr other ↦
      let (before, after, same) = contains_sound text p (ground (arith, h, other)) in
      (c ∷ before, after, ap (λ l. c ∷ l) same)
]

contains_prefix : (p after : List ℕ) → contains (p ++ after) p ≡ true
unfolding contains
contains_prefix [] [] = prefix_of_complete [] []
contains_prefix [] (c ∷ after) = ground (arith, prefix_of_complete [] (c ∷ after))
contains_prefix (c ∷ p) after = ground (arith, prefix_of_complete (c ∷ p) after)

contains_complete : (before p after : List ℕ) → contains (before ++ (p ++ after)) p ≡ true
unfolding contains
contains_complete [] p after = contains_prefix p after
contains_complete (c ∷ before) p after = ground (arith, contains_complete before p after)

mentions_sound : (text : List ℕ) (ps : List String) → mentions text ps ≡ true → OccursSome ps text
unfolding mentions
mentions_sound text [] h = absurd (ground (arith, h))
mentions_sound text (p ∷ ps) h = elim (Bool-cases (contains text (codes p))) [
  | inl here ↦ inl (contains_sound text (codes p) here)
  | inr other ↦ inr (mentions_sound text ps (ground (arith, h, other)))
]

mentions_complete :
    (text : List ℕ) (ps : List String) → OccursSome ps text → mentions text ps ≡ true
unfolding mentions
mentions_complete text [] none_left = elim none_left [ ]
mentions_complete text (p ∷ ps) (inl (before, after, same)) =
    let found : contains text (codes p) ≡ true =
      rw same (contains_complete before (codes p) after) in
    ground (arith, found)
mentions_complete text (p ∷ ps) (inr later) = ground (arith, mentions_complete text ps later)

-- No pattern of the list stands in the text.
mentions_no : (text : List ℕ) (ps : List String) → mentions text ps ≡ false → OccursSome ps text → ⊥
mentions_no text ps h occurs = ground (arith, h, mentions_complete text ps occurs)

-- The patterns of a row, and its status, seconds to retry after (0 for no advice) and message.
abbrev pub Row : Type 0
Row = List String × (ℕ × ℕ × String)

-- The rows in the order of their precedence; an error of none of them gives 502.
abbrev pub table : List Row
table =
    (forbidden_patterns, (403, 0, "Certificate signing request rejected: insufficient permissions"))
    ∷ (unauthorized_patterns, (401, 0, "Backend authentication failed"))
    ∷ (bad_request_patterns, (400, 0, "Invalid certificate request"))
    ∷ (not_found_patterns, (404, 0, "PKI mount or role not found"))
    ∷ (unavailable_patterns, (503, 30, "Backend service unavailable"))
    ∷ (sealed_patterns, (503, 120, "Backend service temporarily unavailable"))
    ∷ []

-- What the first row decides that has a pattern in the text.
pub data Decided (text : List ℕ) : List Row → ℕ × ℕ × String → Type 0 where
  by_none : Decided text [] (502, 0, "PKI backend error")
  by_first :
      {ps : List String} {rows : List Row} (given : ℕ × ℕ × String)
      → OccursSome ps text
      → Decided text ((ps, given) ∷ rows) given
  by_rest :
      {ps : List String} {rows : List Row} {other given : ℕ × ℕ × String}
      → (OccursSome ps text → ⊥)
      → Decided text rows given
      → Decided text ((ps, other) ∷ rows) given

-- What an answer says, besides its details.
abbrev pub told : BackendError → ℕ × ℕ × String
told e = (e.status_code, e.retry_after, e.message)

classify_lower-Decided :
    (text : List ℕ) (details : String)
    → Decided text table (told (answer (classify_lower text) details))
unfolding classify_lower answer
classify_lower-Decided text details =
    let Goal : ErrorClass → Type 0 = λ c. Decided text table (told (answer c details)) in
    let yes = mentions_sound text in
    let no = mentions_no text in
    if_elim Goal (mentions text forbidden_patterns) (λ h. by_first _ (yes _ h))
      λ a.
        if_elim Goal (mentions text unauthorized_patterns)
          (λ h. by_rest (no _ a) (by_first _ (yes _ h)))
          λ b.
            if_elim Goal (mentions text bad_request_patterns)
              (λ h. by_rest (no _ a) (by_rest (no _ b) (by_first _ (yes _ h))))
              λ c.
                if_elim Goal (mentions text not_found_patterns)
                  (λ h.
                    by_rest (no _ a) (by_rest (no _ b) (by_rest (no _ c) (by_first _ (yes _ h)))))
                  λ d.
                    if_elim Goal (mentions text unavailable_patterns)
                      (λ h. by_rest (no _ a) (
                        by_rest (no _ b)
                          (by_rest (no _ c) (by_rest (no _ d) (by_first _ (yes _ h))))))
                      λ e.
                        if_elim Goal (mentions text sealed_patterns)
                          (λ h. by_rest (no _ a) (
                            by_rest (no _ b) (
                              by_rest (no _ c)
                                (by_rest (no _ d) (by_rest (no _ e) (by_first _ (yes _ h)))))))
                          (λ f. by_rest (no _ a) (
                            by_rest (no _ b) (
                              by_rest (no _ c)
                                (by_rest (no _ d) (by_rest (no _ e) (by_rest (no _ f) by_none))))))

-- A backend error is answered by the status, the time to retry after and the message of the first row
-- of the table with a pattern that stands somewhere in the error's text in lower case: 403, 401, 400
-- and 404 with no advice to retry, 503 with 30 seconds where the backend is not reached and with 120
-- where it is sealed or on standby; and by 502 where no row has one.
pub parse_backend_error-Decided :
    (e : GoError) → Decided (map to_lower (codes e.text)) table (told (parse_backend_error e))
unfolding parse_backend_error classify
parse_backend_error-Decided e =
    classify_lower-Decided (map to_lower (codes e.text)) (extract_backend_error e.text)
