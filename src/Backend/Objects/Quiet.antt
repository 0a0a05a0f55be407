-- ===== src/Backend/Objects/Quiet.antt =====
-- Methods that leave the backend objects alone, step by step.
use est_service.Backend.Objects.{
  Clients, Method, Sent, after, ignored, pure_step, request, step, token_of, ◌>>=◌,
}
use est_service.Prelude.{Result, String, ap, err, ok, refl, some, ◌∙◌, ◌≡◌}
use est_service.Backend.{Handle}

module _ {S : Type 0} (h : Handle) (t : String) where
  abbrev pub Undisturbed : Clients S → Clients S → Type 0
  Undisturbed c c' = (c'.objects ≡ c.objects) × (c'.faulted ≡ c.faulted)

  -- The method changes no object and uses no nil client, where its own object has the token.
  abbrev pub Quiet : {A : Type 0} → Method S A → Type 0
  Quiet m = (c : Clients S) → token_of h c.objects ≡ some t → Undisturbed c (m c).1

  pub request-Quiet :
      {A : Type 0} (describe : String → Sent) (call : String → S → Result A × S)
      → Quiet (request h describe call)
  unfolding request
  request-Quiet describe call c opened = rw (opened, request) (refl, refl)

  pub step-Quiet : {A : Type 0} (prefix : String) (m : Method S A) → Quiet m → Quiet (step prefix m)
  step-Quiet prefix m quiet = quiet

  pub pure-Quiet : {A : Type 0} (r : Result A) → Quiet (pure_step r)
  pure-Quiet r c opened = (refl, refl)

  after-Undisturbed :
      {A B : Type 0} (c : Clients S) (x : Result A × Clients S) (rest : A → Method S B)
      → Undisturbed c x.1
      → ((a : A) → Undisturbed x.1 (rest a x.1).1)
      → Undisturbed c (after x rest).1
  after-Undisturbed c (err e, c') rest u k = u
  after-Undisturbed c (ok a, c') rest u k = ((k a).0 ∙ u.0, (k a).1 ∙ u.1)

  pub bind-Quiet :
      {A B : Type 0} (m : Method S A) (rest : A → Method S B)
      → Quiet m
      → ((a : A) → Quiet (rest a))
      → Quiet (m >>= rest)
  bind-Quiet m rest quiet k c opened =
      after-Undisturbed c (m c) rest (quiet c opened)
        λ a. k a (m c).1 (ap (token_of h) (quiet c opened).0 ∙ opened)

  pub ignored-Quiet :
      {A B : Type 0} (m : Method S A) (rest : Method S B)
      → Quiet m
      → Quiet rest
      → Quiet (ignored m rest)
  ignored-Quiet m rest quiet k c opened =
      let (objects, faulted) = quiet c opened in
      let (objects', faulted') = k (m c).1 (ap (token_of h) objects ∙ opened) in
      (objects' ∙ objects, faulted' ∙ faulted)
