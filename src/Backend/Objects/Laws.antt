-- ===== src/Backend/Objects/Laws.antt =====
-- What the steps of a method do to the backend objects.
use est_service.Backend.Objects.{Clients, Sent, after, pure_step, request, token_of, without_client}
use est_service.Prelude.{
  List, Option, Result, String, [], ap, err, length, none, ok, refl, some, ◌++◌, ◌∷◌, ◌≡◌,
}
use est_service.Backend.{Handle}

-- A new object at the end of the table.
pub token_of-append :
    (objects : List (Option String)) (o : Option String)
    → token_of (length objects) (objects ++ o ∷ []) ≡ o
unfolding token_of
token_of-append [] o = refl
token_of-append (p ∷ objects) o = token_of-append objects o

pub without_client-append :
    (objects : List (Option String)) (o : Option String)
    → without_client (length objects) (objects ++ o ∷ []) ≡ objects ++ none ∷ []
unfolding without_client
without_client-append [] o = refl
without_client-append (p ∷ objects) o = ap (λ os. p ∷ os) (without_client-append objects o)

module _ {S : Type 0} where
  -- The objects are as they were, no nil client was used, and these requests were sent, latest first.
  pub record Sends (requests : List Sent) (c c' : Clients S) : Type 0 where
    pub objects : c'.objects ≡ c.objects
    pub faulted : c'.faulted ≡ c.faulted
    pub sent : c'.sent ≡ requests ++ c.sent

  pub Sends-nothing : (c : Clients S) → Sends [] c c
  Sends-nothing c = record { objects = refl; faulted = refl; sent = refl }

  -- A request of an object that has a client.
  pub request-Sends :
      {A : Type 0} (h : Handle) {t : String} (describe : String → Sent)
      (call : String → S → Result A × S) (c : Clients S)
      → token_of h c.objects ≡ some t
      → Sends (describe t ∷ []) c (request h describe call c).1
  unfolding request
  request-Sends h describe call c opened =
      rw (opened, request) (record { objects = refl; faulted = refl; sent = refl })

  -- A last step that does not reach the server.
  pub ended-Sends :
      {A B : Type 0} {requests : List Sent} {c : Clients S} (x : Result A × Clients S)
      (f : A → Result B)
      → Sends requests c x.1
      → Sends requests c (after x (λ a. pure_step (f a))).1
  ended-Sends (err e, c') f sends = sends
  ended-Sends (ok a, c') f sends = sends
