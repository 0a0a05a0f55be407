-- ===== src/Service/Tokens.antt =====
-- The whole path of enrollment requests, from pkg/handlers through pkg/auth to the clients of
-- pkg/backend: what the service holds between two requests.
use mathlib.Core.Path.{subst⁻¹}
use est_service.Backend.Objects.{Clients, token_of}
use est_service.Prelude.{List, Option, String, [], ap, false, none, refl, some, ◌++◌, ◌∙◌, ◌∷◌, ◌≡◌}
use est_service.X509.{Crypto}
use est_service.Pem.{PemCrypto}
use est_service.Http.{Request, empty_response}
use est_service.Backend.Api.{Api}
use est_service.Backend.Objects.Quiet.{Undisturbed}
use est_service.Backend.Common.{common}
use est_service.Backend.Common.Signing.{SignedAs, cloned, idle, process_csr_signing-SignedAs}
use est_service.Backend.Common.Tokens.{common-LoginsKeep}
use est_service.World.{World}
use est_service.Handlers.Base.{EnrollHandler}
use est_service.Handlers.Policy.{EnrollmentRequest}
use est_service.Handlers.Enroll.{serve_enroll}
use est_service.Handlers.Reenroll.{serve_reenroll}
use est_service.Auth.Kept.{LoginsKeep}
use est_service.Handlers.Kept.{SigningsKeep, serve_enroll-Keeps, serve_reenroll-Keeps}

-- Every object of the list is closed, so it holds no token.
abbrev pub AllClosed : List (Option String) → Type 0
AllClosed [] = Unit {0}
AllClosed (none ∷ objects) = AllClosed objects
AllClosed (some token ∷ objects) = ⊥

-- The base object is open with its token, all others are closed, and no nil client was ever used.
pub record Resting {S : Type 0} (base : String) (c : Clients S) : Type 0 where
  pub rest : List (Option String)
  pub objects : c.objects ≡ some base ∷ rest
  pub closed : AllClosed rest
  pub sound : c.faulted ≡ false

AllClosed-append : (os : List (Option String)) → AllClosed os → AllClosed (os ++ none ∷ [])
AllClosed-append [] h = tt
AllClosed-append (none ∷ os) h = AllClosed-append os h
AllClosed-append (some token ∷ os) h = absurd h

module _ {S : Type 0} (base : String) where
  Resting-opened : (c : Clients S) → Resting base c → token_of 0 c.objects ≡ some base
  unfolding token_of
  Resting-opened c resting = rw resting.objects refl

  Resting-stable : (c c' : Clients S) → Resting base c → Undisturbed 0 base c c' → Resting base c'
  Resting-stable c c' resting (objects, faulted) = record {
    rest = resting.rest;
    objects = objects ∙ resting.objects;
    closed = resting.closed;
    sound = faulted ∙ resting.sound;
  }

  Resting-SignedAs :
      (api : Api S) (pem : PemCrypto) (req : EnrollmentRequest) (mount : String) (c c' : Clients S)
      → Resting base c
      → SignedAs api pem req mount c c'
      → Resting base c'
  Resting-SignedAs api pem req mount c c' resting (idle same) = subst⁻¹ (Resting base) same resting
  Resting-SignedAs api pem req mount c c' resting (cloned requests objects faulted sent by) =
      record {
        rest = resting.rest ++ none ∷ [];
        objects = objects ∙ ap (λ os. os ++ none ∷ []) resting.objects;
        closed = AllClosed-append resting.rest resting.closed;
        sound = faulted ∙ resting.sound;
      }

-- A request to `/simpleenroll` or `/simplereenroll`.
pub data Job : Type 0 where
  enrolls reenrolls : Request → Job

module _ {S : Type 0} (crypto : Crypto) (api : Api S) (pem : PemCrypto) (h : EnrollHandler) where
  abbrev pub serve : Job → World (Clients S) → World (Clients S)
  serve (enrolls req) w = (serve_enroll crypto (common api pem) h req empty_response w).1
  serve (reenrolls req) w = (serve_reenroll crypto (common api pem) h req empty_response w).1

  -- The requests, one after the other.
  pub serve_all : List Job → World (Clients S) → World (Clients S)
  serve_all [] w = w
  serve_all (job ∷ jobs) w = serve_all jobs (serve job w)

  logins : (base : String) → LoginsKeep (common api pem) (Resting base)
  logins base =
      common-LoginsKeep api base pem (Resting base) (Resting-stable base) (Resting-opened base)

  signings : (base : String) → SigningsKeep (common api pem) (Resting base)
  signings base req mount w r =
      Resting-SignedAs base api pem req mount w.remote _ r
        (process_csr_signing-SignedAs api pem req mount w (Resting-opened base w.remote r))

  serve-Resting :
      {base : String} (job : Job) (w : World (Clients S))
      → Resting base w.remote
      → Resting base (serve job w).remote
  serve-Resting {base} (enrolls req) w resting =
      serve_enroll-Keeps crypto (common api pem) (Resting base) (logins base) (signings base) h req
        empty_response w resting
  serve-Resting {base} (reenrolls req) w resting =
      serve_reenroll-Keeps crypto (common api pem) (Resting base) (logins base) (signings base) h
        req empty_response w resting

  -- From clients at rest (the base backend object has a client with its token, all other objects are
  -- closed, and no nil client was used), whatever enrollment and re-enrollment requests come, and
  -- whatever the server answers, the clients are at rest after them, with the same token of the base
  -- object: every backend object that was cloned for a signing is closed. Nothing is said of the
  -- clients that LookupToken makes, which are no backend objects.
  pub serve_all-Resting :
      {base : String} (jobs : List Job) (w : World (Clients S))
      → Resting base w.remote
      → Resting base (serve_all jobs w).remote
  unfolding serve_all
  serve_all-Resting [] w resting = resting
  serve_all-Resting (job ∷ jobs) w resting =
      serve_all-Resting jobs (serve job w) (serve-Resting job w resting)
