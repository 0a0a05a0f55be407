-- ===== src/Tests/Auth.antt =====
-- Runs of pkg/auth.
use est_service.Prelude.{none, refl, strip_prefix, ℕ, ◌≡◌}
use est_service.Http.{Request}
use est_service.World.{World}
use est_service.Auth.{
  AuthResult, authenticate, authenticate_basic, authenticate_cert, authenticate_token, from_basic,
  from_cert,
}
use est_service.Auth.Laws.{Evidence, authenticate-Evidence}
use est_service.Auth.Effects.{IsLeft, authenticate-IsLeft, authenticate-refused, no_method}
use est_service.Auth.Calls.{Made, authenticate_makes}
use est_service.Tests.Fixtures.{auth, backend, crypto, request, request_with, world}

-- With a bearer token.
abbrev by_bearer : AuthResult
by_bearer = (authenticate crypto backend auth request world).0

by_bearer-token : by_bearer.token ≡ "t1"
unfolding authenticate authenticate_token strip_prefix
by_bearer-token = refl

authenticate-Evidence_example : Evidence crypto backend auth request by_bearer
unfolding authenticate authenticate_token strip_prefix
authenticate-Evidence_example = authenticate-Evidence crypto backend auth request world refl

-- With basic credentials only, and a backend that accepts the password.
abbrev basic : Request
basic = record (request_with "Basic YWxp") { tls = none }

abbrev after_basic : AuthResult × World ℕ
after_basic = authenticate crypto backend auth basic world

authenticate-IsLeft_example : IsLeft crypto backend auth basic after_basic.1
authenticate-IsLeft_example = authenticate-IsLeft crypto backend auth basic world tt

authenticate_makes_example : Made crypto backend auth basic 0 5 world after_basic.1
authenticate_makes_example = authenticate_makes crypto backend auth basic world

-- With nothing.
abbrev anonymous : Request
anonymous = record (request_with "") { tls = none }

authenticate-refused_example :
    (authenticate crypto backend auth anonymous world).0 ≡ no_method crypto backend auth anonymous
unfolding authenticate authenticate_token from_cert authenticate_cert from_basic authenticate_basic
authenticate-refused_example = authenticate-refused crypto backend auth anonymous world refl
