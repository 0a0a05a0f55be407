-- ===== src/Backend/Objects.antt =====
-- The backend objects of pkg/backend/common_impl.go: a table of `commonBackend` values by handle. The
-- base object has the handle 0; a closed object has no client.
pub mod Laws
pub mod Quiet
use est_service.Prelude.{
  Bool, List, Option, Result, String, [], context, err, errorf, length, none, ok, some, suc, true,
  wrap, zero, ℕ, ◌++◌, ◌∷◌,
}
use est_service.Backend.{Handle, Health}
use est_service.Backend.Api.{Api, Fields, Secret}

-- A request that was sent, with the token of the client that sent it.
pub data Sent : Type 0 where
  wrote : String → String → Option Fields → Sent
  read_path deleted read_raw_path : String → String → Sent
  asked_health asked_mounts renewed : String → Sent

-- `temporary` has the tokens of the clients that LookupToken makes, which are no backend objects and
-- are never cleared; `faulted` is set where the code uses a nil client.
pub record Clients (S : Type 0) : Type 0 where
  pub remote : S
  pub objects : List (Option String)
  pub temporary : List String
  pub sent : List Sent
  pub faulted : Bool

-- The token of an object's client.
unfoldable pub token_of : Handle → List (Option String) → Option String
token_of h [] = none
token_of zero (object ∷ objects) = object
token_of (suc h) (object ∷ objects) = token_of h objects

-- `b.client = nil`
unfoldable pub without_client : Handle → List (Option String) → List (Option String)
without_client h [] = []
without_client zero (object ∷ objects) = none ∷ objects
without_client (suc h) (object ∷ objects) = object ∷ without_client h objects

-- A method: its result, and the objects and the server behind it.
abbrev pub Method : Type 0 → Type 0 → Type 0
Method S A = Clients S → Result A × Clients S

module _ {S : Type 0} where
  abbrev pub after : {A B : Type 0} → Result A × Clients S → (A → Method S B) → Result B × Clients S
  after (err e, c) rest = (err e, c)
  after (ok a, c) rest = rest a c

  -- `if err != nil { return err }`, and the rest
  infixl 5 ◌>>=◌
  abbrev pub ◌>>=◌ : {A B : Type 0} → Method S A → (A → Method S B) → Method S B
  ◌>>=◌ m rest c = after (m c) rest

  -- A step that does not reach the server.
  abbrev pub pure_step : {A : Type 0} → Result A → Method S A
  pure_step r c = (r, c)

  -- A step whose error does not count, and the rest.
  abbrev pub ignored : {A B : Type 0} → Method S A → Method S B → Method S B
  ignored m rest c = rest (m c).1

  -- `fmt.Errorf(prefix + "%w", err)` around a step
  abbrev pub step : {A : Type 0} → String → Method S A → Method S A
  step prefix m c = let (r, c') = m c in (context prefix r, c')

  -- A request of the object's client.
  unfoldable pub request :
      {A : Type 0} → Handle → (String → Sent) → (String → S → Result A × S) → Method S A
  unfolding token_of
  request h describe call c = elim (token_of h c.objects) [
    | none ↦ (err (errorf "nil client"), record c { faulted = true })
    | some token ↦
        let (reply, s) = call token c.remote in
        (reply, record c { remote = s; sent = describe token ∷ c.sent })
  ]

module _ {S : Type 0} (api : Api S) (h : Handle) where
  -- b.client.Logical() with WriteWithContext, ReadWithContext, DeleteWithContext, ReadRawWithContext
  abbrev pub write : String → Option Fields → Method S (Option Secret)
  write path fields = request h (λ t. wrote t path fields) (λ t. api.write t path fields)

  abbrev pub read : String → Method S (Option Secret)
  read path = request h (λ t. read_path t path) (λ t. api.read t path)

  abbrev pub delete : String → Method S (Option Secret)
  delete path = request h (λ t. deleted t path) (λ t. api.delete t path)

  abbrev pub read_raw : String → Method S (Result (List ℕ))
  read_raw path = request h (λ t. read_raw_path t path) (λ t. api.read_raw t path)

  -- `Health`
  unfoldable pub check_health : Option ℕ → Method S Health
  check_health timeout =
      step "failed to check health: " (request h asked_health (api.health timeout))

-- `cloneWithToken`, of an object that has a client
unfoldable pub clone_with_token : {S : Type 0} → Api S → Handle → String → Method S Handle
unfolding token_of
clone_with_token api h token c = elim (token_of h c.objects) [
  | none ↦ (err (errorf "nil client"), record c { faulted = true })
  | some _ ↦ elim (api.cloned c.remote) [
    | err e ↦ (err (wrap "failed to clone client: " e), c)
    | ok _ ↦ (ok (length c.objects), record c { objects = c.objects ++ some token ∷ [] })
  ]
]

-- `Close`: SetToken("") on the client, and the client is dropped.
unfoldable pub close : {S : Type 0} → Handle → Clients S → Clients S
unfolding without_client
close h c = record c { objects = without_client h c.objects }
