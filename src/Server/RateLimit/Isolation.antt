-- ===== src/Server/RateLimit/Isolation.antt =====
-- The rate limiter refines a token bucket for each address.
use mathlib.Core.Path.{ap₂}
use est_service.Prelude.{
  Bool, Bool-cases, List, String, [], ap, eq_iff, if◌then◌else◌, inl, inr, refl, ℕ, ◌==◌, ◌∙◌, ◌∷◌,
  ◌≡◌,
}
use est_service.Server.RateLimit.{Limiters, RateLimiter, admit, limiter_of}
use est_service.Server.RateLimit.Laws.{admit-decision, admit-other, admit-own}

-- The times of one address's requests, in a sequence of times and addresses.
unfoldable pub times_of : String → List (ℕ × String) → List ℕ
times_of ip [] = []
times_of ip ((now, from) ∷ requests) =
    let rest = times_of ip requests in if from == ip then now ∷ rest else rest

module _ {L : Type 0} (limiters : Limiters L) where
  -- The decisions of one token bucket.
  unfoldable pub bucket : List ℕ → L → List Bool
  bucket [] limiter = []
  bucket (now ∷ times) limiter =
      (limiters.allow now limiter).0 ∷ bucket times (limiters.allow now limiter).1

module _ {L N : Type 0} (limiters : Limiters L) where
  -- The rate limiter's decisions for one address.
  unfoldable pub decisions : String → List (ℕ × String) → RateLimiter L N → List Bool
  decisions ip [] rl = []
  decisions ip ((now, from) ∷ requests) rl =
      let rest = decisions ip requests (admit limiters now from rl).1 in
      if from == ip then (admit limiters now from rl).0 ∷ rest else rest

  -- A request of the address itself.
  own_step :
      (now : ℕ) (ip : String) (requests : List (ℕ × String)) (rl : RateLimiter L N)
      → decisions ip requests (admit limiters now ip rl).1
        ≡ bucket limiters
            (times_of ip requests)
            (limiter_of limiters (admit limiters now ip rl).1 ip)
      → (admit limiters now ip rl).0 ∷ decisions ip requests (admit limiters now ip rl).1
        ≡ bucket limiters (now ∷ times_of ip requests) (limiter_of limiters rl ip)
  unfolding bucket
  own_step now ip requests rl rest =
      ap₂ (λ d ds. d ∷ ds) (admit-decision limiters now ip rl)
        (rest ∙ ap (bucket limiters (times_of ip requests)) (admit-own limiters now ip rl))

  -- Between two sweeps, an address gets the decisions of a token bucket of its own, whatever requests
  -- of others stand between its own.
  pub decisions-bucket :
      (ip : String) (requests : List (ℕ × String)) (rl : RateLimiter L N)
      → decisions ip requests rl
        ≡ bucket limiters (times_of ip requests) (limiter_of limiters rl ip)
  unfolding decisions bucket times_of
  decisions-bucket ip [] rl = refl
  decisions-bucket ip ((now, from) ∷ requests) rl =
      let rl' = (admit limiters now from rl).1 in
      let rest = decisions-bucket ip requests rl' in
      elim (Bool-cases (from == ip)) [
        | inl same ↦ rw same (
            rw ((eq_iff from ip).0 same) (
              own_step now ip requests rl
                (decisions-bucket ip requests (admit limiters now ip rl).1)))
        | inr d ↦ rw d (
            rest
            ∙ ap (bucket limiters (times_of ip requests)) (admit-other limiters now from rl ip d))
      ]
