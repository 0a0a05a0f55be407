-- ===== src/Server/RateLimit/Laws.antt =====
-- What the rate limiter keeps, and that the clients do not disturb each other.
use est_service.Prelude.{
  Bool, Bool-cases, List, String, [], ap, arith, eq_iff, false, if_elim, inl, inr, is_some, refl,
  sym, ℕ, ℤ, ◌==◌, ◌∙◌, ◌∷◌, ◌≡◌,
}
use est_service.Http.{Request}
use est_service.Server.RateLimit.{
  Limiters, Net, RateLimiter, admit, cleanup_visitors, get_client_ip, is_stale, is_trusted_proxy,
  limiter_of, new_rate_limiter, sweep,
}
use est_service.Server.RateLimit.Maps.{
  delete, find, find-delete, find-delete_other, find-insert, find-insert_other, insert,
}

-- A proxy that is not trusted cannot choose the address that a request counts for: the header
-- X-Forwarded-For has no effect.
pub get_client_ip-untrusted :
    {N : Type 0} (net : Net N) (networks : List N) (req : Request) (header : String)
    → is_trusted_proxy net networks req.remote_addr ≡ false
    → get_client_ip net networks (record req { forwarded_for = header })
      ≡ get_client_ip net networks req
unfolding get_client_ip
get_client_ip-untrusted net networks req header h = ground (arith, h)

module _ {L N : Type 0} (limiters : Limiters L) where
  -- Exactly the visitors have a time at which they were last seen.
  abbrev pub IsTracked : RateLimiter L N → Type 0
  IsTracked rl = (ip : String) → is_some (find ip rl.visitors) ≡ is_some (find ip rl.last_seen)

  module _ (now : ℕ) (ip : String) (rl : RateLimiter L N) where
    abbrev own : L
    own = limiter_of limiters rl ip

    -- Another address finds what it found before.
    find_other :
        (other : String)
        → ip == other ≡ false
        → find other (admit limiters now ip rl).1.visitors ≡ find other rl.visitors
    unfolding admit
    find_other other d =
        find-insert_other ip other (limiters.allow now own).1 (insert ip own rl.visitors) d
        ∙ find-insert_other ip other own rl.visitors d

    admit-IsTracked : IsTracked rl → IsTracked (admit limiters now ip rl).1
    unfolding admit
    admit-IsTracked t other = elim (Bool-cases (ip == other)) [
      | inl same ↦ rw (← (eq_iff ip other).0 same) (
          ap is_some (find-insert ip (limiters.allow now own).1 (insert ip own rl.visitors))
          ∙ sym (ap is_some (find-insert ip now rl.last_seen)))
      | inr d ↦
          ap is_some (find_other other d)
          ∙ t other
          ∙ sym (ap is_some (find-insert_other ip other now rl.last_seen d))
    ]

    -- The limiter of the address that is admitted is the one that `allow` leaves.
    pub admit-own : limiter_of limiters (admit limiters now ip rl).1 ip ≡ (limiters.allow now own).1
    unfolding admit
    admit-own = rw (limiter_of, find-insert ip) refl

    pub admit-decision : (admit limiters now ip rl).0 ≡ (limiters.allow now own).0
    unfolding admit
    admit-decision = refl

    pub admit-other :
        (other : String)
        → ip == other ≡ false
        → limiter_of limiters (admit limiters now ip rl).1 other ≡ limiter_of limiters rl other
    unfolding admit
    admit-other other d = rw (limiter_of, find_other other d) refl

  removed-IsTracked :
      (ip : String) (rl : RateLimiter L N)
      → IsTracked rl
      → IsTracked
          (record rl { visitors = delete ip rl.visitors; last_seen = delete ip rl.last_seen })
  removed-IsTracked ip rl t other = elim (Bool-cases (ip == other)) [
    | inl same ↦
        rw (← (eq_iff ip other).0 same)
          (ap is_some (find-delete ip rl.visitors) ∙ sym (ap is_some (find-delete ip rl.last_seen)))
    | inr d ↦
        ap is_some (find-delete_other ip other rl.visitors d)
        ∙ t other
        ∙ sym (ap is_some (find-delete_other ip other rl.last_seen d))
  ]

  -- One pass of the loop of `cleanup_visitors`.
  sweep-IsTracked :
      (now : ℕ) (visitors : List (String × L)) (rl : RateLimiter L N)
      → IsTracked rl
      → IsTracked (sweep limiters now visitors rl)
  unfolding sweep
  sweep-IsTracked now [] rl t = t
  sweep-IsTracked now ((ip, limiter) ∷ visitors) rl t = sweep-IsTracked now visitors _ (
      if_elim IsTracked (is_stale limiters now rl (ip, limiter)) (λ _. removed-IsTracked ip rl t)
        (λ _. t))

  -- The states that the limiter can be in: requests and sweeps, in any order.
  pub data Reachable (r b : ℤ) (telemetry : Bool) (networks : List N)
      : RateLimiter L N → Type 0 where
    started :
        Reachable r b telemetry networks
          (record (new_rate_limiter r b telemetry) { trusted_proxy_nets = networks })
    admitted :
        {rl : RateLimiter L N} (now : ℕ) (ip : String)
        → Reachable r b telemetry networks rl
        → Reachable r b telemetry networks (admit limiters now ip rl).1
    swept :
        {rl : RateLimiter L N} (now : ℕ)
        → Reachable r b telemetry networks rl
        → Reachable r b telemetry networks (cleanup_visitors limiters now rl)

  -- Whatever requests and sweeps there were, exactly the visitors have a time at which they were last
  -- seen; so the cleanup never meets a visitor without one.
  pub Reachable-IsTracked :
      (r b : ℤ) (telemetry : Bool) (networks : List N) (rl : RateLimiter L N)
      → Reachable r b telemetry networks rl
      → IsTracked rl
  unfolding cleanup_visitors new_rate_limiter find
  Reachable-IsTracked r b telemetry networks rl started = λ ip. refl
  Reachable-IsTracked r b telemetry networks rl' (admitted {rl} now ip reach) =
      admit-IsTracked now ip rl (Reachable-IsTracked r b telemetry networks rl reach)
  Reachable-IsTracked r b telemetry networks rl' (swept {rl} now reach) =
      sweep-IsTracked now rl.visitors rl (Reachable-IsTracked r b telemetry networks rl reach)
