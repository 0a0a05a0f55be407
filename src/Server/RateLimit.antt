-- ===== src/Server/RateLimit.antt =====
-- pkg/server/ratelimit.go. The token buckets of golang.org/x/time/rate and the addresses of Go's net
-- package are parameters; a time is its number of nanoseconds.
pub mod Maps
pub mod Laws
pub mod Isolation
use est_service.Prelude.{
  Bool, List, Option, Result, String, [], any, cut, err, false, if◌then◌else◌, ltb, none, not, ok,
  some, trim_space, true, wrap, ℕ, ℤ, ◌&&◌, ◌*◌, ◌-◌, ◌==◌, ◌>>=◌, ◌||◌, ◌∷◌,
}
use est_service.Http.{Request, Response, http_error}
use est_service.World.{World, rate_limited}
use est_service.Server.RateLimit.Maps.{delete, find, insert}

-- rate.Limiter: NewLimiter, Allow at a time, and the test of Tokens() against the burst.
pub record Limiters (L : Type 0) : Type 0 where
  pub new_limiter : ℤ → ℤ → L
  pub allow : ℕ → L → Bool × L
  pub is_full : ℕ → ℤ → L → Bool

-- net.ParseCIDR, ParseIP, IPNet.Contains and SplitHostPort, which returns the host
pub record Net (N : Type 0) : Type 0 where
  pub parse_cidr : String → Result N
  pub parse_ip : String → Option (List ℕ)
  pub contains_ip : N → List ℕ → Bool
  pub split_host_port : String → Result String

-- `RateLimiter`
pub record RateLimiter (L N : Type 0) : Type 0 where
  pub visitors : List (String × L)
  pub last_seen : List (String × ℕ)
  pub r : ℤ
  pub b : ℤ
  pub cleanup : ℕ
  pub telemetry : Bool
  pub trusted_proxy_nets : List N

-- `NewRateLimiterWithTelemetry`
unfoldable pub new_rate_limiter : {L N : Type 0} → ℤ → ℤ → Bool → RateLimiter L N
new_rate_limiter requests_per_second burst telemetry = record {
  visitors = [];
  last_seen = [];
  r = requests_per_second;
  b = burst;
  cleanup = 5 * 60 * 1000000000;
  telemetry = telemetry;
  trusted_proxy_nets = [];
}

module _ {N : Type 0} (net : Net N) where
  unfoldable pub parse_cidrs : List String → Result (List N)
  parse_cidrs [] = ok []
  parse_cidrs (cidr ∷ cidrs) = elim (net.parse_cidr (trim_space cidr)) [
    | err e ↦ err (wrap "invalid trusted proxy CIDR: " e)
    | ok network ↦ do networks ← parse_cidrs cidrs; ok (network ∷ networks)
  ]

  -- `SetTrustedProxyCIDRs`; the message leaves out the CIDR.
  unfoldable pub set_trusted_proxy_cidrs :
      {L : Type 0} → List String → RateLimiter L N → Result (RateLimiter L N)
  set_trusted_proxy_cidrs cidrs rl = do
    networks ← parse_cidrs cidrs
    ok (record rl { trusted_proxy_nets = networks })

  -- The host of an address, or the address as it is.
  abbrev host_of : String → String
  host_of address = elim (net.split_host_port address) [ ok host ↦ host | err _ ↦ address ]

  -- `isTrustedProxy`
  unfoldable pub is_trusted_proxy : List N → String → Bool
  is_trusted_proxy networks remote_addr = elim (net.parse_ip (host_of remote_addr)) [
    | none ↦ false
    | some ip ↦ any (λ network. net.contains_ip network ip) networks
  ]

  -- The first address of X-Forwarded-For.
  unfoldable pub first_forwarded : String → String
  first_forwarded header = elim (cut b',' header) [
    | some (address, rest) ↦ trim_space address
    | none ↦ trim_space header
  ]

  -- `getClientIP`
  unfoldable pub get_client_ip : List N → Request → String
  unfolding first_forwarded
  get_client_ip networks req =
      if not (req.forwarded_for == "") && is_trusted_proxy networks req.remote_addr
      then first_forwarded req.forwarded_for
      else host_of req.remote_addr

module _ {L N : Type 0} (limiters : Limiters L) where
  -- The limiter of an address: its own, or a new one.
  abbrev pub limiter_of : RateLimiter L N → String → L
  limiter_of rl ip = elim (find ip rl.visitors) [
    | some limiter ↦ limiter
    | none ↦ limiters.new_limiter rl.r rl.b
  ]

  -- `getVisitor`, at the time `now`
  unfoldable pub get_visitor : ℕ → String → RateLimiter L N → L × RateLimiter L N
  get_visitor now ip rl =
      let limiter = limiter_of rl ip in
      (
        limiter,
        record rl {
          visitors = insert ip limiter rl.visitors;
          last_seen = insert ip now rl.last_seen;
        },
      )

  -- Whether the cleanup removes a visitor.
  unfoldable pub is_stale : ℕ → RateLimiter L N → String × L → Bool
  is_stale now rl (ip, limiter) = elim (find ip rl.last_seen) [
    | none ↦ true
    | some last ↦ ltb rl.cleanup (now - last) || limiters.is_full now rl.b limiter
  ]

  -- The loop over `visitors`, which removes the stale ones from both maps.
  unfoldable pub sweep : ℕ → List (String × L) → RateLimiter L N → RateLimiter L N
  sweep now [] rl = rl
  sweep now ((ip, limiter) ∷ visitors) rl = sweep now visitors (
      if is_stale now rl (ip, limiter)
      then record rl { visitors = delete ip rl.visitors; last_seen = delete ip rl.last_seen }
      else rl)

  -- `cleanupVisitors`, at one tick
  unfoldable pub cleanup_visitors : ℕ → RateLimiter L N → RateLimiter L N
  cleanup_visitors now rl = sweep now rl.visitors rl

  -- `limiter.Allow()` of the visitor, whose limiter changes in place.
  unfoldable pub admit : ℕ → String → RateLimiter L N → Bool × RateLimiter L N
  unfolding get_visitor
  admit now ip rl =
      let (limiter, rl') = get_visitor now ip rl in
      let (allowed, limiter') = limiters.allow now limiter in
      (allowed, record rl' { visitors = insert ip limiter' rl'.visitors })

module _ {L N R : Type 0} (limiters : Limiters L) (net : Net N) where
  -- `Middleware`, at the time `now`, before `next`
  unfoldable pub limited :
      ℕ
      → (Request → Response → World R → Response × World R)
      → Request
      → Response
      → RateLimiter L N × World R
      → Response × RateLimiter L N × World R
  unfolding admit
  limited now next req r (rl, w) =
      let ip = get_client_ip net rl.trusted_proxy_nets req in
      let (allowed, rl') = admit limiters now ip rl in
      if allowed then (let (r', w') = next req r w in (r', rl', w')) else (
        http_error "Rate limit exceeded" 429 r,
        rl',
        if rl.telemetry then record w { metrics = rate_limited ip ∷ w.metrics } else w,
      )
