-- ===== src/Tests/RateLimit.antt =====
-- Runs of the rate limiter, with limiters that count down.
use est_service.Server.RateLimit.Maps.{find}
use Prim.Native.Nat.{zero, suc}
use est_service.Prelude.{
  Bool, List, String, [], err, errorf, false, if◌then◌else◌, is_some, length, ltb, negsuc, none, ok,
  pos, refl, some, true, ℕ, ℤ, ◌+◌, ◌==◌, ◌=ℕ=◌, ◌∷◌, ◌≡◌,
}
use est_service.Server.RateLimit.{
  Limiters, Net, RateLimiter, admit, cleanup_visitors, get_client_ip, is_trusted_proxy,
  new_rate_limiter,
}
use est_service.Server.RateLimit.Laws.{
  Reachable-IsTracked, admitted, get_client_ip-untrusted, started, swept,
}
use est_service.Server.RateLimit.Isolation.{bucket, decisions, decisions-bucket, times_of}
use est_service.Tests.Fixtures.{request}

abbrev take_one : ℕ → Bool × ℕ
take_one zero = (false, 0)
take_one (suc n) = (true, n)

abbrev burst_of : ℤ → ℕ
burst_of (pos n) = n
burst_of (negsuc n) = 0

abbrev counters : Limiters ℕ
counters = record {
  new_limiter = λ rate burst. burst_of burst;
  allow = λ now. take_one;
  is_full = λ now burst tokens. ltb (burst_of burst) (tokens + 1);
}

-- One network, of all addresses of four bytes.
abbrev net : Net ℕ
net = record {
  parse_cidr = λ cidr. ok 4;
  parse_ip = λ address. if address == "10.0.0.1" then some (10 ∷ 0 ∷ 0 ∷ 1 ∷ []) else none;
  contains_ip = λ size ip. length ip =ℕ= size;
  split_host_port = λ address.
      if address == "10.0.0.1:80" then ok "10.0.0.1" else err (errorf "missing port in address");
}

abbrev limiter : RateLimiter ℕ ℕ
limiter = new_rate_limiter (pos 1) (pos 1) false

abbrev requests : List (ℕ × String)
requests = (1, "a") ∷ (2, "b") ∷ (3, "a") ∷ (4, "b") ∷ []

decisions-bucket_example :
    decisions counters "b" requests limiter ≡ bucket counters (times_of "b" requests) 1
unfolding new_rate_limiter find
decisions-bucket_example = decisions-bucket counters "b" requests limiter

second_refused : bucket counters (times_of "b" requests) 1 ≡ true ∷ false ∷ []
unfolding bucket times_of
second_refused = refl

-- After a request of "a" and a sweep.
abbrev swept_limiter : RateLimiter ℕ ℕ
swept_limiter =
    cleanup_visitors counters 9
      (admit counters 1 "a" (record limiter { trusted_proxy_nets = [] })).1

Reachable-IsTracked_example :
    is_some (find "a" swept_limiter.visitors) ≡ is_some (find "a" swept_limiter.last_seen)
Reachable-IsTracked_example =
    Reachable-IsTracked counters (pos 1) (pos 1) false [] swept_limiter
      (swept 9 (admitted 1 "a" started)) "a"

get_client_ip-untrusted_example :
    get_client_ip net (4 ∷ []) (record request { forwarded_for = "198.51.100.9" })
    ≡ get_client_ip net (4 ∷ []) request
unfolding is_trusted_proxy
get_client_ip-untrusted_example = get_client_ip-untrusted net (4 ∷ []) request "198.51.100.9" refl
