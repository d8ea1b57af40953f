-- ===== src/GroundControl/RateLimit/Tests.antt =====
-- The limiter's theorems at concrete inputs.
use harbor_satellite.Common.{ℕ, ◌≤◌, ◌≡◌, refl, List, [], ◌∷◌, arith, keep, lookup, insert}
use harbor_satellite.GroundControl.RateLimit.{
  RateLimiter, new_rate_limiter, stamps, valid, allow, sweep, cleanup, Event, request, tick, step,
  grants,
}
use harbor_satellite.GroundControl.RateLimit.Window.{count_in, grants_bounded}
use harbor_satellite.GroundControl.RateLimit.Sweep.{allow-cleanup}

abbrev traffic : List (ℕ × Event)
traffic =
    (1, request "10.0.0.1")
    ∷ (2, request "10.0.0.1")
    ∷ (3, request "10.0.0.2")
    ∷ (4, request "10.0.0.1")
    ∷ (12, tick)
    ∷ (13, request "10.0.0.1")
    ∷ []

-- Two per window of 10: the third request of the first address is refused.
traffic-grants : grants "10.0.0.1" (new_rate_limiter 2 10) traffic ≡ 1 ∷ 2 ∷ 13 ∷ []
unfolding grants step allow cleanup stamps valid new_rate_limiter sweep keep lookup insert
traffic-grants = refl

grants_bounded_example : count_in 10 1 (grants "10.0.0.1" (new_rate_limiter 2 10) traffic) ≤ 2
grants_bounded_example = grants_bounded 2 10 traffic "10.0.0.1" 1 (omega arith)

abbrev busy : RateLimiter
busy = record {
  requests = ("10.0.0.1", 1 ∷ 2 ∷ []) ∷ ("10.0.0.2", 9 ∷ []) ∷ [];
  max_requests = 2;
  window_period = 10;
}

allow-cleanup_example :
    ((allow (cleanup busy 11) "10.0.0.1" 11).1 ≡ (allow busy "10.0.0.1" 11).1)
    × (stamps "10.0.0.1" (allow (cleanup busy 11) "10.0.0.1" 11).0.requests
        ≡ stamps "10.0.0.1" (allow busy "10.0.0.1" 11).0.requests)
allow-cleanup_example =
    allow-cleanup busy "10.0.0.1" 11 11 (unfold lookup in (refl, (refl, tt))) (omega arith)
