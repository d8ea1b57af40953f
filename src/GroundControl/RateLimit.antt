-- ===== src/GroundControl/RateLimit.antt =====
-- internal/groundcontrol/middleware/ratelimit.go: the sliding-window limiter per client address.
-- A time is the number of nanoseconds since a fixed origin, and each call takes the clock's reading.
-- `t.After(now.Add(-window))` is written `now < t + window`, so that no number falls below 0.
pub mod Window
pub mod Sweep
pub mod Tests
use harbor_satellite.Common.{
  ℕ, ◌+◌, String, Bool, true, false, ◌&&◌, Option, none, some, List, [], ◌∷◌, ◌++◌, ltb, leb, ◌==◌,
  if◌then◌else◌, length, keep, Map, lookup, insert,
}

pub record RateLimiter : Type 0 where
  pub requests : Map (List ℕ)
  pub max_requests : ℕ
  pub window_period : ℕ

pub new_rate_limiter : ℕ → ℕ → RateLimiter
new_rate_limiter max window = record { requests = []; max_requests = max; window_period = window }

-- `rl.requests[ip]`, nil where the key is missing.
abbrev pub or_nil : Option (List ℕ) → List ℕ
or_nil none = []
or_nil (some ts) = ts

pub stamps : String → Map (List ℕ) → List ℕ
stamps ip m = or_nil (lookup ip m)

-- The timestamps that have not expired.
pub valid : ℕ → ℕ → List ℕ → List ℕ
valid window now = keep (λ t. ltb now (t + window))

pub allow : RateLimiter → String → ℕ → RateLimiter × Bool
allow rl ip now =
    let live = valid rl.window_period now (stamps ip rl.requests) in
    if leb rl.max_requests (length live)
    then (record rl { requests = insert ip live rl.requests }, false)
    else (record rl { requests = insert ip (live ++ now ∷ []) rl.requests }, true)

-- One round of the range loop of `cleanup` for each entry.
pub sweep : ℕ → ℕ → Map (List ℕ) → Map (List ℕ)
sweep window now [] = []
sweep window now ((ip, ts) ∷ m) =
    let rest = sweep window now m in
    elim (valid window now ts) [ [] ↦ rest | t ∷ live ↦ (ip, t ∷ live) ∷ rest ]

-- One tick of the `cleanup` goroutine.
pub cleanup : RateLimiter → ℕ → RateLimiter
cleanup rl now = record rl { requests = sweep rl.window_period now rl.requests }

-- What reaches the limiter under its lock: a request of an address, or a tick of the cleanup.
pub data Event : Type 0 where
  request : String → Event
  tick : Event

pub step : RateLimiter → ℕ × Event → RateLimiter × Bool
step rl (now, request ip) = allow rl ip now
step rl (now, tick) = (cleanup rl now, false)

abbrev pub from : String → Event → Bool
from ip (request j) = j == ip
from ip tick = false

-- The times at which requests of `ip` were let through, oldest first.
pub grants : String → RateLimiter → List (ℕ × Event) → List ℕ
grants ip rl [] = []
grants ip rl ((now, e) ∷ es) =
    let (rl', ok) = step rl (now, e) in
    let rest = grants ip rl' es in if from ip e && ok then now ∷ rest else rest
