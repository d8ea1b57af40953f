-- ===== src/GroundControl/RateLimit/Sweep.antt =====
-- What `allow` and `cleanup` do to the recorded times of an address.
use mathlib.Core.List.{append-nil}
use harbor_satellite.Common.{
  ℕ, ◌+◌, ◌≤◌, String, ◌≡◌, refl, ap, not, eq_refl, none, List, [], ◌∷◌, ◌++◌, arith, ltb, leb,
  ◌==◌, eq_iff, if◌then◌else◌, length, length-append, length-keep-le, keep, Map, lookup,
  lookup-insert, HasUniqueKeys, insert-HasUniqueKeys,
}
use harbor_satellite.GroundControl.RateLimit.{
  RateLimiter, stamps, valid, allow, sweep, cleanup, Event, request, tick, step,
}

lookup-sweep-none :
    (ip : String) (window now : ℕ) (m : Map (List ℕ))
    → lookup ip m ≡ none
    → lookup ip (sweep window now m) ≡ none
unfolding lookup sweep
lookup-sweep-none ip window now [] h = refl
lookup-sweep-none ip window now ((j, ts) ∷ m) h = ground (arith, lookup-sweep-none ip window now m)

-- A cleanup drops the expired times of every address.
pub stamps-sweep :
    (ip : String) (window now : ℕ) (m : Map (List ℕ))
    → HasUniqueKeys m
    → stamps ip (sweep window now m) ≡ valid window now (stamps ip m)
unfolding stamps sweep lookup
stamps-sweep ip window now [] u = unfold valid keep in refl
stamps-sweep ip window now ((j, ts) ∷ m) u =
    ground (arith, eq_iff j ip, lookup-sweep-none ip window now m, stamps-sweep ip window now m u.1)

pub sweep-HasUniqueKeys :
    (window now : ℕ) (m : Map (List ℕ)) → HasUniqueKeys m → HasUniqueKeys (sweep window now m)
unfolding sweep
sweep-HasUniqueKeys window now [] u = tt
sweep-HasUniqueKeys window now ((j, ts) ∷ m) u =
    ground (arith, lookup-sweep-none j window now m, sweep-HasUniqueKeys window now m u.1)

pub stamps-allow :
    (rl : RateLimiter) (ip j : String) (now : ℕ)
    → stamps ip (allow rl j now).0.requests ≡ (
        if j == ip
        then valid rl.window_period now (stamps ip rl.requests)
          ++ (if (allow rl j now).1 then now ∷ [] else [])
        else stamps ip rl.requests)
unfolding stamps allow
stamps-allow rl ip j now =
    let live = valid rl.window_period now (stamps j rl.requests) in
    ground (
      arith,
      eq_iff j ip,
      append-nil live,
      lookup-insert j ip live rl.requests,
      lookup-insert j ip (live ++ now ∷ []) rl.requests,
    )

-- No address holds more times than the limit.
abbrev pub IsLimited : RateLimiter → Type 0
IsLimited rl = (ip : String) → length (stamps ip rl.requests) ≤ rl.max_requests

pub record Inv (rl : RateLimiter) : Type 0 where
  pub unique : HasUniqueKeys rl.requests
  pub limited : IsLimited rl

allow_limited :
    (rl : RateLimiter) (now : ℕ) (ip j : String)
    → IsLimited rl
    → length (stamps ip (allow rl j now).0.requests) ≤ rl.max_requests
unfolding allow stamps valid
allow_limited rl now ip j limited =
    let live = valid rl.window_period now (stamps j rl.requests) in
    ground (
      arith,
      lookup-insert j ip live rl.requests,
      lookup-insert j ip (live ++ now ∷ []) rl.requests,
      length-append live (now ∷ []),
      length-keep-le (λ (t : ℕ). ltb now (t + rl.window_period)) (stamps j rl.requests),
      limited ip,
      limited j,
    )

step_limited :
    (rl : RateLimiter) (now : ℕ) (e : Event) (ip : String)
    → Inv rl
    → length (stamps ip (step rl (now, e)).0.requests) ≤ rl.max_requests
unfolding step allow cleanup
step_limited rl now (request j) ip inv = allow_limited rl now ip j inv.limited
step_limited rl now tick ip inv = rw (stamps-sweep ip rl.window_period now rl.requests inv.unique) (
    unfold valid in
    omega (
      arith,
      length-keep-le (λ (t : ℕ). ltb now (t + rl.window_period)) (stamps ip rl.requests),
      inv.limited ip,
    ))

step_unique :
    (rl : RateLimiter) (now : ℕ) (e : Event) → Inv rl → HasUniqueKeys (step rl (now, e)).0.requests
unfolding step allow cleanup
step_unique rl now (request j) inv =
    let live = valid rl.window_period now (stamps j rl.requests) in
    ground (
      arith,
      insert-HasUniqueKeys j live rl.requests,
      insert-HasUniqueKeys j (live ++ now ∷ []) rl.requests,
    )
step_unique rl now tick inv = sweep-HasUniqueKeys rl.window_period now rl.requests inv.unique

pub max_requests-step :
    (rl : RateLimiter) (c : ℕ × Event) → (step rl c).0.max_requests ≡ rl.max_requests
unfolding step allow cleanup
max_requests-step rl (now, request j) = ground arith
max_requests-step rl (now, tick) = refl

pub window_period-step :
    (rl : RateLimiter) (c : ℕ × Event) → (step rl c).0.window_period ≡ rl.window_period
unfolding step allow cleanup
window_period-step rl (now, request j) = ground arith
window_period-step rl (now, tick) = refl

pub step-Inv : (rl : RateLimiter) (c : ℕ × Event) → Inv rl → Inv (step rl c).0
step-Inv rl (now, e) inv = record {
  unique = step_unique rl now e inv;
  limited = λ ip. omega (arith, step_limited rl now e ip inv, max_requests-step rl (now, e));
}

-- The answer depends on the times that have not expired alone.
allow-eq-leb :
    (rl : RateLimiter) (ip : String) (now : ℕ)
    → (allow rl ip now).1
      ≡ not (leb rl.max_requests (length (valid rl.window_period now (stamps ip rl.requests))))
unfolding allow
allow-eq-leb rl ip now = ground arith

valid-valid :
    (window t now : ℕ) (ts : List ℕ)
    → t ≤ now
    → valid window now (valid window t ts) ≡ valid window now ts
unfolding valid keep
valid-valid window t now [] h = refl
valid-valid window t now (s ∷ ts) h = ground (arith, valid-valid window t now ts)

-- A cleanup is invisible to the requests that follow it: with the clock not gone back, a request
-- has the same answer, and leaves the same times recorded for its address, as without the cleanup.
pub allow-cleanup :
    (rl : RateLimiter) (ip : String) (t now : ℕ)
    → HasUniqueKeys rl.requests
    → t ≤ now
    → ((allow (cleanup rl t) ip now).1 ≡ (allow rl ip now).1)
      × (stamps ip (allow (cleanup rl t) ip now).0.requests
          ≡ stamps ip (allow rl ip now).0.requests)
allow-cleanup rl ip t now u h = (answer, times)
  where
    live :
        valid rl.window_period now (stamps ip (cleanup rl t).requests)
        ≡ valid rl.window_period now (stamps ip rl.requests)
    live =
        unfold cleanup in
        rw (stamps-sweep ip rl.window_period t rl.requests u)
          (valid-valid rl.window_period t now (stamps ip rl.requests) h)

    answer : (allow (cleanup rl t) ip now).1 ≡ (allow rl ip now).1
    answer =
        rw (allow-eq-leb (cleanup rl t) ip now, allow-eq-leb rl ip now)
          (unfold cleanup in ap (λ ts. not (leb rl.max_requests (length ts))) live)

    times :
        stamps ip (allow (cleanup rl t) ip now).0.requests ≡ stamps ip (allow rl ip now).0.requests
    times =
        rw (stamps-allow (cleanup rl t) ip ip now, stamps-allow rl ip ip now, eq_refl ip, answer)
          (unfold cleanup in ap (λ ts. ts ++ (if (allow rl ip now).1 then now ∷ [] else [])) live)
