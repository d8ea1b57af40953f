-- ===== src/GroundControl/RateLimit/Window.antt =====
-- Proofs about the requests that are let through in a window.
use mathlib.Core.List.{append-nil}
use native.Mathlib.Decide.{dec_lt}
use harbor_satellite.Common.{
  ℕ, ◌+◌, ◌≤◌, ◌<◌, String, ◌≡◌, refl, subst, ◌∙◌, inl, inr, Bool, ◌&&◌, List, [], ◌∷◌, ◌++◌, arith,
  ltb, leb, ◌==◌, Bool-cases, if◌then◌else◌, length, keep, length-keep-le, lookup,
}
use harbor_satellite.GroundControl.RateLimit.{
  RateLimiter, new_rate_limiter, stamps, valid, allow, cleanup, Event, request, tick, step, grants,
  from,
}
use harbor_satellite.GroundControl.RateLimit.Sweep.{
  Inv, step-Inv, window_period-step, max_requests-step, stamps-sweep, stamps-allow,
}

-- `a ≤ t < a + window`
abbrev pub in_window : ℕ → ℕ → ℕ → Bool
in_window window a t = leb a t && ltb t (a + window)

-- How many of the times lie in the window that begins at `a`.
abbrev pub count_in : ℕ → ℕ → List ℕ → ℕ
count_in window a ts = length (keep (in_window window a) ts)

-- The clock never goes back.
abbrev pub IsTimed : ℕ → List (ℕ × Event) → Type 0
IsTimed t [] = Unit
IsTimed t ((now, e) ∷ es) = (t ≤ now) × IsTimed now es

-- Nothing that has expired lies in a window that is still open.
count_in-valid :
    (window now a : ℕ) (ts : List ℕ)
    → now < a + window
    → count_in window a (valid window now ts) ≡ count_in window a ts
unfolding valid keep
count_in-valid window now a [] h = refl
count_in-valid window now a (t ∷ ts) h = ground (arith, count_in-valid window now a ts)

count_in-append :
    (window a : ℕ) (xs ys : List ℕ)
    → count_in window a (xs ++ ys) ≡ count_in window a xs + count_in window a ys
unfolding keep
count_in-append window a [] ys = omega arith
count_in-append window a (x ∷ xs) ys = ground (arith, count_in-append window a xs ys)

count_in-grants_past :
    (ip : String) (rl : RateLimiter) (now window a : ℕ) (es : List (ℕ × Event))
    → IsTimed now es
    → a + window ≤ now
    → count_in window a (grants ip rl es) ≡ 0
unfolding grants keep
count_in-grants_past ip rl now window a [] timed h = refl
count_in-grants_past ip rl now window a ((t, e) ∷ es) timed h =
    ground (arith, count_in-grants_past ip (step rl (t, e)).0 t window a es timed.1)

-- What one step adds to the grants of `ip`.
abbrev granted : String → RateLimiter → ℕ → Event → List ℕ
granted ip rl now e = if from ip e && (step rl (now, e)).1 then now ∷ [] else []

-- Over an open window, a step adds to what is recorded just what it lets through.
count_in-step :
    (ip : String) (rl : RateLimiter) (now a : ℕ) (e : Event)
    → Inv rl
    → now < a + rl.window_period
    → count_in rl.window_period a (stamps ip (step rl (now, e)).0.requests)
      ≡ count_in rl.window_period a (stamps ip rl.requests)
        + count_in rl.window_period a (granted ip rl now e)
unfolding step keep
count_in-step ip rl now a (request j) inv h =
    let live = valid rl.window_period now (stamps ip rl.requests) in
    let old = count_in-valid rl.window_period now a (stamps ip rl.requests) h in
    elim (Bool-cases (j == ip)) [
      | inl same ↦ elim (Bool-cases (allow rl j now).1) [
        | inl ok ↦
            rw (stamps-allow rl ip j now, same, ok)
              (omega (arith, old, count_in-append rl.window_period a live (now ∷ [])))
        | inr ok ↦ rw (stamps-allow rl ip j now, same, ok, append-nil live) (omega (arith, old))
      ]
      | inr other ↦ rw (stamps-allow rl ip j now, other) (omega arith)
    ]
count_in-step ip rl now a tick inv h =
    unfold cleanup in
    rw (stamps-sweep ip rl.window_period now rl.requests inv.unique)
      (omega (arith, count_in-valid rl.window_period now a (stamps ip rl.requests) h))

count_in-grants :
    (ip : String) (rl : RateLimiter) (window a t : ℕ) (e : Event) (es : List (ℕ × Event))
    → count_in window a (grants ip rl ((t, e) ∷ es))
      ≡ count_in window a (granted ip rl t e) + count_in window a (grants ip (step rl (t, e)).0 es)
unfolding grants keep
count_in-grants ip rl window a t e es = ground arith

abbrev IsCounted : String → RateLimiter → ℕ → ℕ → Event → ℕ → Type 0
IsCounted ip rl a t e window =
    count_in window a (stamps ip (step rl (t, e)).0.requests)
    ≡ count_in window a (stamps ip rl.requests) + count_in window a (granted ip rl t e)

recorded_and_granted :
    (ip : String) (window max : ℕ) (rl : RateLimiter) (now a : ℕ) (es : List (ℕ × Event))
    → Inv rl
    → rl.window_period ≡ window
    → rl.max_requests ≡ max
    → IsTimed now es
    → count_in window a (stamps ip rl.requests) + count_in window a (grants ip rl es) ≤ max
recorded_and_granted ip window max rl now a [] inv hw hm timed =
    unfold grants keep in
    omega (arith, inv.limited ip, length-keep-le (in_window window a) (stamps ip rl.requests))
recorded_and_granted ip window max rl now a ((t, e) ∷ es) inv hw hm timed =
    let rl' = (step rl (t, e)).0 in
    let later =
      recorded_and_granted ip window max rl' t a es (step-Inv rl (t, e) inv)
        (window_period-step rl (t, e) ∙ hw) (max_requests-step rl (t, e) ∙ hm) timed.1 in
    elim (dec_lt t (a + window)) [
      | yes early ↦ omega (
        arith,
        later,
        count_in-grants ip rl window a t e es,
        subst (IsCounted ip rl a t e) hw (count_in-step ip rl t a e inv (omega arith)),
      )
      | no late ↦ omega (
        arith,
        count_in-grants_past ip rl t window a ((t, e) ∷ es) (omega arith, timed.1) (omega arith),
        length-keep-le (in_window window a) (stamps ip rl.requests),
        inv.limited ip,
      )
    ]

new_rate_limiter-Inv : (max window : ℕ) → Inv (new_rate_limiter max window)
unfolding new_rate_limiter stamps lookup
new_rate_limiter-Inv max window = record { unique = tt; limited = λ ip. omega arith }

-- From a fresh limiter, and for any requests of any addresses mixed with any cleanups at times that
-- never go back: in each window of the configured length, wherever it begins, an address is let
-- through at most `max` times.
pub grants_bounded :
    (max window : ℕ) (es : List (ℕ × Event)) (ip : String) (a : ℕ)
    → IsTimed 0 es
    → count_in window a (grants ip (new_rate_limiter max window) es) ≤ max
grants_bounded max window es ip a timed = omega (
  arith,
  recorded_and_granted ip window max (new_rate_limiter max window) 0 a es
      (new_rate_limiter-Inv max window) (unfold new_rate_limiter in refl)
      (unfold new_rate_limiter in refl) timed,
)
