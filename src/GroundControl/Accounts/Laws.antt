-- ===== src/GroundControl/Accounts/Laws.antt =====
-- What the queries read after what they wrote.
use mathlib.Core.Option.{some-injective}
use harbor_satellite.Common.{
  find, subst, All, suc, String, ◌≡◌, refl, Bool, true, false, Option, none, some, List, [], ◌∷◌,
  ◌++◌, ◌==◌, eq_iff, if◌then◌else◌, keep, arith, Bool-cases, inl, inr,
}
use harbor_satellite.GroundControl.Accounts.{
  named_user, set_password, User, LoginAttempt, upsert, update,
}

abbrev pub named : String → LoginAttempt → Bool
named username a = a.username == username

abbrev pub bumped : String → Option LoginAttempt → LoginAttempt
bumped username none = record { username = username; failed_count = 1; locked_until = none }
bumped username (some a) = record a { failed_count = suc a.failed_count }

pub find-upsert :
    (username asked : String) (rows : List LoginAttempt)
    → find (named asked) (upsert username rows) ≡ (
        if username == asked
        then some (bumped username (find (named username) rows))
        else find (named asked) rows)
unfolding find upsert
find-upsert username asked [] = ground (arith, eq_iff username asked)
find-upsert username asked (a ∷ rest) = ground (
  arith,
  find-upsert username asked rest,
  eq_iff a.username asked,
  eq_iff a.username username,
  eq_iff username asked,
)

pub find-update :
    (f : LoginAttempt → LoginAttempt) (username asked : String) (rows : List LoginAttempt)
    → ((a : LoginAttempt) → (f a).username ≡ a.username)
    → find (named asked) (update f username rows) ≡ (
        if username == asked
        then elim (find (named asked) rows) [ none ↦ none | some a ↦ some (f a) ]
        else find (named asked) rows)
unfolding find update
find-update f username asked [] kept = ground arith
find-update f username asked (a ∷ rest) kept = ground (
  arith,
  find-update f username asked rest kept,
  kept a,
  eq_iff a.username asked,
  eq_iff a.username username,
  eq_iff username asked,
)

module _ {A : Type 0} where
  pub find-append :
      (p : A → Bool) (xs : List A) (y : A)
      → find p (xs ++ (y ∷ []))
        ≡ (elim (find p xs) [ none ↦ if p y then some y else none | some x ↦ some x ])
  unfolding find
  find-append p [] y = refl
  find-append p (x ∷ xs) y = elim (Bool-cases (p x)) [
    | inl hit ↦ rw hit refl
    | inr miss ↦ rw miss (find-append p xs y)
  ]

  -- A test that is stronger finds no more.
  pub find-none :
      (p q : A → Bool) (xs : List A)
      → ((x : A) → p x ≡ false → q x ≡ false)
      → find p xs ≡ none
      → find q xs ≡ none
  unfolding find
  find-none p q [] weaker h = refl
  find-none p q (x ∷ xs) weaker h = elim (Bool-cases (p x)) [
    | inl hit ↦ cc (rw hit at h)
    | inr miss ↦ rw (weaker x miss) (find-none p q xs weaker (rw miss at h))
  ]

  pub find-keep :
      (p q : A → Bool) (xs : List A)
      → ((x : A) → q x ≡ false → p x ≡ false)
      → find p (keep q xs) ≡ find p xs
  unfolding find keep
  find-keep p q [] only = refl
  find-keep p q (x ∷ xs) only = elim (Bool-cases (q x)) [
    | inl kept ↦ elim (Bool-cases (p x)) [
      | inl hit ↦ rw (kept, hit) refl
      | inr miss ↦ rw (kept, miss) (find-keep p q xs only)
    ]
    | inr gone ↦ rw (gone, only x gone) (find-keep p q xs only)
  ]

  pub find-keep-none :
      (p q : A → Bool) (xs : List A)
      → ((x : A) → q x ≡ true → p x ≡ false)
      → find p (keep q xs) ≡ none
  unfolding find keep
  find-keep-none p q [] never = refl
  find-keep-none p q (x ∷ xs) never = elim (Bool-cases (q x)) [
    | inl kept ↦ rw (kept, never x kept) (find-keep-none p q xs never)
    | inr gone ↦ rw gone (find-keep-none p q xs never)
  ]

  pub find-append_miss :
      (p : A → Bool) (xs : List A) (y : A) → p y ≡ false → find p (xs ++ (y ∷ [])) ≡ find p xs
  unfolding find
  find-append_miss p [] y miss = rw miss refl
  find-append_miss p (x ∷ xs) y miss = rw (find-append_miss p xs y miss) refl

module _ {A : Type 0} where
  pub find-holds : (p : A → Bool) (xs : List A) (y : A) → find p xs ≡ some y → p y ≡ true
  unfolding find
  find-holds p [] y h = cc h
  find-holds p (x ∷ xs) y h = elim (Bool-cases (p x)) [
    | inl hit ↦ subst (λ z. p z ≡ true) (some-injective x y (rw hit at h)) hit
    | inr miss ↦ find-holds p xs y (rw miss at h)
  ]

  pub find-All :
      (P : A → Type 0) (p : A → Bool) (xs : List A) (y : A) → All P xs → find p xs ≡ some y → P y
  unfolding find
  find-All P p [] y all h = cc h
  find-All P p (x ∷ xs) y all h = elim (Bool-cases (p x)) [
    | inl hit ↦ subst P (some-injective x y (rw hit at h)) all.0
    | inr miss ↦ find-All P p xs y all.1 (rw miss at h)
  ]

abbrev pub with_password : String → Option User → Option User
with_password h none = none
with_password h (some u) = some (record u { password_hash = h })

pub find-set_password :
    (username h asked : String) (users : List User)
    → find (named_user asked) (set_password username h users) ≡ (
        if username == asked
        then with_password h (find (named_user asked) users)
        else find (named_user asked) users)
unfolding find set_password
find-set_password username h asked [] = ground arith
find-set_password username h asked (u ∷ us) = ground (
  arith,
  find-set_password username h asked us,
  eq_iff u.username asked,
  eq_iff u.username username,
  eq_iff username asked,
)
