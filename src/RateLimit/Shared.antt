-- ===== src/RateLimit/Shared.antt =====
-- The limiters of one process in backend/app/core/rate_limit.py while Redis answers nothing: each
-- configuration has one limiter, which the middleware and the limits of routes share.
use distributed_task_platfor.Prelude.{
  ℕ, String, ◌≡◌, refl, sym, ap, ◌∙◌, Bool, true, false, not, ◌&&◌, Option, none, some, List, [],
  ◌∷◌, ◌=ₛ◌, ◌==◌, ==_iff, ==_refl, inl, inr, Bool-cases, member_text,
}
use distributed_task_platfor.Model.Settings.{Settings}
use distributed_task_platfor.Auth.{Claims}
use distributed_task_platfor.RateLimit.{RateLimiter, local_allow, allow, redis_allow, available}
use distributed_task_platfor.RateLimit.Registry.{
  Registry, same_config, find_limiter, put_limiter, or_new, limiter_of, ask, api_config, ws_allowed,
  task_create_allowed, Scope, skip_paths, Gate, passed_on, too_many, client_key, gate, middleware,
}
use distributed_task_platfor.RateLimit.Window.{accepted_if}

same_config_refl : (c : ℕ × ℕ) → same_config c c ≡ true
same_config_refl (m, w) = rw (==_refl m, ==_refl w) refl

pub same_config_eq : (c d : ℕ × ℕ) → same_config c d ≡ true → c ≡ d
same_config_eq (m, w) (n, v) h = elim (Bool-cases (m == n)) [
  | inl e ↦
      let p = (==_iff m n).0 e in
      let q = (==_iff w v).0 (sym (rw e refl) ∙ h) in ap (λ k. (k, w)) p ∙ ap (λ k. (n, k)) q
  | inr e ↦ let q : false ≡ true = sym (rw e refl) ∙ h in cc q
]

find-put :
    (c : ℕ × ℕ) (l : RateLimiter) (r : Registry) → find_limiter c (put_limiter c l r) ≡ some l
find-put c l [] = rw (same_config_refl c) refl
find-put c l ((d, k) ∷ r) = elim (Bool-cases (same_config d c)) [
  | inl e ↦ rw (e, e) refl
  | inr e ↦ rw (e, e) (find-put c l r)
]

find-put_other :
    (c d : ℕ × ℕ) (l : RateLimiter) (r : Registry)
    → same_config c d ≡ false
    → find_limiter d (put_limiter c l r) ≡ find_limiter d r
find-put_other c d l [] n = rw n refl
find-put_other c d l ((b, k) ∷ r) n = elim (Bool-cases (same_config b c)) [
  | inl e ↦ let m : same_config b d ≡ false = rw (same_config_eq b c e) n in rw (e, m) refl
  | inr e ↦ elim (Bool-cases (same_config b d)) [
    | inl f ↦ rw (e, f) refl
    | inr f ↦ rw (e, f) (find-put_other c d l r n)
  ]
]

limiter_of-put : (c : ℕ × ℕ) (l : RateLimiter) (r : Registry) → limiter_of c (put_limiter c l r) ≡ l
unfolding limiter_of
limiter_of-put c l r = ap (or_new c) (find-put c l r)

limiter_of-put_other :
    (c d : ℕ × ℕ) (l : RateLimiter) (r : Registry)
    → same_config c d ≡ false
    → limiter_of d (put_limiter c l r) ≡ limiter_of d r
unfolding limiter_of
limiter_of-put_other c d l r n = ap (or_new d) (find-put_other c d l r n)

-- Without an answer of Redis the local limiter decides.
allow_local :
    (enabled : Bool) (now : ℕ) (key : String) (l : RateLimiter)
    → ((allow enabled now key none l).0.local ≡ (local_allow now key l.local).0)
      × ((allow enabled now key none l).1 ≡ (local_allow now key l.local).1)
unfolding allow redis_allow
allow_local false now key l = (refl, refl)
allow_local true now key l = elim (Bool-cases (available now l.redis)) [
  | inl e ↦ rw e (refl, refl)
  | inr e ↦ rw e (refl, refl)
]

module _ (s : Settings) where
  pub ask_local :
      (now : ℕ) (c : ℕ × ℕ) (key : String) (r : Registry)
      → ((limiter_of c (ask s now c key none r).0).local
          ≡ (local_allow now key (limiter_of c r).local).0)
        × ((ask s now c key none r).1 ≡ (local_allow now key (limiter_of c r).local).1)
  unfolding ask
  ask_local now c key r =
      let l = limiter_of c r in
      let (p, q) = allow_local s.rate_limit_redis_enabled now key l in
      let l' = (allow s.rate_limit_redis_enabled now key none l).0 in
      (ap (λ (x : RateLimiter). x.local) (limiter_of-put c l' r) ∙ p, q)

  pub ask_other :
      (now : ℕ) (c d : ℕ × ℕ) (key : String) (r : Registry)
      → same_config c d ≡ false
      → limiter_of d (ask s now c key none r).0 ≡ limiter_of d r
  unfolding ask
  ask_other now c d key r n =
      limiter_of-put_other c d (allow s.rate_limit_redis_enabled now key none (limiter_of c r)).0 r
        n

-- What reaches the limiters: a request at the middleware, the opening of a socket by a user, and the
-- creation of tasks by a client.
pub data Arrival : Type 0 where
  request : Scope → Arrival
  socket : String → Arrival
  creation : String → Arrival

-- With the times of arrival.
abbrev pub Arrivals : Type 0
Arrivals = List (ℕ × Arrival)

abbrev pub is_passed : Gate → Bool
is_passed passed_on = true
is_passed (too_many window) = false

-- A request that the middleware counts.
abbrev pub is_counted : Scope → Bool
is_counted scope = (scope.kind =ₛ "http") && not (member_text scope.path skip_paths)

module _ (s : Settings) (lower : String → String) (str : ℕ → String)
    (decode : ℕ → String → Option Claims) where
  -- What the process does with an arrival while Redis does not answer.
  abbrev pub arrive : ℕ → Arrival → Registry → Registry × Bool
  arrive now (request scope) r =
      let (r', g) = middleware lower str (decode now) s now none scope r in (r', is_passed g)
  arrive now (socket user) r = ws_allowed s now user none r
  arrive now (creation client) r = task_create_allowed s now client none r

  -- A counted request of that key.
  abbrev pub is_of : String → ℕ → Arrival → Bool
  is_of key now (request scope) =
      is_counted scope && (client_key lower str (decode now) scope =ₛ key)
  is_of key now (socket user) = false
  is_of key now (creation client) = false

  -- The times of the requests of a key that are counted and passed on.
  unfoldable pub passed : String → Arrivals → Registry → List ℕ
  passed key [] r = []
  passed key ((now, a) ∷ as') r =
      let (r', b) = arrive now a r in
      let rest = passed key as' r' in accepted_if (b && is_of key now a) now rest

  -- One arrival, as what it asks the limiters.
  pub data Asks (a : Arrival) (now : ℕ) (r : Registry) (key : String) : Type 0 where
    nothing : arrive now a r ≡ (r, true) → is_of key now a ≡ false → Asks a now r key
    api :
        (k : String)
        → arrive now a r ≡ ask s now (api_config s) k none r
        → is_of key now a ≡ (k =ₛ key)
        → Asks a now r key
    another :
        (c : ℕ × ℕ) (k : String)
        → arrive now a r ≡ ask s now c k none r
        → is_of key now a ≡ false
        → Asks a now r key

  gate_passed :
      (now w : ℕ) (x : Registry × Bool)
      → ((gate lower str (decode now) w x).0, is_passed (gate lower str (decode now) w x).1) ≡ x
  gate_passed now w (r, true) = refl
  gate_passed now w (r, false) = refl

  pub asks : (a : Arrival) (now : ℕ) (r : Registry) (key : String) → Asks a now r key
  unfolding middleware ws_allowed task_create_allowed
  asks (socket user) now r key = Asks.another _ _ refl refl
  asks (creation client) now r key = Asks.another _ _ refl refl
  asks (request scope) now r key = elim (Bool-cases (scope.kind =ₛ "http")) [
    | inr e ↦ Asks.nothing (rw e refl) (rw e refl)
    | inl e ↦ elim (Bool-cases (member_text scope.path skip_paths)) [
      | inl f ↦ Asks.nothing (rw (e, f) refl) (rw (e, f) refl)
      | inr f ↦
          Asks.api (client_key lower str (decode now) scope) (rw (e, f) (gate_passed now _ _))
            (rw (e, f) refl)
    ]
  ]
