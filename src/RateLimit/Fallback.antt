-- ===== src/RateLimit/Fallback.antt =====
-- The limit of backend/app/core/rate_limit.py on the requests of a user or a client while Redis does
-- not answer.
use mathlib.Core.Path.{subst}
use distributed_task_platfor.Prelude.{
  ℕ, ◌+◌, ◌≤◌, String, ◌≡◌, refl, sym, ap, Bool, true, false, ◌&&◌, Option, none, List, [], ◌∷◌,
  ◌=ₛ◌, count, length, arith, inl, inr, ◌⊎◌, Bool-cases, All,
}
use distributed_task_platfor.Model.Settings.{Settings}
use distributed_task_platfor.Auth.{Claims}
use distributed_task_platfor.RateLimit.{LocalRateLimiter, local_allow, in_window, get_hits}
use distributed_task_platfor.RateLimit.Registry.{Registry, same_config, limiter_of, ask, api_config}
use distributed_task_platfor.RateLimit.Window.{
  accepted_if, and_false, count-length, local_allow-count, local_allow-length, local_allow-settings,
}
use distributed_task_platfor.RateLimit.Shared.{
  same_config_eq, ask_local, ask_other, Arrival, Arrivals, arrive, is_of, passed, Asks, nothing,
  api, another, asks,
}

-- A request that is not of the key adds nothing.
fewer :
    (p : ℕ → Bool) (b m n : Bool) (now : ℕ) (rest : List ℕ)
    → (m ≡ false) ⊎ (m ≡ n)
    → count p (accepted_if (b && m) now rest) ≤ count p (accepted_if (b && n) now rest)
fewer p b m n now rest (inr e) = rw e (omega arith)
fewer p false m n now rest (inl e) = omega arith
fewer p true m false now rest (inl e) = rw e (omega arith)
fewer p true m true now rest (inl e) = rw e (ground arith)

abbrev Within : ℕ → String → List ℕ → LocalRateLimiter → Type 0
Within t key times l =
    count (in_window t l.window) times + count (in_window t l.window) (get_hits key l.hits)
    ≤ l.max_requests

one_more :
    (key k : String) (now t : ℕ) (l : LocalRateLimiter) (rest : List ℕ) (m : Bool)
    → now ≤ t
    → (m ≡ false) ⊎ (m ≡ (k =ₛ key))
    → Within t key rest (local_allow now k l).0
    → Within t key (accepted_if ((local_allow now k l).1 && m) now rest) l
one_more key k now t l rest m h c w =
    let l' = (local_allow now k l).0 in
    let (e, f) = local_allow-settings k now l in
    let bound : count (in_window t l.window) rest
          + count (in_window t l.window) (get_hits key l'.hits)
        ≤ l'.max_requests =
      subst
        (λ x.
          count (in_window t x) rest + count (in_window t x) (get_hits key l'.hits)
          ≤ l'.max_requests)
        f w in
    let step = local_allow-count key k now t l rest h in
    let less = fewer (in_window t l.window) (local_allow now k l).1 m (k =ₛ key) now rest c in
    omega (arith, bound, e, step, less)

module _ (s : Settings) (lower : String → String) (str : ℕ → String)
    (decode : ℕ → String → Option Claims) (key : String) (t : ℕ) where
  abbrev local_of : Registry → LocalRateLimiter
  local_of r = (limiter_of (api_config s) r).local

  abbrev times : Arrivals → Registry → List ℕ
  times as' r = passed s lower str decode key as' r

  abbrev Room : Registry → Type 0
  Room r = length (get_hits key (local_of r).hits) ≤ (local_of r).max_requests

  -- After an arrival that left the registry and the decision `y`, of the key or not.
  abbrev After : ℕ → Arrivals → Registry → Registry × Bool → Bool → Type 0
  After now as' r y m = Within t key (accepted_if (y.1 && m) now (times as' y.0)) (local_of r)

  After-api :
      (now : ℕ) (k : String) (as' : Arrivals) (r : Registry) (m : Bool)
      → now ≤ t
      → (m ≡ false) ⊎ (m ≡ (k =ₛ key))
      → Room r
      → ((q : Registry) → Room q → Within t key (times as' q) (local_of q))
      → After now as' r (ask s now (api_config s) k none r) m
  After-api now k as' r m h c room ih =
      let (q, b) = ask s now (api_config s) k none r in
      let (p, e) = ask_local s now (api_config s) k r in
      let roomy : Room q =
        subst (λ (l : LocalRateLimiter). length (get_hits key l.hits) ≤ l.max_requests) (sym p)
          (subst (λ n. length (get_hits key (local_allow now k (local_of r)).0.hits) ≤ n)
            (sym (local_allow-settings k now (local_of r)).0)
            (local_allow-length key k now (local_of r) room)) in
      subst (λ d. Within t key (accepted_if (d && m) now (times as' q)) (local_of r)) (sym e)
        (one_more key k now t (local_of r) (times as' q) m h c
          (subst (Within t key (times as' q)) p (ih q roomy)))

  -- An arrival that leaves the limiter.
  After-other :
      (now : ℕ) (as' : Arrivals) (r : Registry) (y : Registry × Bool)
      → local_of y.0 ≡ local_of r
      → Room r
      → ((q : Registry) → Room q → Within t key (times as' q) (local_of q))
      → After now as' r y false
  After-other now as' r (q, b) e room ih =
      let roomy : Room q =
        subst (λ (l : LocalRateLimiter). length (get_hits key l.hits) ≤ l.max_requests) (sym e)
          room in
      rw (and_false b) (subst (Within t key (times as' q)) e (ih q roomy))

  After-Asks :
      (now : ℕ) (a : Arrival) (as' : Arrivals) (r : Registry)
      → Asks s lower str decode a now r key
      → now ≤ t
      → Room r
      → ((q : Registry) → Room q → Within t key (times as' q) (local_of q))
      → After now as' r (arrive s lower str decode now a r) (is_of s lower str decode key now a)
  After-Asks now a as' r (nothing e m) h room ih =
      subst (λ y. After now as' r y (is_of s lower str decode key now a)) (sym e)
        (subst (After now as' r (r, true)) (sym m) (After-other now as' r (r, true) refl room ih))
  After-Asks now a as' r (api k e m) h room ih =
      subst (λ y. After now as' r y (is_of s lower str decode key now a)) (sym e)
        (After-api now k as' r (is_of s lower str decode key now a) h (inr m) room ih)
  After-Asks now a as' r (another c k e m) h room ih =
      subst (λ y. After now as' r y (is_of s lower str decode key now a)) (sym e)
        (elim (Bool-cases (same_config c (api_config s))) [
          | inl f ↦
              subst
                (λ d. After now as' r (ask s now d k none r) (is_of s lower str decode key now a))
                (sym (same_config_eq c (api_config s) f))
                (After-api now k as' r (is_of s lower str decode key now a) h (inl m) room ih)
          | inr f ↦ subst (After now as' r (ask s now c k none r)) (sym m) (
              After-other now as' r (ask s now c k none r)
                (ap (λ l. l.local) (ask_other s now c (api_config s) k r f)) room ih)
        ])

  within :
      (as' : Arrivals) (r : Registry)
      → All (λ a. a.0 ≤ t) as'
      → Room r
      → Within t key (times as' r) (local_of r)
  unfolding passed
  within [] r h room =
      let l = local_of r in
      omega (arith, count-length (in_window t l.window) (get_hits key l.hits), room)
  within ((now, a) ∷ as') r h room =
      After-Asks now a as' r (asks s lower str decode a now r key) h.0 room
        (λ q k. within as' q h.1 k)

-- While Redis does not answer: of all requests that reach a process since its start, with sockets
-- opened and tasks created between them, in any order of their times, and tokens that decode at
-- some of the times and not at others, the middleware passes on at most `api_rate_limit_max` of one
-- key, those to the paths that it skips apart, in the window that ends at a time which no arrival
-- is after. This holds whatever the three limits are, also where two of them are the same and so
-- share a limiter.
pub fallback_bounded :
    (s : Settings) (lower : String → String) (str : ℕ → String)
    (decode : ℕ → String → Option Claims) (key : String) (t : ℕ) (as' : Arrivals)
    → All (λ a. a.0 ≤ t) as'
    → count (in_window t s.api_rate_limit_window) (passed s lower str decode key as' [])
      ≤ s.api_rate_limit_max
unfolding limiter_of
fallback_bounded s lower str decode key t as' h =
    let w = within s lower str decode key t as' [] h (omega arith) in omega (arith, w)
