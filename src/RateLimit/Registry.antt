-- ===== src/RateLimit/Registry.antt =====
-- The rest of backend/app/core/rate_limit.py: the limiters of the process by their configuration,
-- the limits that the routes ask for, and the middleware. `answer` is what Redis said, or none.
use distributed_task_platfor.Prelude.{
  ℕ, String, Bool, true, false, not, ◌&&◌, Option, none, some, List, [], ◌∷◌, ◌==◌, ◌=ₛ◌, join,
  starts_with, member_text, drop_text, if◌then◌else◌,
}
use distributed_task_platfor.Model.Settings.{Settings}
use distributed_task_platfor.RateLimit.{RateLimiter, allow, reset}
use distributed_task_platfor.Auth.{Claims}

-- `_rate_limiters`: the keys are `(max_requests, window_seconds)`.
abbrev pub Registry : Type 0
Registry = List ((ℕ × ℕ) × RateLimiter)

-- `RateLimiter(*key)`.
abbrev pub new_limiter : ℕ × ℕ → RateLimiter
new_limiter (max, window) = record {
  local = record { max_requests = max; window = window; hits = [] };
  redis = record { max_requests = max; window = window; last_failure = none };
}

abbrev pub same_config : ℕ × ℕ → ℕ × ℕ → Bool
same_config (m, w) (n, v) = (m == n) && (w == v)

abbrev pub find_limiter : ℕ × ℕ → Registry → Option RateLimiter
find_limiter c [] = none
find_limiter c ((d, l) ∷ r) = if same_config d c then some l else find_limiter c r

abbrev pub put_limiter : ℕ × ℕ → RateLimiter → Registry → Registry
put_limiter c l [] = (c, l) ∷ []
put_limiter c l ((d, k) ∷ r) = if same_config d c then (d, l) ∷ r else (d, k) ∷ put_limiter c l r

abbrev pub or_new : ℕ × ℕ → Option RateLimiter → RateLimiter
or_new c none = new_limiter c
or_new c (some l) = l

-- The limiter of a configuration, made at its first use.
unfoldable pub limiter_of : ℕ × ℕ → Registry → RateLimiter
limiter_of c r = or_new c (find_limiter c r)

-- One call of `allow` of the limiter, which the registry keeps.
unfoldable pub ask : Settings → ℕ → ℕ × ℕ → String → Option Bool → Registry → Registry × Bool
ask s now c key answer r =
    let (l, b) = allow s.rate_limit_redis_enabled now key answer (limiter_of c r) in
    (put_limiter c l r, b)

abbrev pub api_config : Settings → ℕ × ℕ
api_config s = (s.api_rate_limit_max, s.api_rate_limit_window)

-- The pass over the registry in `reset_rate_limits`.
unfoldable pub reset_rate_limits : Registry → Registry
reset_rate_limits [] = []
reset_rate_limits ((c, l) ∷ r) = (c, reset none l) ∷ reset_rate_limits r

unfoldable pub ws_allowed : Settings → ℕ → String → Option Bool → Registry → Registry × Bool
ws_allowed s now key answer r =
    ask s now (s.ws_connect_limit_max, s.ws_connect_limit_window) (join "ws:" key) answer r

unfoldable pub task_create_allowed :
    Settings → ℕ → String → Option Bool → Registry → Registry × Bool
task_create_allowed s now client_ip answer r =
    ask s now (s.task_create_limit_max, s.task_create_limit_window) (join "create:" client_ip)
      answer r

-- The scope of a request: its kind, path, headers in order, and the host of the client.
pub record Scope : Type 0 where
  pub kind : String
  pub path : String
  pub headers : List (String × String)
  pub client : Option String

abbrev pub find_header : String → List (String × String) → Option String
find_header name [] = none
find_header name ((n, v) ∷ hs) = if n =ₛ name then some v else find_header name hs

abbrev pub ip_key : Option String → String
ip_key none = "ip:unknown"
ip_key (some host) = join "ip:" host

abbrev pub skip_paths : List String
skip_paths = "/" ∷ "/health" ∷ "/metrics" ∷ "/docs" ∷ "/openapi.json" ∷ "/redoc" ∷ []

-- What the middleware does with a request: it passes it on, or answers 429 itself with the window.
pub data Gate : Type 0 where
  passed_on : Gate
  too_many : ℕ → Gate

-- `str.lower` and `str` of a number, and the decoding of a token, which fails after its time.
module _ (lower : String → String) (str : ℕ → String) (decode : String → Option Claims) where
  -- A token that carries the signature was made by `_create_token`, so `sub` is a number.
  abbrev pub token_key : Option String → Option Claims → String
  token_key client none = ip_key client
  token_key client (some c) =
      if c.token_type =ₛ "access"
      then elim c.subject [ none ↦ ip_key client | some i ↦ join "user:" (str i) ]
      else ip_key client

  abbrev pub bearer_key : Option String → Option String → String
  bearer_key client none = ip_key client
  bearer_key client (some h) =
      if starts_with (lower h) "bearer "
      then token_key client (decode (drop_text 7 h))
      else ip_key client

  unfoldable pub client_key : Scope → String
  client_key scope = bearer_key scope.client (find_header "authorization" scope.headers)

  abbrev pub gate : ℕ → Registry × Bool → Registry × Gate
  gate window (r, true) = (r, passed_on)
  gate window (r, false) = (r, too_many window)

  -- `RateLimitMiddleware.__call__`.
  unfoldable pub middleware : Settings → ℕ → Option Bool → Scope → Registry → Registry × Gate
  middleware s now answer scope r =
      if not (scope.kind =ₛ "http")
      then (r, passed_on)
      else if member_text scope.path skip_paths
      then (r, passed_on)
      else gate s.api_rate_limit_window (ask s now (api_config s) (client_key scope) answer r)
