-- ===== src/RateLimit.antt =====
-- backend/app/core/rate_limit.py, and the two limiters of backend/app/services/auth.py: sliding
-- windows over the times of the requests of a key. Redis is a parameter of `RateLimiter`; the Lua
-- script that it runs is modelled.
pub mod Window
pub mod Script
pub mod Registry
pub mod Shared
pub mod Fallback
use distributed_task_platfor.Prelude.{
  ℕ, ◌+◌, ◌-◌, ◌*◌, String, Bool, true, false, not, Option, none, some, List, [], ◌∷◌, ◌++◌, ◌=ₛ◌,
  leb, ltb, length, select, if◌then◌else◌,
}
use distributed_task_platfor.Model.Settings.{Settings}

-- A `dict[str, list[float]]`; a key that is missing reads as the empty list.
abbrev pub Hits : Type 0
Hits = List (String × List ℕ)

abbrev pub get_hits : String → Hits → List ℕ
get_hits k [] = []
get_hits k ((j, ts) ∷ m) = if j =ₛ k then ts else get_hits k m

abbrev pub put_hits : String → List ℕ → Hits → Hits
put_hits k ts [] = (k, ts) ∷ []
put_hits k ts ((j, us) ∷ m) = if j =ₛ k then (k, ts) ∷ m else (j, us) ∷ put_hits k ts m

abbrev pub pop_hits : String → Hits → Hits
pop_hits k [] = []
pop_hits k ((j, us) ∷ m) = let rest = pop_hits k m in if j =ₛ k then rest else (j, us) ∷ rest

-- `t > now - window` for a clock that may be below the window, where `-` would stop at 0.
abbrev pub in_window : ℕ → ℕ → ℕ → Bool
in_window now window t = ltb now (t + window)

unfoldable pub recent : ℕ → ℕ → List ℕ → List ℕ
recent now window ts = select (in_window now window) ts

pub record LocalRateLimiter : Type 0 where
  pub max_requests : ℕ
  pub window : ℕ
  pub hits : Hits

-- `LocalRateLimiter.allow`: the old timestamps are dropped on both branches.
unfoldable pub local_allow : ℕ → String → LocalRateLimiter → LocalRateLimiter × Bool
local_allow now key l =
    let ts = recent now l.window (get_hits key l.hits) in
    if leb l.max_requests (length ts)
    then (record l { hits = put_hits key ts l.hits }, false)
    else (record l { hits = put_hits key (ts ++ now ∷ []) l.hits }, true)

unfoldable pub local_reset : Option String → LocalRateLimiter → LocalRateLimiter
local_reset none l = record l { hits = [] }
local_reset (some key) l = record l { hits = pop_hits key l.hits }

-- `SLIDING_WINDOW_SCRIPT` on the scores of one sorted set: `ZREMRANGEBYSCORE`, `ZCARD`, `ZADD`.
unfoldable pub script : ℕ → ℕ → ℕ → List ℕ → List ℕ × Bool
script now window max scores =
    let left = recent now window scores in
    if leb max (length left) then (left, false) else (now ∷ left, true)

-- `RedisRateLimiter`: the time of the last failure, and the sets of the server.
pub record RedisRateLimiter : Type 0 where
  pub max_requests : ℕ
  pub window : ℕ
  pub last_failure : Option ℕ

-- 30 seconds.
abbrev pub failure_pause : ℕ
failure_pause = 30_000_000

unfoldable pub available : ℕ → RedisRateLimiter → Bool
available now r = elim r.last_failure [ none ↦ true | some t ↦ ltb (t + failure_pause) now ]

-- `answer` is what `redis.eval` returned, or `none` where it raised.
unfoldable pub redis_allow : ℕ → Option Bool → RedisRateLimiter → RedisRateLimiter × Option Bool
redis_allow now answer r =
    if not (available now r)
    then (r, none)
    else elim answer [ none ↦ (record r { last_failure = some now }, none) | some b ↦ (r, some b) ]

pub record RateLimiter : Type 0 where
  pub local : LocalRateLimiter
  pub redis : RedisRateLimiter

abbrev pub fall_back : ℕ → String → RateLimiter → Option Bool → RateLimiter × Bool
fall_back now key l (some b) = (l, b)
fall_back now key l none =
    let (local, b) = local_allow now key l.local in (record l { local = local }, b)

unfoldable pub allow : Bool → ℕ → String → Option Bool → RateLimiter → RateLimiter × Bool
allow redis_enabled now key answer l =
    if redis_enabled
    then (let (r, b) = redis_allow now answer l.redis in
        fall_back now key (record l { redis = r }) b)
    else fall_back now key l none

unfoldable pub reset : Option String → RateLimiter → RateLimiter
reset key l = record {
  local = local_reset key l.local;
  redis = record l.redis { last_failure = none };
}

-- `auth_rate_limiter`: none is the exception with status 429, after which nothing is stored.
unfoldable pub auth_rate_limiter : Settings → ℕ → String → Hits → Option Hits
auth_rate_limiter s now client hits =
    let ts = recent now s.auth_rate_limit_window (get_hits client hits) in
    if leb s.auth_rate_limit_max (length ts)
    then none
    else some (put_hits client (ts ++ now ∷ []) hits)

-- `login_failure_limiter` only reads.
unfoldable pub login_failure_limiter : Settings → ℕ → String → Hits → Bool
login_failure_limiter s now client hits = not (
    leb s.auth_rate_limit_max (length (recent now s.auth_rate_limit_window (get_hits client hits))))

unfoldable pub record_login_failure : Settings → ℕ → String → Hits → Hits
record_login_failure s now client hits =
    put_hits client (recent now s.auth_rate_limit_window (get_hits client hits) ++ now ∷ []) hits

unfoldable pub clear_login_failures : String → Hits → Hits
clear_login_failures client hits = pop_hits client hits
