-- ===== src/Scenarios/Limits.antt =====
-- A burst of requests while Redis does not answer.
use distributed_task_platfor.Prelude.{◌≤◌, none, some, [], ◌∷◌, count, arith}
use distributed_task_platfor.Model.Settings.{Settings, default_settings}
use distributed_task_platfor.RateLimit.{in_window}
use distributed_task_platfor.RateLimit.Registry.{Scope}
use distributed_task_platfor.RateLimit.Shared.{Arrivals, request, socket, creation, passed}
use distributed_task_platfor.RateLimit.Fallback.{fallback_bounded}

-- Two requests in a minute, and the same limit for the creation of tasks.
abbrev strict : Settings
strict = record default_settings {
  api_rate_limit_max = 2;
  api_rate_limit_window = 60;
  task_create_limit_max = 2;
  task_create_limit_window = 60;
}

abbrev pub listing : Scope
listing = record { kind = "http"; path = "/tasks"; headers = []; client = some "10.0.0.1" }

abbrev burst : Arrivals
burst =
    (1, request listing)
    ∷ (2, request listing)
    ∷ (3, creation "10.0.0.1")
    ∷ (4, socket "7")
    ∷ (5, request listing)
    ∷ []

fallback_bounded_example :
    count
      (in_window 5 60)
      (passed strict (λ text. text) (λ n. "7") (λ now token. none) "ip:10.0.0.1" burst [])
    ≤ 2
fallback_bounded_example =
    fallback_bounded strict (λ text. text) (λ n. "7") (λ now token. none) "ip:10.0.0.1" 5 burst
      (omega arith, (omega arith, (omega arith, (omega arith, (omega arith, tt)))))
