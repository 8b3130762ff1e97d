-- ===== src/Scenarios/Services.antt =====
-- The theorems on the rate limiters, the outbox and the tokens at concrete inputs.
use distributed_task_platfor.Prelude.{
  ◌+◌, ◌≤◌, ◌≡◌, refl, none, List, [], ◌∷◌, arith, count, select,
}
use distributed_task_platfor.RateLimit.{get_hits, in_window, script, LocalRateLimiter, local_allow}
use distributed_task_platfor.RateLimit.Window.{Requests, accepted, accepted_bounded}
use distributed_task_platfor.RateLimit.Script.{Agrees, script_refines}
use distributed_task_platfor.Outbox.{is_pending, publish_pending_events}
use distributed_task_platfor.Outbox.Relay.{relay_drains}
use distributed_task_platfor.Auth.{
  RefreshToken, refresh_is_valid, revoke_all_refresh_tokens, revoke_refresh,
}
use distributed_task_platfor.Auth.Tokens.{of_others, revoke_all_invalidates, revoked_once}
use distributed_task_platfor.Scenarios.{one_task, accepting, all_taken, few_messages}

abbrev limiter : LocalRateLimiter
limiter = record { max_requests = 2; window = 60; hits = [] }

abbrev burst : Requests
burst = (1, "a") ∷ (2, "b") ∷ (3, "a") ∷ (4, "a") ∷ []

accepted_bounded_example :
    count (in_window 5 60) (accepted "a" burst limiter) + count (in_window 5 60) (get_hits "a" [])
    ≤ 2
accepted_bounded_example =
    accepted_bounded "a" 5 burst limiter
      (omega arith, (omega arith, (omega arith, (omega arith, tt)))) (omega arith)

script_refines_example :
    ((script 5 60 2 []).1 ≡ (local_allow 5 "a" limiter).1)
    × Agrees 5 "a" (script 5 60 2 []).0 (local_allow 5 "a" limiter).0
script_refines_example = script_refines 5 "a" [] limiter (λ t h. refl)

relay_drains_example :
    select is_pending (publish_pending_events 500 accepting 10 one_task).0.outbox ≡ []
relay_drains_example = relay_drains 500 10 accepting one_task all_taken few_messages

abbrev tokens : List RefreshToken
tokens =
    record { user_id = 1; jti = "x"; expires_at = 900; revoked_at = none }
    ∷ record { user_id = 2; jti = "y"; expires_at = 900; revoked_at = none }
    ∷ []

revoke_all_invalidates_example :
    (refresh_is_valid 200 "x" (revoke_all_refresh_tokens 100 1 tokens).0
      ≡ of_others 1 (refresh_is_valid 200 "x" tokens))
    × ((revoke_all_refresh_tokens 150 1 (revoke_all_refresh_tokens 100 1 tokens).0).1 ≡ 0)
revoke_all_invalidates_example = revoke_all_invalidates 100 150 200 1 "x" tokens

revoked_once_example :
    (refresh_is_valid 200 "x" (revoke_refresh 100 "x" tokens) ≡ none)
    × (refresh_is_valid 200 "y" (revoke_refresh 100 "x" tokens) ≡ refresh_is_valid 200 "y" tokens)
revoked_once_example = revoked_once 100 200 "x" "y" tokens refl
