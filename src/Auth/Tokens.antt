-- ===== src/Auth/Tokens.antt =====
-- The revocation of refresh tokens and API tokens in backend/app/services/auth.py and api_tokens.py.
use distributed_task_platfor.Prelude.{
  =ₛ_iff, ℕ, String, ◌≡◌, refl, false, Option, none, some, List, [], ◌∷◌, ◌==◌, ◌=ₛ◌, count, arith,
  inl, inr, Bool-cases, if◌then◌else◌,
}
use distributed_task_platfor.Auth.{
  RefreshToken, find_refresh, usable, refresh_is_valid, revoke_refresh, is_active_of, revoke_rows,
  revoke_all_refresh_tokens,
}

-- The token, unless it is one of the user's.
abbrev pub of_others : ℕ → Option RefreshToken → Option RefreshToken
of_others user_id none = none
of_others user_id (some t) = if t.user_id == user_id then none else some t

revoke_rows-find :
    (now at user_id : ℕ) (jti : String) (ts : List RefreshToken)
    → usable at (find_refresh jti (revoke_rows now user_id ts))
      ≡ of_others user_id (usable at (find_refresh jti ts))
unfolding revoke_rows
revoke_rows-find now at user_id jti [] = refl
revoke_rows-find now at user_id jti (t ∷ ts) =
    ground (arith, revoke_rows-find now at user_id jti ts)

revoke_rows-count :
    (now user_id : ℕ) (ts : List RefreshToken)
    → count (is_active_of user_id) (revoke_rows now user_id ts) ≡ 0
unfolding revoke_rows
revoke_rows-count now user_id [] = refl
revoke_rows-count now user_id (t ∷ ts) = ground (arith, revoke_rows-count now user_id ts)

-- After all tokens of a user are revoked, a token is valid at any time exactly if it was valid and is
-- another user's, and revoking again finds none to revoke.
pub revoke_all_invalidates :
    (now later at user_id : ℕ) (jti : String) (ts : List RefreshToken)
    → (refresh_is_valid at jti (revoke_all_refresh_tokens now user_id ts).0
        ≡ of_others user_id (refresh_is_valid at jti ts))
      × ((revoke_all_refresh_tokens later user_id (revoke_all_refresh_tokens now user_id ts).0).1
          ≡ 0)
unfolding refresh_is_valid revoke_all_refresh_tokens
revoke_all_invalidates now later at user_id jti ts =
    (revoke_rows-find now at user_id jti ts, revoke_rows-count now user_id ts)

revoked_unusable :
    (now at : ℕ) (jti : String) (ts : List RefreshToken)
    → usable at (find_refresh jti (revoke_refresh now jti ts)) ≡ none
unfolding revoke_refresh
revoked_unusable now at jti [] = refl
revoked_unusable now at jti (t ∷ ts) = ground (arith, revoked_unusable now at jti ts)

revoked_other :
    (now at : ℕ) (jti other : String) (ts : List RefreshToken)
    → (jti =ₛ other) ≡ false
    → usable at (find_refresh other (revoke_refresh now jti ts)) ≡ usable at (find_refresh other ts)
unfolding revoke_refresh
revoked_other now at jti other [] h = refl
revoked_other now at jti other (t ∷ ts) h =
    let rest = revoked_other now at jti other ts h in
    elim (Bool-cases (t.jti =ₛ jti)) [
      | inl e ↦ let n : (t.jti =ₛ other) ≡ false = rw ((=ₛ_iff t.jti jti).0 e) h in rw (e, n) rest
      | inr e ↦ rw e (elim (Bool-cases (t.jti =ₛ other)) [ inl f ↦ rw f refl | inr f ↦ rw f rest ])
    ]

-- A refresh token that is revoked, as `refresh` does before it gives a new pair and `logout` does, is
-- valid at no time, and the tokens with another `jti` are valid as before.
pub revoked_once :
    (now at : ℕ) (jti other : String) (ts : List RefreshToken)
    → (jti =ₛ other) ≡ false
    → (refresh_is_valid at jti (revoke_refresh now jti ts) ≡ none)
      × (refresh_is_valid at other (revoke_refresh now jti ts) ≡ refresh_is_valid at other ts)
unfolding refresh_is_valid
revoked_once now at jti other ts h =
    (revoked_unusable now at jti ts, revoked_other now at jti other ts h)
