-- ===== src/ApiTokens/Revocation.antt =====
-- A revoked API token, `revoke_token` and `authenticate` of backend/app/services/api_tokens.py.
use distributed_task_platfor.Prelude.{
  ℕ, String, ◌≡◌, refl, sym, ap, ◌∙◌, Bool, true, false, ◌&&◌, ◌||◌, Option, none, some, List, [],
  ◌∷◌, ◌==◌, ==_refl, ◌=ₛ◌, is_none, inl, inr, Bool-cases, Option-cases, if◌then◌else◌,
}
use distributed_task_platfor.ApiTokens.{
  ApiToken, authenticate, find_hash, authentic, may_revoke, revoke_token, revoke_token_rows,
}

module _ (hash_token : String → String) where
  -- A row that is revoked is refused.
  revoked_row :
      (now at : ℕ) (r : ApiToken)
      → authentic at (some (if is_none r.revoked_at then record r { revoked_at = some now } else r))
        ≡ none
  revoked_row now at r = elim (Option-cases r.revoked_at) [
    | inl e ↦ rw e refl
    | inr (t, e) ↦ rw e refl
  ]

  abbrev if_revoked : ℕ → Bool → ApiToken → ApiToken
  if_revoked now b x = if b then record x { revoked_at = some now } else x

  first :
      (now at : ℕ) (b : Bool) (x : ApiToken) (token : String) (rest : Option ApiToken)
      → (x.token_hash =ₛ hash_token token) ≡ true
      → authentic at (
          if (if_revoked now b x).token_hash =ₛ hash_token token
          then some (if_revoked now b x)
          else rest)
        ≡ authentic at (some (if_revoked now b x))
  first now at true x token rest e =
      ap (λ c. authentic at (if c then some (if_revoked now true x) else rest)) e
  first now at false x token rest e = ap (λ c. authentic at (if c then some x else rest)) e

  later :
      (now at : ℕ) (b : Bool) (x : ApiToken) (token : String) (rest : Option ApiToken)
      → (x.token_hash =ₛ hash_token token) ≡ false
      → authentic at (
          if (if_revoked now b x).token_hash =ₛ hash_token token
          then some (if_revoked now b x)
          else rest)
        ≡ authentic at rest
  later now at true x token rest e =
      ap (λ c. authentic at (if c then some (if_revoked now true x) else rest)) e
  later now at false x token rest e = ap (λ c. authentic at (if c then some x else rest)) e

  -- The row that is found for a token, once its user or an admin has revoked it.
  revoked_found :
      (now at id user_id : ℕ) (admin : Bool) (token : String) (rows : List ApiToken) (r : ApiToken)
      → find_hash hash_token token rows ≡ some r
      → may_revoke id user_id admin r ≡ true
      → authentic at (find_hash hash_token token (revoke_token_rows now id user_id admin rows))
        ≡ none
  unfolding find_hash revoke_token_rows
  revoked_found now at id user_id admin token [] r f m = refl
  revoked_found now at id user_id admin token (x ∷ rows) r f m =
      elim (Bool-cases (x.token_hash =ₛ hash_token token)) [
        | inl e ↦
            let q : some x ≡ some r = sym (rw e refl) ∙ f in
            let p : x ≡ r = cc q in
            let may : may_revoke id user_id admin x ≡ true =
              ap (λ (y : ApiToken). may_revoke id user_id admin y) p ∙ m in
            first now at (may_revoke id user_id admin x && is_none x.revoked_at) x token _ e
            ∙ ap
                (λ b. authentic at (
                  some
                    (if b && is_none x.revoked_at then record x { revoked_at = some now } else x)))
                may
            ∙ revoked_row now at x
        | inr e ↦
            later now at (may_revoke id user_id admin x && is_none x.revoked_at) x token _ e
            ∙ revoked_found now at id user_id admin token rows r (sym (rw e refl) ∙ f) m
      ]

-- After the row of an API token is revoked by its user or by an admin, the token is accepted at no time.
pub revoked_token_refused :
    (hash_token : String → String) (now at user_id : ℕ) (admin : Bool) (token : String)
    (rows : List ApiToken) (r : ApiToken)
    → find_hash hash_token token rows ≡ some r
    → (admin || (r.user_id == user_id)) ≡ true
    → authenticate hash_token at token (revoke_token now r.id user_id admin rows).0 ≡ none
unfolding authenticate revoke_token
revoked_token_refused hash_token now at user_id admin token rows r f m =
    revoked_found hash_token now at r.id user_id admin token rows r f
      (ap (λ b. b && (admin || (r.user_id == user_id))) (==_refl r.id) ∙ m)
