-- ===== src/Api/Users/Issue.antt =====
-- An API token that a user makes, `create_api_token` of backend/app/api/routes/auth.py, lets the user
-- in until it expires.
use distributed_task_platfor.Prelude.{
  ℕ, String, ◌≡◌, refl, sym, ap, ◌∙◌, true, Option, none, some, List, [], ◌∷◌, ◌++◌, ◌=ₛ◌, =ₛ_iff,
  starts_with-join, inl, inr, Bool-cases, if◌then◌else◌,
}
use distributed_task_platfor.Model.Settings.{Settings}
use distributed_task_platfor.ApiTokens.{
  ApiToken, create_token, generate_token, is_api_token, find_hash, authenticate, authentic, expired,
  expiry,
}
use distributed_task_platfor.Auth.{
  User, find_user, active_user, access_user, token_user, get_current_user,
}
use distributed_task_platfor.Auth.Access.{IsActiveRow}
use distributed_task_platfor.Api.{Site, Request, External, site_after, status_code}
use distributed_task_platfor.Api.Users.{create_api_token_as}

find_hash-append :
    (hash : String → String) (token : String) (rows : List ApiToken) (r : ApiToken)
    → find_hash hash token rows ≡ none
    → r.token_hash ≡ hash token
    → find_hash hash token (rows ++ r ∷ []) ≡ some r
unfolding find_hash
find_hash-append hash token [] r h e =
    ap (λ b. if b then some r else none) ((=ₛ_iff r.token_hash (hash token)).1 e)
find_hash-append hash token (q ∷ rows) r h e = elim (Bool-cases (q.token_hash =ₛ hash token)) [
  | inl f ↦ let w : some q ≡ none = sym (rw f refl) ∙ h in cc w
  | inr f ↦
      ap (λ b. if b then some q else find_hash hash token (rows ++ r ∷ [])) f
      ∙ find_hash-append hash token rows r (sym (rw f refl) ∙ h) e
]

-- The user of a row, at a time.
abbrev pub until : ℕ → Option ℕ → User → Option User
until at e u = if expired at e then none else some u

module _ (s : Settings) (x : External) where
  active : (us : List User) (u : User) → IsActiveRow us u → active_user (find_user u.id us) ≡ some u
  active us u h = ap active_user h.0 ∙ ap (λ b. if b then some u else none) h.1

  row-user :
      (at id : ℕ) (name hash : String) (expires : Option ℕ) (us : List User) (rows : List ApiToken)
      (u : User)
      → IsActiveRow us u
      → (token_user at us rows (
          authentic at (
            some (record {
              id = id;
              name = name;
              user_id = u.id;
              token_hash = hash;
              last_used_at = none;
              expires_at = expires;
              revoked_at = none;
              is_active = true;
            })))).0
        ≡ until at expires u
  row-user at id name hash expires us rows u h = elim (Bool-cases (expired at expires)) [
    | inl e ↦ rw e refl
    | inr e ↦ rw e (rw (active us u h) refl)
  ]

  -- When an active user makes an API token whose hash no row has: from then on, with no other change
  -- of the tables, a request with that token is let through as the user at any time before the token
  -- expires, by the lifetime in the settings or never, and is refused from that time on.
  pub token_lets_in :
      (secret name : String) (req : Request) (at : ℕ) (u : User) (site : Site)
      → IsActiveRow site.users u
      → find_hash x.hash_token (generate_token s secret) site.api_tokens.rows ≡ none
      → (let reply = create_api_token_as s x secret name req u site in
          let after = site_after site reply in
          (status_code reply ≡ 201)
          × ((get_current_user x.hash_token
                (x.decode at)
                (is_api_token s)
                at
                (some (generate_token s secret))
                after.api_tokens.rows
                after.users).0
              ≡ until at (expiry s req.now none) u))
  unfolding create_api_token_as get_current_user create_token authenticate
  token_lets_in secret name req at u site active_u fresh =
      let token = generate_token s secret in
      let is : is_api_token s token ≡ true =
        unfold is_api_token generate_token in starts_with-join s.api_token_prefix secret in
      let made = create_token x.hash_token s req.now u.id name none token site.api_tokens in
      (
        refl,
        ap
              (λ b.
                (if b
                  then token_user at site.users made.rows
                      (authentic at (find_hash x.hash_token token made.rows))
                  else (access_user site.users (x.decode at token), made.rows)).0)
              is
            ∙ ap (λ o. (token_user at site.users made.rows (authentic at o)).0)
                (find_hash-append x.hash_token token site.api_tokens.rows _ fresh refl)
            ∙ row-user at site.api_tokens.next_id name (x.hash_token token) (expiry s req.now none)
                site.users made.rows u active_u,
      )
