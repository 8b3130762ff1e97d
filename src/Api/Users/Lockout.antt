-- ===== src/Api/Users/Lockout.antt =====
-- A user that an admin deactivates, `set_active` of backend/app/api/routes/auth.py, has no way in.
use distributed_task_platfor.Prelude.{
  ℕ, String, ◌≡◌, refl, sym, ap, ◌∙◌, true, false, Option, none, some, List, [], ◌∷◌, ◌==◌, ◌=ₛ◌,
  inl, inr, Bool-cases, arith, if◌then◌else◌,
}
use distributed_task_platfor.Model.Settings.{Settings}
use distributed_task_platfor.ApiTokens.{is_api_token}
use distributed_task_platfor.Auth.{
  User, RefreshToken, find_user, get_user_by_username, get_current_user, refresh_is_valid,
  revoke_all_refresh_tokens,
}
use distributed_task_platfor.Auth.Access.{access_by_active, find_user-id}
use distributed_task_platfor.Auth.Tokens.{of_others, revoke_all_invalidates}
use distributed_task_platfor.Api.{
  Site, Request, External, Body, user_out, answer, commit, site_after, answered_after, status_code,
}
use distributed_task_platfor.Api.Accounts.{update_user}
use distributed_task_platfor.Api.Users.{
  set_active_of, set_active_as, activated, change_user, log_user,
}

abbrev off : User → User
off u = record u { is_active = false }

inactive-find :
    (i j : ℕ) (us : List User) (u : User)
    → find_user j (update_user i off us) ≡ some u
    → u.is_active ≡ true
    → (j == i) ≡ false
inactive-find i j [] u h k = cc h
inactive-find i j (v ∷ us) u h k = elim (Bool-cases (v.id == i)) [
  | inl e ↦ elim (Bool-cases (v.id == j)) [
    | inl f ↦
        let q : some (off v) ≡ some u = sym (rw (e, f) refl) ∙ h in
        let p : off v ≡ u = cc q in
        let r : false ≡ true = ap (λ (w : User). w.is_active) p ∙ k in cc r
    | inr f ↦ inactive-find i j us u (sym (rw (e, f) refl) ∙ h) k
  ]
  | inr e ↦ elim (Bool-cases (v.id == j)) [
    | inl f ↦ ground arith
    | inr f ↦ inactive-find i j us u (sym (rw (e, f) refl) ∙ h) k
  ]
]

inactive-named :
    (i : ℕ) (name : String) (us : List User) (u : User)
    → get_user_by_username name (update_user i off us) ≡ some u
    → (u.id == i) ≡ false
unfolding get_user_by_username
inactive-named i name [] u h = cc h
inactive-named i name (v ∷ us) u h = elim (Bool-cases (v.username =ₛ name)) [
  | inl n ↦ elim (Bool-cases (v.id == i)) [
    | inl e ↦ inactive-named i name us u (sym (rw (e, n) refl) ∙ h)
    | inr e ↦ elim (Bool-cases v.is_active) [
      | inl a ↦
          let q : some v ≡ some u = sym (rw e (rw (n, a) refl)) ∙ h in
          let p : v ≡ u = cc q in ap (λ (w : User). w.id == i) (sym p) ∙ e
      | inr a ↦ inactive-named i name us u (sym (rw e (rw (n, a) refl)) ∙ h)
    ]
  ]
  | inr n ↦ elim (Bool-cases (v.id == i)) [
    | inl e ↦ inactive-named i name us u (sym (rw (e, n) refl) ∙ h)
    | inr e ↦ inactive-named i name us u (sym (rw e (rw n refl)) ∙ h)
  ]
]

-- The user, unless it is that one.
abbrev pub other_user : ℕ → Option User → Option User
other_user i none = none
other_user i (some u) = if u.id == i then none else some u

other-same :
    (i : ℕ) (o : Option User) → ((u : User) → o ≡ some u → (u.id == i) ≡ false) → other_user i o ≡ o
other-same i none k = refl
other-same i (some u) k = rw (k u refl) refl

others-twice : (i : ℕ) (o : Option RefreshToken) → of_others i (of_others i o) ≡ of_others i o
others-twice i none = refl
others-twice i (some r) = elim (Bool-cases (r.user_id == i)) [
  | inl e ↦ rw e refl
  | inr e ↦ rw (e, e) refl
]

-- The users and refresh tokens that the route leaves.
module _ (s : Settings) (x : External) where
  abbrev Deactivated : ℕ → ℕ → Site → Site → Type 0
  Deactivated now i site after =
      (after.users ≡ update_user i off site.users)
      × (after.refresh_tokens ≡ (revoke_all_refresh_tokens now i site.refresh_tokens).0)

  deactivated :
      (req : Request) (admin : User) (i status : ℕ) (site after : Site) (body : Body)
      (o : Option User)
      → find_user i site.users ≡ o
      → set_active_of s x false req admin site o ≡ answer status (after, body)
      → Deactivated req.now i site after
  deactivated req admin i status site after body none f h = cc h
  deactivated req admin i status site after body (some u) f h =
      let k = find_user-id i site.users u f in
      let e = ap (λ r. (commit site r).0) h in
      (
        sym (ap (λ (w : Site). w.users) e) ∙ ap (λ j. update_user j off site.users) k,
        sym (ap (λ (w : Site). w.refresh_tokens) e)
            ∙ ap (λ j. (revoke_all_refresh_tokens req.now j site.refresh_tokens).0) k,
      )

  set_active-answers :
      (req : Request) (admin target : User) (i : ℕ) (site : Site)
      → find_user i site.users ≡ some target
      → set_active_as s x i false req admin site
        ≡ answer 200 (
          log_user s x req admin "user.set_active" target.id
              (change_user s x req true target (activated s x false) site),
          user_out (activated s x false target),
        )
  unfolding set_active_as
  set_active-answers req admin target i site f = ap (set_active_of s x false req admin site) f

  -- When an admin deactivates a user that is there, the answer has status 200. After that, until the
  -- tables change again: whoever a request with any header is let through as, at any time, is another
  -- user; so is whoever logs in by any name; and a refresh token that is valid, at any time, is another
  -- user's.
  pub locked_out :
      (req : Request) (admin target : User) (i now : ℕ) (site : Site) (header : Option String)
      (name jti : String)
      → find_user i site.users ≡ some target
      → (let reply = set_active_as s x i false req admin site in
          let after = site_after site reply in
          let u =
            (get_current_user x.hash_token
              (x.decode now)
              (is_api_token s)
              now
              header
              after.api_tokens.rows
              after.users).0 in
          (status_code reply ≡ 200)
          × (other_user i u ≡ u)
          × (other_user i (get_user_by_username name after.users)
              ≡ get_user_by_username name after.users)
          × (of_others i (refresh_is_valid now jti after.refresh_tokens)
              ≡ refresh_is_valid now jti after.refresh_tokens))
  unfolding set_active_as
  locked_out req admin target i now site header name jti f =
      let first = set_active-answers req admin target i site f in
      let after = site_after site (set_active_as s x i false req admin site) in
      let h = answered_after site _ 200 _ _ first in
      let (us, ts) = deactivated req admin i 200 site after _ _ refl h in
      let valid =
        ap (refresh_is_valid now jti) ts
        ∙ (revoke_all_invalidates req.now now now i jti site.refresh_tokens).0 in
      (
        ap status_code first,
        other-same i _ (λ u k.
            let (found, active) =
              access_by_active x.hash_token (x.decode now) (is_api_token s) now header
                after.api_tokens.rows after.users u k in
            inactive-find i u.id site.users u (ap (find_user u.id) (sym us) ∙ found) active),
        other-same i _ (λ u k.
            inactive-named i name site.users u (ap (get_user_by_username name) (sym us) ∙ k)),
        ap (of_others i) valid
            ∙ others-twice i (refresh_is_valid now jti site.refresh_tokens)
            ∙ sym valid,
      )
