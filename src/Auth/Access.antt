-- ===== src/Auth/Access.antt =====
-- Who a request is let through as, in backend/app/services/auth.py and api_tokens.py.
use distributed_task_platfor.Prelude.{
  ℕ, String, ◌≡◌, refl, sym, ap, ◌∙◌, Bool, true, false, Option, none, some, List, [], ◌∷◌, ◌==◌,
  ==_iff, inl, inr, Bool-cases, if◌then◌else◌,
}
use distributed_task_platfor.ApiTokens.{ApiToken, authenticate}
use distributed_task_platfor.Auth.{
  User, find_user, active_user, Claims, subject_of, user_of, token_user, used_by, get_current_user,
}

chosen :
    {A : Type 0} (b : Bool) (x y : A) → (if b then some x else none) ≡ some y → (b ≡ true) × (x ≡ y)
chosen true x y h = (refl, cc h)
chosen false x y h = cc h

-- A user that is let through is an active row of the table.
abbrev pub IsActiveRow : List User → User → Type 0
IsActiveRow us u = (find_user u.id us ≡ some u) × (u.is_active ≡ true)

pub find_user-id : (i : ℕ) (us : List User) (u : User) → find_user i us ≡ some u → u.id ≡ i
find_user-id i [] u h = cc h
find_user-id i (v ∷ us) u h = elim (Bool-cases (v.id == i)) [
  | inl e ↦
      let q : some v ≡ some u = sym (rw e refl) ∙ h in
      let p : v ≡ u = cc q in ap (λ (w : User). w.id) (sym p) ∙ (==_iff v.id i).0 e
  | inr e ↦ find_user-id i us u (sym (rw e refl) ∙ h)
]

pub active-IsActiveRow :
    (i : ℕ) (us : List User) (o : Option User) (u : User)
    → find_user i us ≡ o
    → active_user o ≡ some u
    → IsActiveRow us u
active-IsActiveRow i us none u f h = cc h
active-IsActiveRow i us (some v) u f h =
    let (a, p) = chosen v.is_active v u h in
    let g : find_user i us ≡ some u = f ∙ ap (λ w. some w) p in
    (
      ap (λ j. find_user j us) (find_user-id i us u g) ∙ g,
      ap (λ (w : User). w.is_active) (sym p) ∙ a,
    )

used_by-user :
    (now : ℕ) (r : ApiToken) (rows : List ApiToken) (o : Option User) → (used_by now r rows o).0 ≡ o
used_by-user now r rows none = refl
used_by-user now r rows (some u) = refl

api_user :
    (now : ℕ) (us : List User) (rows : List ApiToken) (o : Option ApiToken) (u : User)
    → (token_user now us rows o).0 ≡ some u
    → IsActiveRow us u
api_user now us rows none u h = cc h
api_user now us rows (some r) u h =
    active-IsActiveRow r.user_id us (find_user r.user_id us) u refl
      (sym (used_by-user now r rows (active_user (find_user r.user_id us))) ∙ h)

jwt_user : (us : List User) (o : Option ℕ) (u : User) → user_of us o ≡ some u → IsActiveRow us u
jwt_user us none u h = cc h
jwt_user us (some i) u h = active-IsActiveRow i us (find_user i us) u refl h

-- Whoever a request is let through as, by an API token or by an access token, is an active user of the
-- table at that time.
pub access_by_active :
    (hash_token : String → String) (decode : String → Option Claims) (is_api_token : String → Bool)
    (now : ℕ) (header : Option String) (rows : List ApiToken) (us : List User) (u : User)
    → (get_current_user hash_token decode is_api_token now header rows us).0 ≡ some u
    → IsActiveRow us u
unfolding get_current_user
access_by_active hash_token decode is_api_token now none rows us u h = cc h
access_by_active hash_token decode is_api_token now (some token) rows us u h =
    elim (Bool-cases (is_api_token token)) [
      | inl e ↦
          api_user now us rows (authenticate hash_token now token rows) u (sym (rw e refl) ∙ h)
      | inr e ↦ jwt_user us (subject_of "access" (decode token)) u (sym (rw e refl) ∙ h)
    ]
