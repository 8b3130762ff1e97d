-- ===== src/Auth/Replaced.antt =====
-- The rows of refresh tokens after one is revoked and another is stored, backend/app/services/auth.py.
use distributed_task_platfor.Prelude.{
  ℕ, String, ◌≡◌, refl, sym, ap, ◌∙◌, Option, none, some, List, [], ◌∷◌, ◌++◌, ◌=ₛ◌, =ₛ_iff,
  is_some, leb, inl, inr, Bool-cases,
}
use distributed_task_platfor.Auth.{RefreshToken, find_refresh, usable, revoke_refresh}

pub revoked-append :
    (now at : ℕ) (jti : String) (ts : List RefreshToken) (t new : RefreshToken)
    → find_refresh jti ts ≡ some t
    → usable at (find_refresh jti (revoke_refresh now jti ts ++ new ∷ [])) ≡ none
unfolding revoke_refresh
revoked-append now at jti [] t new h = cc h
revoked-append now at jti (r ∷ ts) t new h = elim (Bool-cases (r.jti =ₛ jti)) [
  | inl e ↦ rw e (rw e refl)
  | inr e ↦ rw e (rw e (revoked-append now at jti ts t new (sym (rw e refl) ∙ h)))
]

pub new-append :
    (now : ℕ) (old jti : String) (ts : List RefreshToken) (new : RefreshToken)
    → find_refresh jti ts ≡ none
    → new.jti ≡ jti
    → find_refresh jti (revoke_refresh now old ts ++ new ∷ []) ≡ some new
unfolding revoke_refresh
new-append now old jti [] new h e = rw ((=ₛ_iff new.jti jti).1 e) refl
new-append now old jti (r ∷ ts) new h e = elim (Bool-cases (r.jti =ₛ jti)) [
  | inl f ↦ let q : some r ≡ none = sym (rw f refl) ∙ h in cc q
  | inr f ↦
      let rest = new-append now old jti ts new (sym (rw f refl) ∙ h) e in
      elim (Bool-cases (r.jti =ₛ old)) [ inl g ↦ rw g (rw f rest) | inr g ↦ rw g (rw f rest) ]
]

pub find_refresh-jti :
    (jti : String) (ts : List RefreshToken) (t : RefreshToken)
    → find_refresh jti ts ≡ some t
    → t.jti ≡ jti
find_refresh-jti jti [] t h = cc h
find_refresh-jti jti (r ∷ ts) t h = elim (Bool-cases (r.jti =ₛ jti)) [
  | inl e ↦
      let q : some r ≡ some t = sym (rw e refl) ∙ h in
      let p : r ≡ t = cc q in ap (λ (w : RefreshToken). w.jti) (sym p) ∙ (=ₛ_iff r.jti jti).0 e
  | inr e ↦ find_refresh-jti jti ts t (sym (rw e refl) ∙ h)
]

pub usable-row :
    (at : ℕ) (o : Option RefreshToken) (t : RefreshToken) → usable at o ≡ some t → o ≡ some t
usable-row at none t h = h
usable-row at (some r) t h = elim (Bool-cases (is_some r.revoked_at)) [
  | inl e ↦ let q : none ≡ some t = sym (rw e refl) ∙ h in cc q
  | inr e ↦ elim (Bool-cases (leb r.expires_at at)) [
    | inl f ↦ let q : none ≡ some t = sym (rw (e, f) refl) ∙ h in cc q
    | inr f ↦ sym (rw (e, f) refl) ∙ h
  ]
]
