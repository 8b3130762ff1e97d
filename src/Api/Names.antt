-- ===== src/Api/Names.antt =====
-- The table of users in backend/app/api/routes/auth.py: names are unique and ids lie below the
-- sequence, whatever a route changes of a user.
use mathlib.Core.Path.{subst}
use distributed_task_platfor.Prelude.{
  ℕ, suc, ◌<◌, String, ◌≡◌, refl, sym, ap, ◌∙◌, Bool, true, false, ◌||◌, List, [], ◌∷◌, ◌++◌, ◌==◌,
  ◌=ₛ◌, =ₛ_iff, All, All-append, All-weaken, arith, inl, inr, Bool-cases, if◌then◌else◌,
}
use distributed_task_platfor.Auth.{User}
use distributed_task_platfor.Api.Accounts.{username_taken, update_user}

abbrev pub DistinctNames : List User → Type 0
DistinctNames [] = Unit
DistinctNames (u ∷ us) = (username_taken u.username us ≡ false) × DistinctNames us

pub record HasNames (next : ℕ) (us : List User) : Type 0 where
  pub distinct : DistinctNames us
  pub below : All (λ (u : User). u.id < next) us

text_differs : (a b : String) → (a =ₛ b) ≡ false → (b =ₛ a) ≡ false
text_differs a b h = elim (Bool-cases (b =ₛ a)) [
  | inl e ↦
      let q : (a =ₛ b) ≡ true = (=ₛ_iff a b).1 (sym ((=ₛ_iff b a).0 e)) in
      let r : true ≡ false = sym q ∙ h in cc r
  | inr e ↦ e
]

either_false : (a b : Bool) → (a || b) ≡ false → (a ≡ false) × (b ≡ false)
either_false true b h = cc h
either_false false b h = (refl, h)

taken-append :
    (name : String) (us : List User) (u : User)
    → username_taken name us ≡ false
    → (u.username =ₛ name) ≡ false
    → username_taken name (us ++ u ∷ []) ≡ false
taken-append name [] u h k = rw k refl
taken-append name (v ∷ us) u h k =
    let (a, b) = either_false (v.username =ₛ name) (username_taken name us) h in
    rw (a, taken-append name us u b k) refl

names-append :
    (us : List User) (u : User)
    → DistinctNames us
    → username_taken u.username us ≡ false
    → DistinctNames (us ++ u ∷ [])
names-append [] u d h = (refl, tt)
names-append (v ∷ us) u d h =
    let (a, b) = either_false (v.username =ₛ u.username) (username_taken u.username us) h in
    (
      taken-append v.username us u d.0 (text_differs v.username u.username a),
      names-append us u d.1 b,
    )

pub HasNames-register :
    (next : ℕ) (us : List User) (u : User)
    → HasNames next us
    → u.id ≡ next
    → username_taken u.username us ≡ false
    → HasNames (suc next) (us ++ u ∷ [])
HasNames-register next us u h e t = record {
  distinct = names-append us u h.distinct t;
  below =
      All-append (λ (v : User). v.id < suc next) us (u ∷ [])
        (All-weaken (λ (v : User). v.id < next) (λ (v : User). v.id < suc next) us
          (λ v k. omega (arith, k)) h.below)
        (omega (arith, e), tt);
}

-- What `update_user` gets keeps the name and the id.
pub record KeepsName (f : User → User) : Type 0 where
  pub username : (u : User) → (f u).username ≡ u.username
  pub id : (u : User) → (f u).id ≡ u.id

if-name :
    (f : User → User) (k : KeepsName f) (b : Bool) (u : User)
    → (if b then f u else u).username ≡ u.username
if-name f k true u = k.username u
if-name f k false u = refl

if-id : (f : User → User) (k : KeepsName f) (b : Bool) (u : User) → (if b then f u else u).id ≡ u.id
if-id f k true u = k.id u
if-id f k false u = refl

taken-update :
    (f : User → User) (k : KeepsName f) (i : ℕ) (name : String) (us : List User)
    → username_taken name (update_user i f us) ≡ username_taken name us
taken-update f k i name [] = refl
taken-update f k i name (u ∷ us) = rw (if-name f k (u.id == i) u, taken-update f k i name us) refl

names-update :
    (f : User → User) (k : KeepsName f) (i : ℕ) (us : List User)
    → DistinctNames us
    → DistinctNames (update_user i f us)
names-update f k i [] d = tt
names-update f k i (u ∷ us) d = (
  ap (λ name. username_taken name (update_user i f us)) (if-name f k (u.id == i) u)
      ∙ taken-update f k i u.username us
      ∙ d.0,
  names-update f k i us d.1,
)

below-update :
    (f : User → User) (k : KeepsName f) (i next : ℕ) (us : List User)
    → All (λ (u : User). u.id < next) us
    → All (λ (u : User). u.id < next) (update_user i f us)
below-update f k i next [] h = tt
below-update f k i next (u ∷ us) h =
    (subst (λ j. j < next) (sym (if-id f k (u.id == i) u)) h.0, below-update f k i next us h.1)

pub HasNames-update :
    (f : User → User) (i next : ℕ) (us : List User)
    → KeepsName f
    → HasNames next us
    → HasNames next (update_user i f us)
HasNames-update f i next us k h = record {
  distinct = names-update f k i us h.distinct;
  below = below-update f k i next us h.below;
}
