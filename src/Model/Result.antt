-- ===== src/Model/Result.antt =====
-- The exceptions of the services, and values that may be one. An exception ends the transaction:
-- the session is closed with no commit, so no state stands beside it.

pub data Error : Type 0 where
  invalid_transition task_conflict integrity batch_limit recursion not_found arithmetic type_error :
      Error

pub data Result {ℓ} (A : Type ℓ) : Type ℓ where
  ok : A → Result A
  err : Error → Result A

infixl 5 ◌>>=◌
abbrev pub ◌>>=◌ {ℓ κ} : {A : Type ℓ} {B : Type κ} → Result A → (A → Result B) → Result B
ok a >>= f = f a
err e >>= f = err e

-- `P` holds of what an operation returns, and `E` where it raises.
abbrev pub Outcome {ℓ} : {A : Type ℓ} → (A → Type 0) → Type 0 → Result A → Type 0
Outcome P E (ok a) = P a
Outcome P E (err e) = E

-- What an operation ensures when it returns.
abbrev pub Ensures {ℓ} : {A : Type ℓ} → (A → Type 0) → Result A → Type 0
Ensures P r = Outcome P Unit r

-- It returns, and ensures that.
abbrev pub Returns {ℓ} : {A : Type ℓ} → (A → Type 0) → Result A → Type 0
Returns P r = Outcome P ⊥ r

pub Outcome-bind {ℓ} :
    {A B : Type ℓ} (P : A → Type 0) (Q : B → Type 0) (E : Type 0) (m : Result A) (f : A → Result B)
    → Outcome P E m
    → ((a : A) → P a → Outcome Q E (f a))
    → Outcome Q E (m >>= f)
Outcome-bind P Q E (ok a) f h k = k a h
Outcome-bind P Q E (err e) f h k = h

pub Outcome-weaken {ℓ} :
    {A : Type ℓ} (P Q : A → Type 0) (E : Type 0) (r : Result A)
    → ((a : A) → P a → Q a)
    → Outcome P E r
    → Outcome Q E r
Outcome-weaken P Q E (ok a) k h = k a h
Outcome-weaken P Q E (err e) k h = h
