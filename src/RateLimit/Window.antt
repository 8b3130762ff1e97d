-- ===== src/RateLimit/Window.antt =====
-- The sliding windows of backend/app/core/rate_limit.py over a sequence of requests.
use mathlib.Core.Path.{subst}
use distributed_task_platfor.Prelude.{
  ℕ, ◌+◌, ◌≤◌, String, ◌≡◌, refl, sym, ap, ◌∙◌, Bool, true, false, ◌&&◌, List, [], ◌∷◌, ◌++◌, ◌=ₛ◌,
  =ₛ_iff, leb, length, count, count-append, length-select, length-append, arith, inl, inr,
  Bool-cases, All,
}
use distributed_task_platfor.RateLimit.{
  Hits, get_hits, put_hits, in_window, recent, LocalRateLimiter, local_allow,
}

-- Requests in the order of their arrival: the time and the key.
abbrev pub Requests : Type 0
Requests = List (ℕ × String)

abbrev pub accepted_if : Bool → ℕ → List ℕ → List ℕ
accepted_if true now ts = now ∷ ts
accepted_if false now ts = ts

-- The times at which the limiter accepts a request of the key.
unfoldable pub accepted : String → Requests → LocalRateLimiter → List ℕ
accepted key [] l = []
accepted key ((now, k) ∷ rs) l =
    let (l', b) = local_allow now k l in
    let rest = accepted key rs l' in accepted_if (b && (k =ₛ key)) now rest

=ₛ_refl : (k : String) → (k =ₛ k) ≡ true
=ₛ_refl k = (=ₛ_iff k k).1 refl

pub get-put : (k : String) (ts : List ℕ) (m : Hits) → get_hits k (put_hits k ts m) ≡ ts
get-put k ts [] = rw (=ₛ_refl k) refl
get-put k ts ((j, us) ∷ m) = elim (Bool-cases (j =ₛ k)) [
  | inl e ↦ rw (e, =ₛ_refl k) refl
  | inr e ↦ rw (e, e) (get-put k ts m)
]

=ₛ_ne : (j k i : String) → (j =ₛ k) ≡ true → (k =ₛ i) ≡ false → (j =ₛ i) ≡ false
=ₛ_ne j k i p n = rw ((=ₛ_iff j k).0 p) n

get-put_ne :
    (k i : String) (ts : List ℕ) (m : Hits)
    → (k =ₛ i) ≡ false
    → get_hits i (put_hits k ts m) ≡ get_hits i m
get-put_ne k i ts [] n = rw n refl
get-put_ne k i ts ((j, us) ∷ m) n = elim (Bool-cases (j =ₛ k)) [
  | inl e ↦ let q = =ₛ_ne j k i e n in rw (e, n, q) refl
  | inr e ↦
      rw e (elim (Bool-cases (j =ₛ i)) [ inl f ↦ rw f refl | inr f ↦ rw f (get-put_ne k i ts m n) ])
]

pub count-length : {A : Type 0} (p : A → Bool) (xs : List A) → count p xs ≤ length xs
count-length p [] = omega arith
count-length p (x ∷ xs) = ground (arith, count-length p xs)

-- What is dropped as old is old at every later time.
pub count-recent :
    (now t w : ℕ) (ts : List ℕ)
    → now ≤ t
    → count (in_window t w) (recent now w ts) ≡ count (in_window t w) ts
unfolding recent
count-recent now t w [] h = refl
count-recent now t w (x ∷ xs) h = ground (arith, count-recent now t w xs h)

pub count-added :
    (p : ℕ → Bool) (now : ℕ) (xs : List ℕ)
    → count p (xs ++ now ∷ []) ≡ count p (now ∷ []) + count p xs
count-added p now xs = omega (arith, count-append p xs (now ∷ []))

pub denied :
    (now : ℕ) (k : String) (l : LocalRateLimiter)
    → leb l.max_requests (length (recent now l.window (get_hits k l.hits))) ≡ true
    → local_allow now k l
      ≡ (record l { hits = put_hits k (recent now l.window (get_hits k l.hits)) l.hits }, false)
unfolding local_allow
denied now k l h = rw h refl

pub allowed :
    (now : ℕ) (k : String) (l : LocalRateLimiter)
    → leb l.max_requests (length (recent now l.window (get_hits k l.hits))) ≡ false
    → local_allow now k l ≡ (
      record l { hits = put_hits k (recent now l.window (get_hits k l.hits) ++ now ∷ []) l.hits },
      true,
    )
unfolding local_allow
allowed now k l h = rw h refl

-- A request of another key leaves the list.
other_key :
    (now : ℕ) (k key : String) (l : LocalRateLimiter)
    → (k =ₛ key) ≡ false
    → get_hits key (local_allow now k l).0.hits ≡ get_hits key l.hits
other_key now k key l n =
    elim (Bool-cases (leb l.max_requests (length (recent now l.window (get_hits k l.hits))))) [
      | inl e ↦
          ap (λ r. get_hits key r.0.hits) (denied now k l e)
          ∙ get-put_ne k key (recent now l.window (get_hits k l.hits)) l.hits n
      | inr e ↦
          ap (λ r. get_hits key r.0.hits) (allowed now k l e)
          ∙ get-put_ne k key (recent now l.window (get_hits k l.hits) ++ now ∷ []) l.hits n
    ]

-- The times of one key's list in the window, after a decision and the acceptance that comes with it.
same_key :
    (k : String) (now t : ℕ) (l : LocalRateLimiter) (rest : List ℕ)
    → now ≤ t
    → count (in_window t l.window) rest
        + count (in_window t l.window) (get_hits k (local_allow now k l).0.hits)
      ≡ count (in_window t l.window) (accepted_if ((local_allow now k l).1) now rest)
        + count (in_window t l.window) (get_hits k l.hits)
same_key k now t l rest h =
    let ts = recent now l.window (get_hits k l.hits) in
    let same = count-recent now t l.window (get_hits k l.hits) h in
    let added = count-added (in_window t l.window) now ts in
    elim (Bool-cases (leb l.max_requests (length ts))) [
      | inl e ↦ rw (denied now k l e, get-put k ts l.hits) (omega (arith, same))
      | inr e ↦
          rw (allowed now k l e, get-put k (ts ++ now ∷ []) l.hits) (omega (arith, same, added))
    ]

and_true : (b : Bool) → (b && true) ≡ b
and_true true = refl
and_true false = refl

pub and_false : (b : Bool) → (b && false) ≡ false
and_false true = refl
and_false false = refl

pub local_allow-count :
    (key k : String) (now t : ℕ) (l : LocalRateLimiter) (rest : List ℕ)
    → now ≤ t
    → count (in_window t l.window) rest
        + count (in_window t l.window) (get_hits key (local_allow now k l).0.hits)
      ≡ count (in_window t l.window) (accepted_if ((local_allow now k l).1 && (k =ₛ key)) now rest)
        + count (in_window t l.window) (get_hits key l.hits)
local_allow-count key k now t l rest h = elim (Bool-cases (k =ₛ key)) [
  | inl e ↦
      rw (e, and_true (local_allow now k l).1, sym ((=ₛ_iff k key).0 e)) (same_key k now t l rest h)
  | inr n ↦ rw (n, and_false (local_allow now k l).1, other_key now k key l n) refl
]

length-recent : (now w : ℕ) (ts : List ℕ) → length (recent now w ts) ≤ length ts
unfolding recent
length-recent now w ts =
    omega (arith, length-select (in_window now w) ts, count-length (in_window now w) ts)

-- The list of every key stays within the limit.
same_key-length :
    (k : String) (now : ℕ) (l : LocalRateLimiter)
    → length (get_hits k l.hits) ≤ l.max_requests
    → length (get_hits k (local_allow now k l).0.hits) ≤ l.max_requests
same_key-length k now l h =
    let ts = recent now l.window (get_hits k l.hits) in
    let short = length-recent now l.window (get_hits k l.hits) in
    elim (Bool-cases (leb l.max_requests (length ts))) [
      | inl e ↦ rw (denied now k l e, get-put k ts l.hits) (omega (arith, short, h))
      | inr e ↦
          let n : length (ts ++ now ∷ []) ≡ length ts + 1 = length-append ts (now ∷ []) in
          let less : length ts + 1 ≤ l.max_requests = ground (arith, e) in
          rw (allowed now k l e, get-put k (ts ++ now ∷ []) l.hits, n) less
    ]

pub local_allow-length :
    (key k : String) (now : ℕ) (l : LocalRateLimiter)
    → length (get_hits key l.hits) ≤ l.max_requests
    → length (get_hits key (local_allow now k l).0.hits) ≤ l.max_requests
local_allow-length key k now l h = elim (Bool-cases (k =ₛ key)) [
  | inl e ↦ let p = (=ₛ_iff k key).0 e in rw (sym p) (same_key-length k now l (rw p h))
  | inr n ↦ rw (other_key now k key l n) h
]

-- A call of `allow` changes neither setting of the limiter.
pub local_allow-settings :
    (k : String) (now : ℕ) (l : LocalRateLimiter)
    → ((local_allow now k l).0.max_requests ≡ l.max_requests)
      × ((local_allow now k l).0.window ≡ l.window)
local_allow-settings k now l =
    elim (Bool-cases (leb l.max_requests (length (recent now l.window (get_hits k l.hits))))) [
      | inl e ↦ rw (denied now k l e) (refl, refl)
      | inr e ↦ rw (allowed now k l e) (refl, refl)
    ]

-- Whatever requests arrive, of any keys and in any order of their times, the local limiter accepts at
-- most `max_requests` of one key in the window that ends at a time which no request is after, those
-- that its list already holds included.
pub accepted_bounded :
    (key : String) (t : ℕ) (rs : Requests) (l : LocalRateLimiter)
    → All (λ r. r.0 ≤ t) rs
    → length (get_hits key l.hits) ≤ l.max_requests
    → count (in_window t l.window) (accepted key rs l)
        + count (in_window t l.window) (get_hits key l.hits)
      ≤ l.max_requests
unfolding accepted
accepted_bounded key t [] l a h =
    omega (arith, count-length (in_window t l.window) (get_hits key l.hits), h)
accepted_bounded key t ((now, k) ∷ rs) l a h =
    let l' = (local_allow now k l).0 in
    let (m, w) = local_allow-settings k now l in
    let short : length (get_hits key l'.hits) ≤ l'.max_requests =
      rw m (local_allow-length key k now l h) in
    let rest = accepted_bounded key t rs l' a.1 short in
    let step = local_allow-count key k now t l (accepted key rs l') a.0 in
    (let bound : count (in_window t l.window) (accepted key rs l')
            + count (in_window t l.window) (get_hits key l'.hits)
          ≤ l'.max_requests =
        subst
          (λ x.
            count (in_window t x) (accepted key rs l')
              + count (in_window t x) (get_hits key l'.hits)
            ≤ l'.max_requests)
          w rest in
      omega (arith, bound, m, step))
