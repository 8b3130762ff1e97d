-- ===== src/Tasks/Retry.antt =====
-- The delay before a retry, `compute_retry_delay_seconds` of backend/app/services/tasks.py.
use native.Mathlib.Nat.{
  mul-le-mul_left, mul-le-mul, pow-le-pow_right, pow-zero, pow-suc, mul-pos, div-mul-le_self,
  le-div_iff_mul-le, div-le_of_le-mul, mul-div-mul_right, mul_assoc, mul_comm, le_trans,
  lt_of_le_of_lt, mul-lt-mul_of_pos_right,
}
use distributed_task_platfor.Prelude.{
  ℕ, zero, suc, ◌+◌, ◌-◌, ◌*◌, ◌/◌, ◌^◌, ◌≤◌, ◌<◌, min, ◌≡◌, refl, sym, ap, ◌∙◌, Bool, true, false,
  none, some, arith, ◌==◌, inl, inr, Bool-cases, if◌then◌else◌,
}
use distributed_task_platfor.Model.Settings.{Settings}
use distributed_task_platfor.Tasks.{compute_retry_delay, overflows}

div_mono : {y z : ℕ} (k : ℕ) → 0 < k → y ≤ z → y / k ≤ z / k
div_mono {y} k p h = (le-div_iff_mul-le p).1 (le_trans (div-mul-le_self y k) h)

pow-pos : (u n : ℕ) → 0 < u → 0 < u ^ n
pow-pos u n p =
    let h : u ^ 0 ≤ u ^ n = pow-le-pow_right p (omega arith) in omega (arith, h, pow-zero u)

-- The exact delay, before the maximum.
abbrev scaled : ℕ → ℕ → ℕ → ℕ → ℕ
scaled b f u n = b * f ^ n / u ^ n

scaled_grows : (b f u n : ℕ) → 0 < u → u ≤ f → scaled b f u n ≤ scaled b f u (suc n)
scaled_grows b f u n p h =
    let same : b * f ^ n * u / (u ^ n * u) ≡ b * f ^ n / u ^ n =
      mul-div-mul_right (b * f ^ n) (u ^ n) p in
    let more : b * f ^ n * u ≤ b * (f ^ n * f) =
      (rw (sym (mul_assoc b (f ^ n) f)) (mul-le-mul_left (b * f ^ n) h)) in
    rw (pow-suc f n, pow-suc u n, sym same) (div_mono (u ^ n * u) (mul-pos (pow-pos u n p) p) more)

-- A power that is in the range of a float comes after one that is.
overflow_later :
    (s : Settings) (n : ℕ)
    → s.retry_backoff_unit ≤ s.retry_backoff_factor
    → overflows s (suc n) ≡ false
    → overflows s n ≡ false
unfolding overflows
overflow_later s n h e = elim (Bool-cases (overflows s n)) [
  | inr f ↦ f
  | inl f ↦
      let u = s.retry_backoff_unit in
      let c = s.retry_backoff_factor in
      let x : 2 ^ 1024 * u ^ n ≤ c ^ n = ground (arith, f) in
      let y : 2 ^ 1024 * u ^ n * u ≤ c ^ n * c = mul-le-mul x h in
      let z : 2 ^ 1024 * u ^ suc n ≤ c ^ suc n =
        rw (pow-suc u n, pow-suc c n, sym (mul_assoc (2 ^ 1024) (u ^ n) u)) y in
      absurd (ground (arith, e, z))
]

-- The delay of one attempt less.
abbrev Shorter : Settings → ℕ → ℕ → Type 0
Shorter s n e = (d : ℕ) × (compute_retry_delay s n ≡ some d) × (d ≤ e)

some_of : (b : Bool) (x e : ℕ) → (if b then none else some x) ≡ some e → (b ≡ false) × (x ≡ e)
some_of true x e h = cc h
some_of false x e h = (refl, cc h)

first : (b f u : ℕ) → 0 < u → u ≤ f → b * u / f ≤ scaled b f u 0
first b f u p h =
    let less : b * u ≤ f * b = rw (mul_comm f b) (mul-le-mul_left b h) in
    let q : b * u / f ≤ b = div-le_of_le-mul f less in
    let r : (b * f ^ 0) * 1 / 1 ≡ b * f ^ 0 = omega arith in
    rw (pow-zero f, pow-zero u) (omega (arith, q))

one_less :
    (s : Settings) (n e : ℕ)
    → 0 < s.retry_backoff_unit
    → s.retry_backoff_unit ≤ s.retry_backoff_factor
    → compute_retry_delay s (suc n) ≡ some e
    → Shorter s n e
unfolding compute_retry_delay
one_less s zero e p h k =
    let (o, q) = some_of (overflows s 0) _ e k in
    let c : (s.retry_backoff_factor == 0) ≡ false = ground (arith, p, h) in
    let g = first s.retry_base s.retry_backoff_factor s.retry_backoff_unit p h in
    (
      min (s.retry_base * s.retry_backoff_unit / s.retry_backoff_factor) s.retry_max_delay,
      rw c refl,
      rw (sym q) (omega (arith, g)),
    )
one_less s (suc n) e p h k =
    let (o, q) = some_of (overflows s (suc n)) _ e k in
    let c = overflow_later s n h o in
    let g = scaled_grows s.retry_base s.retry_backoff_factor s.retry_backoff_unit n p h in
    (
      min (scaled s.retry_base s.retry_backoff_factor s.retry_backoff_unit n) s.retry_max_delay,
      rw c refl,
      rw (sym q) (omega (arith, g)),
    )

at_most : (s : Settings) (n e : ℕ) → compute_retry_delay s n ≡ some e → e ≤ s.retry_max_delay
unfolding compute_retry_delay
at_most s zero e k =
    let q = (some_of (s.retry_backoff_factor == 0) _ e k).1 in rw (sym q) (omega arith)
at_most s (suc n) e k = let q = (some_of (overflows s n) _ e k).1 in rw (sym q) (omega arith)

fewer :
    (s : Settings) (k m n e : ℕ)
    → 0 < s.retry_backoff_unit
    → s.retry_backoff_unit ≤ s.retry_backoff_factor
    → k + m ≡ n
    → compute_retry_delay s n ≡ some e
    → Shorter s m e
fewer s zero m n e p h i q =
    let j : m ≡ n = omega (arith, i) in (e, ap (compute_retry_delay s) j ∙ q, omega arith)
fewer s (suc k) m n e p h i q =
    let j : suc (k + m) ≡ n = omega (arith, i) in
    let (d, r, l) = one_less s (k + m) e p h (ap (compute_retry_delay s) j ∙ q) in
    let (c, w, v) = fewer s k m (k + m) d p h refl r in (c, w, omega (arith, l, v))

two_pow_add : (a b : ℕ) → 2 ^ (a + b) ≡ 2 ^ a * 2 ^ b
two_pow_add a zero = let e : a + 0 ≡ a = omega arith in rw (e, pow-zero 2) (omega arith)
two_pow_add a (suc b) =
    let e : a + suc b ≡ suc (a + b) = omega arith in
    rw (e, pow-suc 2 (a + b), pow-suc 2 b, two_pow_add a b) (mul_assoc (2 ^ a) (2 ^ b) 2)

-- A product of four factors in another order.
swapped : (a b c d : ℕ) → (a * b) * (c * d) ≡ (a * c) * (b * d)
swapped a b c d = grind arith

pow_bound : (f u k n : ℕ) → f ≤ 2 ^ k * u → f ^ n ≤ 2 ^ (k * n) * u ^ n
pow_bound f u k zero h =
    let e : k * 0 ≡ 0 = omega arith in rw (e, pow-zero f, pow-zero u, pow-zero 2) (omega arith)
pow_bound f u k (suc n) h =
    let e : k * suc n ≡ k * n + k = grind arith in
    rw
      (
        e,
        two_pow_add (k * n) k,
        pow-suc f n,
        pow-suc u n,
        sym (swapped (2 ^ (k * n)) (u ^ n) (2 ^ k) u),
      )
      (mul-le-mul (pow_bound f u k n h) h)

two_pow-lt : (a b : ℕ) → a < b → 2 ^ a < 2 ^ b
two_pow-lt a b h =
    let l : 2 ^ suc a ≤ 2 ^ b = pow-le-pow_right (omega arith) h in
    let p : 0 < 2 ^ a = pow-pos 2 a (omega arith) in
    let m : 2 ^ a * 2 ≤ 2 ^ b = rw (sym (pow-suc 2 a)) l in omega (arith, p, m)

-- The power is in the range of a float.
in_range :
    (s : Settings) (k n : ℕ)
    → 0 < s.retry_backoff_unit
    → s.retry_backoff_factor ≤ 2 ^ k * s.retry_backoff_unit
    → k * n < 1024
    → overflows s n ≡ false
unfolding overflows
in_range s k n p h l =
    let u = s.retry_backoff_unit in
    let x = pow_bound s.retry_backoff_factor u k n h in
    let y : 2 ^ (k * n) < 2 ^ 1024 = two_pow-lt (k * n) 1024 l in
    let z : 2 ^ (k * n) * u ^ n < 2 ^ 1024 * u ^ n = mul-lt-mul_of_pos_right y (pow-pos u n p) in
    let w : s.retry_backoff_factor ^ n < 2 ^ 1024 * u ^ n = lt_of_le_of_lt x z in ground (arith, w)

lower : (k n : ℕ) → k * suc n ≤ 1024 → k * n < 1024
lower zero n h = omega arith
lower (suc k) n h = let e : suc k * suc n ≡ suc k * n + suc k = grind arith in omega (arith, h, e)

computed :
    (s : Settings) (k n : ℕ)
    → 0 < s.retry_backoff_unit
    → s.retry_backoff_unit ≤ s.retry_backoff_factor
    → s.retry_backoff_factor ≤ 2 ^ k * s.retry_backoff_unit
    → k * n ≤ 1024
    → (e : ℕ) × (compute_retry_delay s n ≡ some e)
unfolding compute_retry_delay
computed s k zero p h i l =
    let c : (s.retry_backoff_factor == 0) ≡ false = ground (arith, p, h) in
    (
      min (s.retry_base * s.retry_backoff_unit / s.retry_backoff_factor) s.retry_max_delay,
      rw c refl,
    )
computed s k (suc n) p h i l =
    let c = in_range s k n p i (lower k n l) in
    (
      min (scaled s.retry_base s.retry_backoff_factor s.retry_backoff_unit n) s.retry_max_delay,
      rw c refl,
    )

-- With a backoff factor from 1 to 2 ^ k, such as 3 / 2 or the default 2 with a k of 1: the delay before
-- a retry is computed without an exception after up to 1024 / k attempts, it is at most
-- `retry_max_delay_seconds`, and after fewer attempts it is computed too and is not longer.
pub retry_delay_grows :
    (s : Settings) (k m n : ℕ)
    → 0 < s.retry_backoff_unit
    → s.retry_backoff_unit ≤ s.retry_backoff_factor
    → s.retry_backoff_factor ≤ 2 ^ k * s.retry_backoff_unit
    → k * n ≤ 1024
    → m ≤ n
    → (d : ℕ) × (e : ℕ) × (compute_retry_delay s m ≡ some d)
      × (compute_retry_delay s n ≡ some e)
      × (d ≤ e)
      × (e ≤ s.retry_max_delay)
retry_delay_grows s k m n p h i b l =
    let (e, q) = computed s k n p h i b in
    let (d, r, w) = fewer s (n - m) m n e p h (omega (arith, l)) q in
    (d, e, r, q, w, at_most s n e q)
