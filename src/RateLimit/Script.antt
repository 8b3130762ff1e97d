-- ===== src/RateLimit/Script.antt =====
-- The script of backend/app/core/rate_limit.py that Redis runs, against the local limiter.
use mathlib.Core.Path.{subst}
use distributed_task_platfor.Prelude.{
  ℕ, ◌≤◌, String, ◌≡◌, refl, sym, ◌∙◌, Bool, true, false, List, [], ◌∷◌, ◌++◌, leb, length, count,
  length-select, arith, inl, inr, Bool-cases,
}
use distributed_task_platfor.RateLimit.{
  get_hits, in_window, recent, LocalRateLimiter, local_allow, script,
}
use distributed_task_platfor.RateLimit.Window.{get-put, count-recent, count-added, denied, allowed}

length-now : (now w : ℕ) (ts : List ℕ) → length (recent now w ts) ≡ count (in_window now w) ts
unfolding recent
length-now now w ts = length-select (in_window now w) ts

script-denied :
    (now w max : ℕ) (scores : List ℕ)
    → leb max (length (recent now w scores)) ≡ true
    → script now w max scores ≡ (recent now w scores, false)
unfolding script
script-denied now w max scores h = rw h refl

script-allowed :
    (now w max : ℕ) (scores : List ℕ)
    → leb max (length (recent now w scores)) ≡ false
    → script now w max scores ≡ (now ∷ recent now w scores, true)
unfolding script
script-allowed now w max scores h = rw h refl

-- The set counts as many times in every window that ends at `now` or later as the key's list.
abbrev pub Agrees : ℕ → String → List ℕ → LocalRateLimiter → Type 0
Agrees now key scores l =
    (t : ℕ)
    → now ≤ t
    → count (in_window t l.window) scores ≡ count (in_window t l.window) (get_hits key l.hits)

agree-by :
    (now : ℕ) (key : String) {a a' : List ℕ × Bool} {b b' : LocalRateLimiter × Bool}
    → a ≡ a'
    → b ≡ b'
    → (a'.1 ≡ b'.1) × Agrees now key a'.0 b'.0
    → (a.1 ≡ b.1) × Agrees now key a.0 b.0
agree-by now key {a} {a'} {b} {b'} p q h =
    subst (λ x. (x.1 ≡ b.1) × Agrees now key x.0 b.0) (sym p)
      (subst (λ y. (a'.1 ≡ y.1) × Agrees now key a'.0 y.0) (sym q) h)

-- The script that Redis runs takes the decision of the local limiter, with the same limit and window,
-- whenever the set of the key's times agrees with the list in every window that ends at the call or
-- later, and after the call they agree in each such window again.
pub script_refines :
    (now : ℕ) (key : String) (scores : List ℕ) (l : LocalRateLimiter)
    → Agrees now key scores l
    → ((script now l.window l.max_requests scores).1 ≡ (local_allow now key l).1)
      × Agrees now key (script now l.window l.max_requests scores).0 (local_allow now key l).0
script_refines now key scores l h =
    let ts = recent now l.window (get_hits key l.hits) in
    let ss = recent now l.window scores in
    let old : (t : ℕ)
        → now ≤ t
        → count (in_window t l.window) ss ≡ count (in_window t l.window) ts =
      λ t n.
        count-recent now t l.window scores n
        ∙ h t n
        ∙ sym (count-recent now t l.window (get_hits key l.hits) n) in
    let same : length ss ≡ length ts =
      length-now now l.window scores
      ∙ h now (omega arith)
      ∙ sym (length-now now l.window (get_hits key l.hits)) in
    elim (Bool-cases (leb l.max_requests (length ts))) [
      | inl e ↦
          agree-by now key (script-denied now l.window l.max_requests scores (rw same e))
            (denied now key l e) (refl, λ t n. rw (get-put key ts l.hits) (old t n))
      | inr e ↦
          agree-by now key (script-allowed now l.window l.max_requests scores (rw same e))
            (allowed now key l e)
            (
              refl,
              λ t n.
                  rw (get-put key (ts ++ now ∷ []) l.hits)
                    (omega (arith, old t n, count-added (in_window t l.window) now ts)),
            )
    ]
