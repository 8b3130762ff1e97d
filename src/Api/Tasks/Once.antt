-- ===== src/Api/Tasks/Once.antt =====
-- The idempotency key of `create_task` in backend/app/api/routes/tasks.py.
use mathlib.Core.Path.{subst}
use distributed_task_platfor.Prelude.{
  ℕ, zero, suc, ◌<◌, String, ◌≡◌, refl, sym, ap, ◌∙◌, true, false, Option, none, some, List, [],
  ◌∷◌, ◌++◌, ◌==◌, ◌=ₛ◌, =ₛ_iff, All, inl, inr, Bool-cases, arith, if◌then◌else◌,
}
use distributed_task_platfor.Model.Rows.{Task, empty}
use distributed_task_platfor.Model.Status.{
  Status, EventType, created, queued, scheduled, task_queued, task_scheduled,
}
use distributed_task_platfor.Model.Settings.{Settings}
use distributed_task_platfor.Model.Db.{Db, replace, put_task, add_outbox}
use distributed_task_platfor.Model.Query.{column}
use distributed_task_platfor.Model.Result.{Result, ok, err, Ensures, Outcome-weaken}
use distributed_task_platfor.Tasks.Naive.{comparable-Ensures}
use distributed_task_platfor.Tasks.{
  is_naive, TaskSpec, new_task, same_key, has_key, is_future, insert_task, place_task, enqueue,
  create_task,
}
use distributed_task_platfor.StatusChange.{assign_status, record_event, change}
use distributed_task_platfor.StatusChange.Frame.{change-frame}
use distributed_task_platfor.Tasks.Blocked.{Leaves, place-Leaves}
use distributed_task_platfor.Tasks.Ready.{scheduled-run, queued-run}
use distributed_task_platfor.StatusChange.{set_status}
use distributed_task_platfor.Auth.{User}
use distributed_task_platfor.Invariant.{Holds}
use distributed_task_platfor.Invariant.Reach.{Reach, Reach-Holds, empty_db}
use distributed_task_platfor.Audit.{add_audit}
use distributed_task_platfor.Api.{
  Platform, Site, Request, External, Body, task_info, answer, commit, status_code,
}
use distributed_task_platfor.Api.Schemas.{valid_task, TaskCreate, spec_of}
use distributed_task_platfor.Api.Tasks.Creating.{Unchanged, creating-Handled, creating-Unchanged}
use distributed_task_platfor.Api.Tasks.{
  create_task_route, existing_task, create_or_find, created_reply, create_task_as,
}
use distributed_task_platfor.Tasks.Listing.{find_key, get_by_idempotency_key}

same-column : (key : String) (o : Option String) → column (λ k. k =ₛ key) o ≡ same_key key o
same-column key none = refl
same-column key (some k) = refl

has-column : (key : String) (o : Option String) → o ≡ some key → column (λ k. k =ₛ key) o ≡ true
has-column key o h = ap (column (λ k. k =ₛ key)) h ∙ (=ₛ_iff key key).1 refl

-- A row that is not the first with the key, and the rows after it.
not_first :
    (key : String) (t : Task) (ts : List Task)
    → has_key (some key) (t ∷ ts) ≡ false
    → (column (λ k. k =ₛ key) t.idempotency_key ≡ false) × (has_key (some key) ts ≡ false)
not_first key t ts h = elim (Bool-cases (same_key key t.idempotency_key)) [
  | inl e ↦ let q : true ≡ false = sym (rw e refl) ∙ h in cc q
  | inr e ↦ (same-column key t.idempotency_key ∙ e, sym (rw e refl) ∙ h)
]

-- The row that has the key, among rows that do not have it.
key-append :
    (key : String) (ts : List Task) (t : Task)
    → has_key (some key) ts ≡ false
    → t.idempotency_key ≡ some key
    → find_key key (ts ++ t ∷ []) ≡ some t
key-append key [] t h k = ap (λ b. if b then some t else none) (has-column key t.idempotency_key k)
key-append key (u ∷ ts) t h k =
    let (a, b) = not_first key u ts h in
    ap (λ c. if c then some u else find_key key (ts ++ t ∷ [])) a ∙ key-append key ts t b k

key-replace :
    (key : String) (n : ℕ) (ts : List Task) (t new : Task)
    → has_key (some key) ts ≡ false
    → All (λ (u : Task). u.id < n) ts
    → t.id ≡ n
    → new.id ≡ n
    → new.idempotency_key ≡ some key
    → find_key key (replace new (ts ++ t ∷ [])) ≡ some new
key-replace key n [] t new h b i j k =
    let e : (t.id == new.id) ≡ true = ground (arith, i, j) in
    ap (λ c. find_key key ((if c then new else t) ∷ [])) e ∙ key-append key [] new refl k
key-replace key n (u ∷ ts) t new h b i j k =
    let (a, c) = not_first key u ts h in
    let e : (u.id == new.id) ≡ false = ground (arith, b.0, j) in
    ap (λ d. find_key key ((if d then new else u) ∷ replace new (ts ++ t ∷ []))) e
    ∙ ap (λ d. if d then some u else find_key key (replace new (ts ++ t ∷ []))) a
    ∙ key-replace key n ts t new c b.1 i j k

-- The row of the key after the creation.
abbrev KeyIs : String → ℕ → Db → Type 0
KeyIs key n db = (t : Task) × (find_key key db.tasks ≡ some t) × (t.id ≡ n)

module _ (s : Settings) where
  change-KeyIs :
      (now n : ℕ) (key : String) (ts : List Task) (t : Task) (new : Status) (e : EventType) (a : Db)
      → a.tasks ≡ (ts ++ t ∷ [])
      → has_key (some key) ts ≡ false
      → All (λ (u : Task). u.id < n) ts
      → t.id ≡ n
      → t.idempotency_key ≡ some key
      → KeyIs key n (change now t new e empty a)
  unfolding put_task record_event assign_status
  change-KeyIs now n key ts t new e a q h b i k = (
    assign_status now t new,
    ap (find_key key) ((change-frame now t new e empty a).tasks)
        ∙ ap (λ us. find_key key (replace (assign_status now t new) us)) q
        ∙ key-replace key n ts t (assign_status now t new) h b i i k,
    i,
  )

  module _ (now n : ℕ) (key : String) (ts : List Task) (t : Task) (a : Db)
      (q : a.tasks ≡ (ts ++ t ∷ [])) (h : has_key (some key) ts ≡ false)
      (b : All (λ (u : Task). u.id < n) ts) (i : t.id ≡ n) (k : t.idempotency_key ≡ some key)
      (c : t.status ≡ created) where
    place-KeyIs : (depth : ℕ) (ps : List ℕ) → Ensures (KeyIs key n) (place_task s depth now t ps a)
    place-KeyIs depth (p ∷ ps) =
        Outcome-weaken (Leaves a.tasks a) (KeyIs key n) Unit (place_task s depth now t (p ∷ ps) a)
          (λ db l. (t, ap (find_key key) (l.0 ∙ q) ∙ key-append key ts t h k, i))
          (place-Leaves s depth now p t ps a)
    place-KeyIs zero [] = elim (Bool-cases (is_future now t.scheduled_at)) [
      | inl e ↦ unfold set_status place_task in rw e tt
      | inr e ↦ unfold set_status place_task enqueue in rw e tt
    ]
    place-KeyIs (suc depth) [] = elim (Bool-cases (is_future now t.scheduled_at)) [
      | inl e ↦
          subst (Ensures (KeyIs key n)) (sym (scheduled-run s depth now t a c e))
            (change-KeyIs now n key ts t scheduled task_scheduled a q h b i k)
      | inr e ↦
          subst (Ensures (KeyIs key n)) (sym (queued-run s depth now t a c e))
            (unfold add_outbox in change-KeyIs now n key ts t queued task_queued a q h b i k)
    ]

  create-KeyIs :
      (depth now : ℕ) (key : String) (spec : TaskSpec) (a : Db)
      → Holds s a
      → spec.idempotency_key ≡ some key
      → Ensures (KeyIs key a.next_task_id) (create_task s depth now spec a)
  unfolding create_task insert_task record_event
  create-KeyIs depth now key spec a h k =
      let t = new_task s now spec a.next_task_id in
      let key_of : t.idempotency_key ≡ some key = unfold new_task in k in
      elim (Bool-cases (has_key t.idempotency_key a.tasks)) [
        | inl e ↦ rw e tt
        | inr e ↦ rw e (
            comparable-Ensures (KeyIs key a.next_task_id) (is_naive spec) spec.depends_on _ (
              place-KeyIs now a.next_task_id key a.tasks t _ refl
                (ap (λ o. has_key o a.tasks) (sym key_of) ∙ e) h.ids (unfold new_task in refl)
                key_of (unfold new_task in refl) depth spec.depends_on))
      ]

module _ (s : Settings) (x : External) where
  -- A creation that is answered with 201.
  created-KeyIs :
      (depth : ℕ) (key : String) (b : TaskCreate) (req : Request) (u : User) (site after : Site)
      (body : Body) (o : Option Task) (r : Result Db)
      → Ensures (KeyIs key site.db.next_task_id) r
      → create_or_find s x depth b req u site o ≡ answer 201 (after, body)
      → create_task s depth req.now (spec_of b) site.db ≡ r
      → KeyIs key site.db.next_task_id after.db
  unfolding add_audit
  created-KeyIs depth key b req u site after body (some t) r k e q =
      let wrong : ◌≡◌ {A = ℕ} 200 201 = ap status_code e in absurd (omega (arith, wrong))
  created-KeyIs depth key b req u site after body none (err y) k e q = cc e
  created-KeyIs depth key b req u site after body none (ok db) k e q =
      let (t, found, i) = k in
      let made = ap (created_reply s x req u site) (sym q) ∙ e in
      (
        t,
        ap (λ (w : Site). find_key key w.db.tasks) (sym (ap (λ y. (commit site y).0) made)) ∙ found,
        i,
      )

module _ (s : Settings) (x : External) where
  -- A handler that is answered with 201 leaves a task of that key.
  creation-KeyIs :
      (depth : ℕ) (key : String) (b : TaskCreate) (req : Request) (u : User) (site after : Site)
      (body : Body)
      → Reach s empty_db site.db
      → b.idempotency_key ≡ some key
      → create_task_as s x depth b req u site ≡ answer 201 (after, body)
      → KeyIs key site.db.next_task_id after.db
  unfolding create_task_as
  creation-KeyIs depth key b req u site after body r k h =
      created-KeyIs s x depth key b req u site after body _ _
        (create-KeyIs s depth req.now key (spec_of b) site.db (Reach-Holds s r)
          (unfold spec_of in k))
        h refl

  -- A handler finds the task of the key.
  creation-finds :
      (depth : ℕ) (key : String) (b : TaskCreate) (req : Request) (u : User) (site : Site)
      (t : Task)
      → b.idempotency_key ≡ some key
      → find_key key site.db.tasks ≡ some t
      → create_task_as s x depth b req u site ≡ answer 200 (site, task_info t)
  unfolding create_task_as
  creation-finds depth key b req u site t k found =
      let by_key : get_by_idempotency_key key site.db ≡ some t =
        unfold get_by_idempotency_key in found in
      ap (λ o. create_or_find s x depth b req u site (existing_task s x o site.db)) k
      ∙ ap (create_or_find s x depth b req u site) by_key

-- In tables whose database transactions lead to: when a request to the route that creates a task, with
-- an idempotency key, is answered with status 201, the task that it created has the next id; and a
-- request to the route with the same key, whatever else it asks for, whoever sends it and whenever, to
-- a platform with the database that the first one leaves, changes nothing in the database and is
-- answered with status 200 and that task, unless it is refused: with 401 for its credentials, 403 for
-- its role, 422 for its body or 429 for the limit of its client.
pub created_once :
    (s : Settings) (x : External) (depth again : ℕ) (key : String) (b b2 : TaskCreate)
    (req later : Request) (p q : Platform) (body : Body)
    → Reach s empty_db p.site.db
    → b.idempotency_key ≡ some key
    → b2.idempotency_key ≡ some key
    → (create_task_route s x depth b req p).1 ≡ answer 201 body
    → q.site.db ≡ (create_task_route s x depth b req p).0.site.db
    → (t : Task) × (t.id ≡ p.site.db.next_task_id)
      × Unchanged s x 200 (task_info t) q.site (create_task_route s x again b2 later q)
unfolding create_task_route
created_once s x depth again key b b2 req later p q body r k k2 h same =
    let (u, site, d, made) =
      creating-Handled s x (valid_task b) (create_task_as s x depth b req) req 201 body p h in
    let after = (create_task_route s x depth b req p).0.site in
    let (t, found, i) =
      creation-KeyIs s x depth key b req u site after body (subst (Reach s empty_db) (sym d) r) k
        made in
    let in_q : find_key key q.site.db.tasks ≡ some t =
      ap (λ (a : Db). find_key key a.tasks) same ∙ found in
    (
      t,
      i ∙ ap (λ (a : Db). a.next_task_id) d,
      creating-Unchanged s x (valid_task b2) (create_task_as s x again b2 later) later 200
          (task_info t) q
          (λ v w e.
            creation-finds s x again key b2 later v w t k2
              (ap (λ (a : Db). find_key key a.tasks) e ∙ in_q)),
    )
