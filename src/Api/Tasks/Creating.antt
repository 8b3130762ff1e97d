-- ===== src/Api/Tasks/Creating.antt =====
-- What stands before the handlers of the routes that create tasks in
-- backend/app/api/routes/tasks.py: the user, its role, the body, and the limit of the client.
use distributed_task_platfor.Prelude.{
  ℕ, ◌≡◌, refl, ap, Bool, true, false, Option, none, some, inl, inr, ◌⊎◌, Bool-cases,
}
use distributed_task_platfor.Model.Settings.{Settings}
use distributed_task_platfor.Auth.{User}
use distributed_task_platfor.RateLimit.Registry.{Registry}
use distributed_task_platfor.Api.{
  Site, Memory, Platform, Request, External, Body, Reply, answer, http_error, Handler, commit,
  status_code,
}
use distributed_task_platfor.Api.Access.{operators, permitted, current_user}
use distributed_task_platfor.Api.Tasks.{if_room, if_operator, admit_creator, creating}

-- No valid credentials, not an operator, a body that is not valid, or too many tasks created.
abbrev pub IsRefused : Reply Body → Type 0
IsRefused r =
    (status_code r ≡ 401) ⊎ (status_code r ≡ 403) ⊎ (status_code r ≡ 422) ⊎ (status_code r ≡ 429)

commit-answer :
    (site : Site) (r : Reply (Site × Body)) (n : ℕ) (body : Body)
    → (commit site r).1 ≡ answer n body
    → r ≡ answer n ((commit site r).0, body)
commit-answer site (answer n (w, b)) m body h = cc h
commit-answer site (http_error n) m body h = cc h

module _ (s : Settings) (x : External) where
  -- A request that changes no task: it is refused, or the handler answers and changes nothing.
  abbrev pub Unchanged : ℕ → Body → Site → Platform × Reply Body → Type 0
  Unchanged n body site out =
      (out.0.site.db ≡ site.db) × (IsRefused out.1 ⊎ (out.1 ≡ answer n body))

  module _ (valid : Bool) (handler : User → Handler) (req : Request) (n : ℕ) (body : Body) where
    room-Unchanged :
        (k : Handler) (p : Platform) (y : Registry × Bool)
        → k p.site ≡ answer n (p.site, body)
        → Unchanged n body p.site (if_room s x k p y)
    room-Unchanged k p (r, false) h = (refl, inl (inr (inr (inr refl))))
    room-Unchanged k p (r, true) h =
        (ap (λ w. (commit p.site w).0.db) h, inr (ap (λ w. (commit p.site w).1) h))

    operator-Unchanged :
        (p : Platform) (o : Option User)
        → ((u : User) → handler u p.site ≡ answer n (p.site, body))
        → Unchanged n body p.site (if_operator s x valid handler req p o)
    operator-Unchanged p none h = (refl, inl (inr (inl refl)))
    operator-Unchanged p (some u) h = elim (Bool-cases valid) [
      | inl e ↦ rw e (room-Unchanged (handler u) p _ (h u))
      | inr e ↦ rw e (refl, inl (inr (inr (inl refl))))
    ]

    admit-Unchanged :
        (memory : Memory) (y : Option User × Site)
        → ((u : User) → handler u y.1 ≡ answer n (y.1, body))
        → Unchanged n body y.1 (admit_creator s x valid handler req memory y)
    admit-Unchanged memory (none, site) h = (refl, inl (inl refl))
    admit-Unchanged memory (some u, site) h =
        operator-Unchanged (record { site = site; memory = memory }) (permitted operators u) h

    pub creating-Unchanged :
        (p : Platform)
        → ((u : User) (site : Site) → site.db ≡ p.site.db → handler u site ≡ answer n (site, body))
        → Unchanged n body p.site (creating s x valid handler req p)
    unfolding creating current_user
    creating-Unchanged p h =
        admit-Unchanged p.memory (current_user s x req p.site)
          (λ u. h u (current_user s x req p.site).1 refl)

    -- A request that is answered was answered by the handler, for some user.
    abbrev pub Handled : Site → Platform × Reply Body → Type 0
    Handled before out =
        (u : User) × (site : Site) × (site.db ≡ before.db)
        × (handler u site ≡ answer n (out.0.site, body))

    room-Handled :
        (k : Handler) (p : Platform) (y : Registry × Bool)
        → (if_room s x k p y).1 ≡ answer n body
        → k p.site ≡ answer n ((if_room s x k p y).0.site, body)
    room-Handled k p (r, false) h = cc h
    room-Handled k p (r, true) h = commit-answer p.site (k p.site) n body h

    operator-Handled :
        (p : Platform) (o : Option User)
        → (if_operator s x valid handler req p o).1 ≡ answer n body
        → Handled p.site (if_operator s x valid handler req p o)
    operator-Handled p none h = cc h
    operator-Handled p (some u) h = go valid h
      where
        go :
            (v : Bool)
            → (if_operator s x v handler req p (some u)).1 ≡ answer n body
            → Handled p.site (if_operator s x v handler req p (some u))
        go true h = (u, p.site, refl, room-Handled (handler u) p _ h)
        go false h = cc h

    admit-Handled :
        (memory : Memory) (y : Option User × Site)
        → (admit_creator s x valid handler req memory y).1 ≡ answer n body
        → Handled y.1 (admit_creator s x valid handler req memory y)
    admit-Handled memory (none, site) h = cc h
    admit-Handled memory (some u, site) h =
        operator-Handled (record { site = site; memory = memory }) (permitted operators u) h

    pub creating-Handled :
        (p : Platform)
        → (creating s x valid handler req p).1 ≡ answer n body
        → Handled p.site (creating s x valid handler req p)
    unfolding creating current_user
    creating-Handled p h = admit-Handled p.memory (current_user s x req p.site) h
