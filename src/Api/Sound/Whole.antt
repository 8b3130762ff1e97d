-- ===== src/Api/Sound/Whole.antt =====
-- The whole platform: the requests of backend/app/api, interleaved with the transactions of the
-- workers, the coordinator, the relay and the dispatcher, from the start of backend/app/main.py on.
use mathlib.Core.Path.{subst}
use distributed_task_platfor.Prelude.{
  ℕ, String, ◌≡◌, refl, sym, Bool, true, Option, none, [], arith,
}
use distributed_task_platfor.Model.Settings.{Settings}
use distributed_task_platfor.Model.Db.{Db, get_task}
use distributed_task_platfor.Auth.{bootstrap_admin}
use distributed_task_platfor.Invariant.{legal, status_after, status_of}
use distributed_task_platfor.Invariant.Reach.{Step, Reach, empty_db, history_replays}
use distributed_task_platfor.Api.{Platform, Request, External}
use distributed_task_platfor.Api.Names.{HasNames}
use distributed_task_platfor.RateLimit.Registry.{
  Registry, Scope, Gate, passed_on, too_many, middleware,
}
use distributed_task_platfor.Api.Router.{Call, through, respond}
use distributed_task_platfor.Api.Sound.{IsSound}
use distributed_task_platfor.Api.Sound.Runs.{serve-IsSound}

-- The tables after `bootstrap_admin` on an empty database, and a process that has just started.
unfoldable pub installed : Settings → String → Platform
installed s password_hash =
    let (next, users) = bootstrap_admin s password_hash (1, []) in
    record {
      site = record {
        db = empty_db;
        users = users;
        next_user_id = next;
        refresh_tokens = [];
        api_tokens = record { rows = []; next_id = 1 };
        batches = [];
        next_batch_id = 1;
        next_webhook_id = 1;
      };
      memory = record { login_window = []; login_failures = []; limiters = [] };
    }

abbrev pub with_database : Db → Platform → Platform
with_database db p = record p { site = record p.site { db = db } }

-- What can happen, in any order: a request arrives, or another process commits a transaction.
pub data Run (s : Settings) (x : External) (p : Platform) : Platform → Type 0 where
  start : Run s x p p
  requested :
      {q r : Platform} (scope : Scope) (redis : Option Bool) (c : Call) (req : Request)
      → Run s x p q
      → r ≡ (respond s x scope redis c req q).0
      → Run s x p r
  stepped :
      {q r : Platform} (db : Db)
      → Run s x p q
      → Step s q.site.db db
      → r ≡ with_database db q
      → Run s x p r

module _ (s : Settings) (x : External) where
  through-IsSound :
      (c : Call) (req : Request) (p : Platform) (g : Registry × Gate)
      → IsSound s p.site
      → IsSound s (through s x c req p g).0.site
  through-IsSound c req p (r, passed_on) h =
      serve-IsSound s x c req (record p { memory = record p.memory { limiters = r } }) h
  through-IsSound c req p (r, too_many window) h = h

  respond-IsSound :
      (scope : Scope) (redis : Option Bool) (c : Call) (req : Request) (p : Platform)
      → IsSound s p.site
      → IsSound s (respond s x scope redis c req p).0.site
  unfolding respond
  respond-IsSound scope redis c req p h =
      through-IsSound c req p
        (middleware x.lower x.str (x.decode req.now) s req.now redis scope p.memory.limiters) h

  pub Run-IsSound : {p q : Platform} → IsSound s p.site → Run s x p q → IsSound s q.site
  Run-IsSound h Run.start = h
  Run-IsSound h (Run.requested {q} scope redis c req run e) =
      subst (λ (w : Platform). IsSound s w.site) (sym e)
        (respond-IsSound scope redis c req q (Run-IsSound h run))
  Run-IsSound h (Run.stepped {q} db run step e) =
      let k = Run-IsSound h run in
      subst (λ (w : Platform). IsSound s w.site) (sym e)
        (record { reach = Reach.next k.reach step; names = k.names })

  pub installed-IsSound : (password_hash : String) → IsSound s (installed s password_hash).site
  unfolding installed bootstrap_admin
  installed-IsSound password_hash = record {
    reach = Reach.here;
    names = record { distinct = (refl, tt); below = (omega arith, tt) };
  }

-- From the first start of the platform on, whatever requests arrive, of whatever users, those that
-- are refused or raise included, and whatever transactions the workers, the coordinator, the relay and
-- the dispatcher commit between them, in any order and at any times: the log of events of every task is
-- a permitted walk that ends in the status of the task's row, no two users have the same name, and
-- every id of a user is below the sequence.
pub platform_consistent :
    (s : Settings) (x : External) (password_hash : String) (q : Platform) (i : ℕ)
    → Run s x (installed s password_hash) q
    → (legal i none q.site.db.events ≡ true)
      × (status_after i none q.site.db.events ≡ status_of (get_task i q.site.db))
      × HasNames q.site.next_user_id q.site.users
platform_consistent s x password_hash q i run =
    let h = Run-IsSound s x (installed-IsSound s x password_hash) run in
    let k = history_replays s q.site.db i h.reach in (k.0, k.1, h.names)
