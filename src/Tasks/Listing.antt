-- ===== src/Tasks/Listing.antt =====
-- `list_tasks`, `count_tasks` and `_task_filters` of backend/app/services/tasks.py. The database's
-- `ilike` is a parameter.
use distributed_task_platfor.Prelude.{
  ℕ, String, Bool, ◌||◌, Option, none, some, List, [], ◌∷◌, ◌++◌, ◌==◌, ◌=ₛ◌, leb, select, count,
  if◌then◌else◌,
}
use distributed_task_platfor.Model.Status.{Status, Priority, ◌=?◌}
use distributed_task_platfor.Model.Rows.{Task, Attempt, TaskEvent}
use distributed_task_platfor.Model.Db.{Db}
use distributed_task_platfor.Model.Query.{filter_if, filter_if_text, column, passes, page}

pub record Filters : Type 0 where
  pub status : Option Status
  pub task_type : Option String
  pub priority : Option Priority
  pub search : Option String
  pub created_from : Option ℕ
  pub created_to : Option ℕ
  pub batch_id : Option ℕ
  pub created_by : Option ℕ

abbrev pub rank : Priority → ℕ
rank Priority.critical = 0
rank Priority.high = 1
rank Priority.normal = 2
rank Priority.low = 3

module _ (ilike : String → String → Bool) where
  -- `f"%{search}%"` is made by the parameter.
  unfoldable pub found : String → Task → Bool
  found q t =
      ilike t.task_type q
      || column (λ c. ilike c q) t.idempotency_key
      || column (λ c. ilike c q) t.last_error

  unfoldable pub task_filters : Filters → List (Task → Bool)
  unfolding found
  task_filters f =
      filter_if f.status (λ s t. t.status =? s)
      ++ filter_if_text f.task_type (λ s t. t.task_type =ₛ s)
      ++ filter_if f.priority (λ p t. rank t.priority == rank p)
      ++ filter_if_text f.search found
      ++ filter_if f.created_from (λ at t. leb at t.created_at)
      ++ filter_if f.created_to (λ at t. leb t.created_at at)
      ++ filter_if f.batch_id (λ b t. column (λ c. c == b) t.batch_id)
      ++ filter_if f.created_by (λ u t. column (λ c. c == u) t.created_by)

  -- `order_by(Task.id.desc()).limit(limit).offset(offset)`; ids are unique.
  unfoldable pub list_tasks : Filters → ℕ → ℕ → Db → List Task
  list_tasks f limit offset db =
      page (λ t. t.id) limit offset (select (passes (task_filters f)) db.tasks)

  unfoldable pub count_tasks : Filters → Db → ℕ
  count_tasks f db = count (passes (task_filters f)) db.tasks

abbrev pub find_key : String → List Task → Option Task
find_key key [] = none
find_key key (t ∷ ts) = if column (λ k. k =ₛ key) t.idempotency_key then some t else find_key key ts

-- The key is unique, so the first row that has it is the only one.
unfoldable pub get_by_idempotency_key : String → Db → Option Task
get_by_idempotency_key key db = find_key key db.tasks

-- The order of insertion is that of the ids.
unfoldable pub get_events : ℕ → Db → List TaskEvent
get_events id db = select (λ e. e.task_id == id) db.events

-- `selectinload(Task.attempts_)`.
unfoldable pub attempts_of : ℕ → Db → List Attempt
attempts_of id db = select (λ a. a.task_id == id) db.attempts
