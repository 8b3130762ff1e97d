-- ===== src/Dependencies.antt =====
-- backend/app/services/dependencies.py: the registration of a task's parents, with the search for a
-- cycle. (The advance of the children is in StatusChange.)
pub mod Search
pub mod Found
use distributed_task_platfor.Prelude.{
  ℕ, zero, suc, ◌+◌, Bool, true, false, not, ◌&&◌, Option, none, some, List, [], ◌∷◌, ◌++◌, ◌==◌,
  map, member, select, length, if◌then◌else◌,
}
use distributed_task_platfor.Model.Rows.{Task, TaskDependency}
use distributed_task_platfor.Model.Db.{Db}
use distributed_task_platfor.Model.Result.{Result, ok, err, task_conflict, ◌>>=◌}
use distributed_task_platfor.StatusChange.{parents_of_rows}

-- `list(dict.fromkeys(ids))`: the first of each, in order.
unfoldable pub dedup_seen : List ℕ → List ℕ → List ℕ
dedup_seen seen [] = []
dedup_seen seen (x ∷ xs) =
    let rest = dedup_seen (x ∷ seen) xs in
    let skip = dedup_seen seen xs in if member x seen then skip else x ∷ rest

-- The queue is held with its end first, since `queue.pop()` takes the last element.
unfoldable pub push : List ℕ → List ℕ → List ℕ
push [] queue = queue
push (p ∷ ps) queue = push ps (p ∷ queue)

-- The loop of `_ensure_no_cycle`: whether it raises. `none` is a loop that has not ended.
unfoldable pub finds_cycle : ℕ → List TaskDependency → ℕ → List ℕ → List ℕ → Option Bool
finds_cycle zero deps task_id seen queue = none
finds_cycle (suc fuel) deps task_id seen [] = some false
finds_cycle (suc fuel) deps task_id seen (current ∷ queue) =
    let parents = parents_of_rows current deps in
    let skip = finds_cycle fuel deps task_id seen queue in
    let rest = finds_cycle fuel deps task_id (current ∷ seen) (push parents queue) in
    if current == task_id
    then some true
    else if member current seen
    then skip
    else if member task_id parents
    then some true
    else rest

-- Each row of the table is pushed once at most, so this many rounds are enough.
abbrev pub rounds : List TaskDependency → List ℕ → ℕ
rounds deps parents = suc (length parents + length deps)

abbrev pub raise_on_cycle : Option Bool → Result (Unit {0})
raise_on_cycle (some false) = ok tt
raise_on_cycle _ = err task_conflict

unfoldable pub ensure_no_cycle : ℕ → List ℕ → Db → Result (Unit {0})
unfolding finds_cycle
ensure_no_cycle task_id parent_ids db = raise_on_cycle (
    finds_cycle (rounds db.dependencies parent_ids) db.dependencies task_id [] (push parent_ids []))

abbrev pub ids : List Task → List ℕ
ids = map (λ t. t.id)

abbrev pub missing : List ℕ → Db → List ℕ
missing parent_ids db = select (λ p. not (member p (ids db.tasks))) parent_ids

unfoldable pub add_edges : ℕ → List ℕ → Db → Db
add_edges task_id parent_ids db = record db {
  dependencies =
      db.dependencies
      ++ map (λ p. record { parent_task_id = p; child_task_id = task_id }) parent_ids;
}

-- The second half of `register_dependencies`, by the parents that are missing.
unfoldable pub register_if_found : List ℕ → ℕ → List ℕ → Db → Result Db
register_if_found (_ ∷ _) task_id parent_ids db = err task_conflict
register_if_found [] task_id parent_ids db = do
  _ ← ensure_no_cycle task_id parent_ids db
  ok (add_edges task_id parent_ids db)

unfoldable pub register_dependencies : ℕ → List ℕ → Db → Result Db
register_dependencies task_id ids db =
    let parent_ids = dedup_seen [] ids in
    if member task_id parent_ids
    then err task_conflict
    else register_if_found (missing parent_ids db) task_id parent_ids db
