-- ===== src/Tasks/Naive.antt =====
-- The test on the time in `create_task` of backend/app/services/tasks.py lets a result through or
-- raises.
use distributed_task_platfor.Prelude.{ℕ, Bool, true, false, List, [], ◌∷◌}
use distributed_task_platfor.Model.Db.{Db}
use distributed_task_platfor.Model.Result.{Result, Ensures}
use distributed_task_platfor.Tasks.{comparable}

pub comparable-Ensures :
    (P : Db → Type 0) (naive : Bool) (ps : List ℕ) (r : Result Db)
    → Ensures P r
    → Ensures P (comparable naive ps r)
comparable-Ensures P true [] r h = tt
comparable-Ensures P true (p ∷ ps) r h = h
comparable-Ensures P false ps r h = h
