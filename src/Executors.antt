-- ===== src/Executors.antt =====
-- backend/app/worker/executors: the register of the handlers of task types, and the three handlers
-- that it starts with. `get` is `dict.get` of a payload, `float` Python's conversion of a value,
-- `repr` and `number` the texts of values, and `dumps` the JSON that the result is stored as.
use distributed_task_platfor.Prelude.{
  ℕ, String, Option, none, some, List, [], ◌∷◌, ◌=ₛ◌, join, min, if◌then◌else◌,
}
use distributed_task_platfor.Worker.{Execution}

-- What `float` gives: an amount of microseconds, which an infinite one exceeds, or neither.
pub data Number : Type 0 where
  below_zero not_a_number : Number
  amount : ℕ → Number

-- `execute` returns or raises.
pub record Handler : Type 0 where
  pub name : String
  pub description : String
  pub execute : String → Execution

-- The dictionary of the handlers by their names.
unfoldable pub register : Handler → List Handler → List Handler
register h [] = h ∷ []
register h (k ∷ ks) = let rest = register h ks in if k.name =ₛ h.name then h ∷ ks else k ∷ rest

unfoldable pub get_handler : String → List Handler → Option Handler
get_handler task_type [] = none
get_handler task_type (h ∷ hs) =
    let rest = get_handler task_type hs in if h.name =ₛ task_type then some h else rest

-- `max(0.0, min(30.0, seconds))`: `min` keeps 30 unless the other is below it.
unfoldable pub clamp : Number → ℕ
clamp below_zero = 0
clamp not_a_number = 30_000_000
clamp (amount n) = min 30_000_000 n

abbrev pub or_text : String → Option String → String
or_text d none = d
or_text d (some v) = v

module _ (get : String → String → Option String) (float : String → Option Number)
    (repr : String → String) (number : ℕ → String) (dumps : List (String × String) → String) where
  unfoldable pub echo : Handler
  echo = record {
    name = "echo";
    description = "Повертає передане повідомлення";
    execute = λ payload.
        Execution.returned
          (dumps (("message", or_text "" (get "message" payload)) ∷ ("task_type", "echo") ∷ []));
  }

  abbrev pub slept : String → Option Number → Execution
  slept raw none = Execution.raised (join "seconds має бути числом, отримано " (repr raw))
  slept raw (some n) = Execution.returned (dumps (("slept", number (clamp n)) ∷ []))

  unfoldable pub sleep : Handler
  sleep = record {
    name = "sleep";
    description = "Спить задану кількість секунд (0..30) і повертає час";
    execute = λ payload. let raw = or_text "0" (get "seconds" payload) in slept raw (float raw);
  }

  unfoldable pub fail : Handler
  fail = record {
    name = "fail";
    description = "Навмисно падає — для демонстрації помилок та повторів";
    execute = λ payload.
        Execution.raised
          (join "Запит на помилку: " (or_text "demo-помилка" (get "reason" payload)));
  }

  -- The loop of `__init__.py`.
  unfoldable pub registry : List Handler
  unfolding register echo sleep fail
  registry = register fail (register sleep (register echo []))
