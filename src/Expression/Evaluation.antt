-- ===== src/Expression/Evaluation.antt =====
-- The specification that the pipeline is held to: the value of a tree, as `evalAST` of
-- parser_test.go gives it with a worker's errors, and the execution of a task list.
use golang_service_architect.Common.{
  Option, none, some, List, [], ◌∷◌, Result, ok, err, ◌>>=◌, ◌==◌, if◌then◌else◌,
}
use golang_service_architect.Apperrors.{Error, plain}
use golang_service_architect.Float64.{Float64}
use golang_service_architect.Worker.{apply}
use golang_service_architect.Expression.Ast.{Node, leaf, bin}
use golang_service_architect.Expression.Task.{Task, Uuid}

-- What a worker's results are kept in.
abbrev pub Memo : Type 0 → Type 0
Memo F = List (Uuid × F)

unfoldable pub get : {F : Type 0} → Uuid → Memo F → Option F
get id [] = none
get id ((j, v) ∷ m) = if id == j then some v else get id m

abbrev pub unresolved : Error
unresolved = plain "task enqueued with unresolved args"

abbrev pub present : {F : Type 0} → Option F → Result Error F
present (some v) = ok v
present none = err unresolved

module _ (fl : Float64) where
  open fl use {F}

  -- The value of a tree: every operator applied the way a worker applies it.
  unfoldable pub eval : Node F → Result Error F
  eval (leaf v) = ok v
  eval (bin o l r) = do a ← eval l; b ← eval r; apply fl o a b

  -- An argument of a task: its literal, or the result of the task that it names.
  unfoldable pub resolve : Option F → Option Uuid → Memo F → Result Error F
  resolve (some v) dep m = ok v
  resolve none (some id) m = present (get id m)
  resolve none none m = err unresolved

  unfoldable pub run_task : Task F → Memo F → Result Error (Memo F)
  unfolding resolve
  run_task t m = do
    a ← resolve t.arg1_value t.arg1_task_id m
    b ← resolve t.arg2_value t.arg2_task_id m
    v ← apply fl t.op a b
    ok ((t.id, v) ∷ m)

  unfoldable pub run : List (Task F) → Memo F → Result Error (Memo F)
  unfolding run_task
  run [] m = ok m
  run (t ∷ ts) m = do m' ← run_task t m; run ts m'

  -- The result of the task that is marked as the root.
  unfoldable pub root_value : List (Task F) → Memo F → Result Error F
  root_value [] m = err unresolved
  root_value (t ∷ ts) m = if t.is_root then present (get t.id m) else root_value ts m

  -- The result of a plan: the literal, or what the root task computes.
  unfoldable pub outcome : List (Task F) × Option F → Result Error F
  unfolding run root_value
  outcome (ts, some v) = ok v
  outcome (ts, none) = do m ← run ts []; root_value ts m
