-- ===== src/Expression/Planner.antt =====
-- backend/internal/usecase/expression/planner.go: a syntax tree becomes a list of tasks.
-- `new_uuid n` is the n-th id that `uuid.New` hands out, and the state counts the calls.
pub mod Layout
pub mod Execution
pub mod Order
pub mod Graph
use golang_service_architect.Common.{
  ℕ, ◌+◌, Bool, true, false, Option, none, some, List, [], ◌∷◌, ◌++◌, length, Result, ok, err,
  ◌>>=◌, ltb, if◌then◌else◌,
}
use golang_service_architect.Apperrors.{Error, Code, Arg, newf, plain}
use golang_service_architect.Expression.Ast.{Op, Node, leaf, bin}
use golang_service_architect.Expression.Task.{Task, TaskStatus, Uuid}

abbrev pub max_tasks_per_expr : ℕ
max_tasks_per_expr = 256

pub record PlanState (F : Type 0) : Type 0 where
  pub next : ℕ
  pub tasks : List (Task F)

-- An argument of a task: a literal value, or the id of the task that computes it.
pub data Argument (F : Type 0) : Type 0 where
  value : F → Argument F
  result_of : Uuid → Argument F

abbrev pub too_many : Error
too_many =
    newf Code.invalid_input "expression produces more than %d operations"
      (Arg.number max_tasks_per_expr ∷ [])

module _ {F : Type 0} where
  abbrev pub arg_value : Argument F → Option F
  arg_value (value v) = some v
  arg_value (result_of id) = none

  abbrev pub arg_task_id : Argument F → Option Uuid
  arg_task_id (value v) = none
  arg_task_id (result_of id) = some id

  abbrev pub unmet : Argument F → ℕ
  unmet (value v) = 0
  unmet (result_of id) = 1

  abbrev pub new_task : Uuid → Uuid → Op → Argument F → Argument F → Task F
  new_task id expr_id op a b = record {
    id = id;
    expression_id = expr_id;
    op = op;
    arg1_value = arg_value a;
    arg1_task_id = arg_task_id a;
    arg2_value = arg_value b;
    arg2_task_id = arg_task_id b;
    unmet_deps = unmet a + unmet b;
    status = TaskStatus.pending;
    result = none;
    attempt = 0;
    worker_id = "";
    is_root = false;
  }

  -- `n.Left` or `n.Right` as an argument, given the recursive call for an inner node.
  unfoldable pub argument :
      Node F
      → (PlanState F → Result Error (Task F × PlanState F))
      → PlanState F
      → Result Error (Argument F × PlanState F)
  argument (leaf v) built s = ok (value v, s)
  argument (bin o l r) built s = do (child, s') ← built s; ok (result_of child.id, s')

  -- The end of `build`: append the task, and check the limit where the count grows.
  unfoldable pub append_task : Task F → PlanState F → Result Error (Task F × PlanState F)
  append_task t s =
      let s' = record s { tasks = s.tasks ++ t ∷ [] } in
      if ltb max_tasks_per_expr (length s'.tasks) then err too_many else ok (t, s')

  -- `rootTask.IsRoot = true`: the root task is the one appended last.
  unfoldable pub mark_root : List (Task F) → List (Task F)
  mark_root [] = []
  mark_root (t ∷ []) = record t { is_root = true } ∷ []
  mark_root (t ∷ u ∷ ts) = t ∷ mark_root (u ∷ ts)

module _ {F : Type 0} (new_uuid : ℕ → Uuid) where
  -- `build`. It is called on operator nodes only: on a leaf it would follow a nil pointer.
  unfoldable pub build : Uuid → Node F → PlanState F → Result Error (Task F × PlanState F)
  unfolding argument append_task
  build expr_id (leaf v) s = err (plain "nil pointer dereference")
  build expr_id (bin o l r) s = do
    (a, s₁) ← argument l (build expr_id l) (record s { next = s.next + 1 })
    (b, s₂) ← argument r (build expr_id r) s₁
    append_task (new_task (new_uuid s.next) expr_id o a b) s₂

  -- `Plan`: the tasks, and the value of an expression that needs none.
  unfoldable pub plan : Uuid → ℕ → Node F → Result Error (List (Task F) × Option F)
  unfolding build mark_root
  plan expr_id next (leaf v) = ok ([], some v)
  plan expr_id next (bin o l r) = do
    (root, s) ← build expr_id (bin o l r) (record { next = next; tasks = [] })
    ok (mark_root s.tasks, none)
