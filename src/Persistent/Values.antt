-- ===== src/Persistent/Values.antt =====
-- repo.go: which values of the tables are right, with respect to what every task and every
-- expression ought to give.
pub mod Rows
pub mod Transactions
pub mod Operations
pub mod History
pub mod Planned
pub mod Evaluated
mod Tests
use golang_service_architect.Common.{
  ◌≡◌, refl, sym, ap, ◌∙◌, Bool, true, false, Option, none, some, List, [], ◌∷◌, Result, ok, err,
  ◌>>=◌, All, ◌==◌, ==_iff, subst,
}
use golang_service_architect.Apperrors.{Error}
use golang_service_architect.Float64.{Float64}
use golang_service_architect.Worker.{apply}
use golang_service_architect.Expression.Task.{Uuid}
use golang_service_architect.Expression.Ast.{Op}
use golang_service_architect.Messages.{TaskMessage}
use golang_service_architect.Persistent.Tables.{
  ExpressionRow, TaskRow, Payload, OutboxRow, Db, names,
}

-- What the tasks and the expressions ought to give, and to which expression a task belongs.
pub record Meaning (F : Type 0) : Type 0 where
  pub task_value : Uuid → Result Error F
  pub expression_of : Uuid → Uuid
  pub expression_value : Uuid → Result Error F

-- An argument that is set is the one that it ought to be.
abbrev pub IsValueOf : {F : Type 0} → Result Error F → Option F → Type 0
IsValueOf x none = Unit
IsValueOf x (some v) = x ≡ ok v

module _ (fl : Float64) (meaning : Meaning fl.F) where
  open fl use {F}
  open meaning use {task_value, expression_of, expression_value}

  -- An argument that another task gives ought to be that task's value, in one expression.
  abbrev pub IsDependency : Uuid → Result Error F → Option Uuid → Type 0
  IsDependency task x none = Unit
  IsDependency task x (some dep) = (x ≡ task_value dep) × (expression_of task ≡ expression_of dep)

  abbrev pub IsRootOf : Uuid → Bool → Type 0
  IsRootOf task true = task_value task ≡ expression_value (expression_of task)
  IsRootOf task false = Unit

  -- A row's task gives what its operation makes of its arguments, and what is set of the arguments
  -- and of the result is right.
  pub record IsRight (t : TaskRow F) : Type 0 where
    pub left : Result Error F
    pub right : Result Error F
    pub value : task_value t.id ≡ (left >>= λ a. right >>= λ b. apply fl t.op a b)
    pub arg1 : IsValueOf left t.arg1_value
    pub dep1 : IsDependency t.id left t.arg1_task_id
    pub arg2 : IsValueOf right t.arg2_value
    pub dep2 : IsDependency t.id right t.arg2_task_id
    pub expression : t.expression_id ≡ expression_of t.id
    pub root : IsRootOf t.id t.is_root
    pub result : IsValueOf (task_value t.id) t.result

  -- A message asks for the value of its task.
  abbrev pub IsRightPayload : Payload F → Type 0
  IsRightPayload (Payload.task m trace) =
      (task_value m.task_id ≡ apply fl m.op m.arg1 m.arg2)
      × (m.expression_id ≡ expression_of m.task_id)
  IsRightPayload _ = Unit

  abbrev pub IsRightExpression : ExpressionRow F → Type 0
  IsRightExpression e = IsValueOf (expression_value e.id) e.result

  pub record AreRight (db : Db F) : Type 0 where
    pub tasks : All IsRight db.tasks
    pub outbox : All (λ r. IsRightPayload r.payload) db.outbox
    pub expressions : All IsRightExpression db.expressions
