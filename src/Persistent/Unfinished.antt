-- ===== src/Persistent/Unfinished.antt =====
-- repo.go: the root task of an expression that is not finished.
pub mod Roots
pub mod Same
pub mod Operations
pub mod Creation
use golang_service_architect.Common.{
  ◌≡◌, Bool, true, false, ◌&&◌, List, [], ◌∷◌, ◌==◌, if◌then◌else◌, All,
}
use golang_service_architect.Expression.Task.{Uuid}
use golang_service_architect.Messages.{ResultMessage}
use golang_service_architect.Persistent.Tables.{ExpressionRow, TaskRow, Db, is_open, is_unfinished}

module _ {F : Type 0} where
  abbrev pub is_root_row : Uuid → TaskRow F → Bool
  is_root_row e t = is_open t.status && (t.is_root && t.expression_id == e)

  -- The first row with an id is open and the root of an expression.
  abbrev pub is_root_of : Uuid → Uuid → List (TaskRow F) → Bool
  is_root_of e r [] = false
  is_root_of e r (t ∷ ts) =
      let rest = is_root_of e r ts in if t.id == r then is_root_row e t else rest

  -- An unfinished expression has an open root task.
  abbrev pub IsGoing : List (TaskRow F) → ExpressionRow F → Type 0
  IsGoing ts e = is_unfinished e.status ≡ true → (r : Uuid) × (is_root_of e.id r ts ≡ true)

  abbrev pub AreGoing : Db F → Type 0
  AreGoing db = All (IsGoing db.tasks) db.expressions

  -- A result names the expression of its task.
  abbrev pub NamesExpression : ResultMessage F → Db F → Type 0
  NamesExpression res db =
      All (λ (t : TaskRow F). (t.id == res.task_id) ≡ true → t.expression_id ≡ res.expression_id)
        db.tasks
