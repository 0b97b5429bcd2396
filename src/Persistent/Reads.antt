-- ===== src/Persistent/Reads.antt =====
-- repo.go and sqlcgen: the operations that only read, and the pruning of the outbox. The times that
-- they order and test by are parameters; a query does not fail with its connection here. The rows
-- stand for the entities that convert.go makes of them.
use Prim.Native.Nat.{min}
use golang_service_architect.Common.{
  ℕ, ◌^◌, Bool, true, false, not, ◌&&◌, ◌||◌, List, [], ◌∷◌, length, take, drop, Result, ok, err,
  ltb, ◌==◌, if◌then◌else◌,
}
use golang_service_architect.Apperrors.{Error, err_not_found}
use golang_service_architect.Expression.Task.{TaskStatus, Uuid}
use golang_service_architect.Persistent.Tables.{ExpressionRow, TaskRow, OutboxRow, Db, select}

-- `ORDER BY`
module _ {R : Type 0} (before : R → R → Bool) where
  abbrev pub place : R → List R → List R
  place r [] = r ∷ []
  place r (s ∷ rows) = if before r s then r ∷ s ∷ rows else s ∷ place r rows

  unfoldable pub order_rows : List R → List R
  order_rows [] = []
  order_rows (r ∷ rows) = place r (order_rows rows)

-- `entity.Progress`
pub record Progress : Type 0 where
  pub total : ℕ
  pub done : ℕ

abbrev pub is_done : TaskStatus → Bool
is_done TaskStatus.done = true
is_done _ = false

module _ {F : Type 0} where
  abbrev pub first_expression : List (ExpressionRow F) → Result Error (ExpressionRow F)
  first_expression [] = err err_not_found
  first_expression (e ∷ _) = ok e

  -- `GetExpression`
  unfoldable pub get_expression : Uuid → Db F → Result Error (ExpressionRow F)
  get_expression id db = first_expression (select (λ e. e.id == id) db.expressions)

  -- The order of ListExpressions: newest first, of one time by descending id.
  abbrev pub is_newer : (Uuid → ℕ) → ExpressionRow F → ExpressionRow F → Bool
  is_newer created e f =
      ltb (created f.id) (created e.id) || (created f.id == created e.id && ltb f.id e.id)

  -- `ListExpressions`, with the column created_at.
  unfoldable pub list_expressions : (Uuid → ℕ) → ℕ → ℕ → Db F → List (ExpressionRow F) × ℕ
  list_expressions created limit offset db = (
    take (min limit 1000)
        (drop (min offset (2 ^ 30)) (order_rows (is_newer created) db.expressions)),
    length db.expressions,
  )

  -- `GetTasks`
  unfoldable pub get_tasks : Uuid → Db F → List (TaskRow F)
  get_tasks id db = order_rows (λ s t. ltb s.id t.id) (select (λ t. t.expression_id == id) db.tasks)

  -- `GetProgress`
  unfoldable pub get_progress : Uuid → Db F → Progress
  get_progress id db = record {
    total = length (select (λ t. t.expression_id == id) db.tasks);
    done = length (select (λ t. t.expression_id == id && is_done t.status) db.tasks);
  }

  -- `PruneOutbox`, with the rows that were published more than an hour ago.
  unfoldable pub prune_outbox : (OutboxRow F → Bool) → Db F → ℕ × Db F
  prune_outbox is_old db = (
    length (select (λ r. r.published && is_old r) db.outbox),
    record db { outbox = select (λ r. not (r.published && is_old r)) db.outbox },
  )
