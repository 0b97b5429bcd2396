-- ===== src/Expression/Service/Reads.antt =====
-- service.go: `Get`, `List`, `Graph` and `Progress`.
pub mod Pages
use golang_service_architect.Common.{ℕ, List, [], ◌∷◌, ◌++◌, zero, suc, Result, ok, err}
use golang_service_architect.Apperrors.{Error}
use golang_service_architect.Expression.Task.{Uuid}
use golang_service_architect.Expression.Service.{page_bounds}
use golang_service_architect.Persistent.Tables.{ExpressionRow, TaskRow, Db}
use golang_service_architect.Persistent.Reads.{
  Progress, get_expression, list_expressions, get_tasks, get_progress,
}

module _ {F : Type 0} where
  -- `Get` and `Progress`
  abbrev pub get : Uuid → Db F → Result Error (ExpressionRow F)
  get = get_expression

  abbrev pub progress : Uuid → Db F → Progress
  progress = get_progress

  -- `List`
  unfoldable pub list : (Uuid → ℕ) → ℕ → ℕ → Db F → List (ExpressionRow F) × ℕ
  list created page_size page db =
      let (size, offset) = page_bounds page_size page in list_expressions created size offset db

  -- The end of `Graph`: no tasks and no expression are told apart.
  abbrev pub graph_of :
      List (TaskRow F) → Result Error (ExpressionRow F) → Result Error (List (TaskRow F))
  graph_of [] (err e) = err e
  graph_of [] (ok e) = ok []
  graph_of (t ∷ tasks) expression = ok (t ∷ tasks)

  -- `Graph`
  unfoldable pub graph : Uuid → Db F → Result Error (List (TaskRow F))
  graph id db = graph_of (get_tasks id db) (get_expression id db)

  -- The first pages, one behind the other.
  unfoldable pub first_pages : (Uuid → ℕ) → ℕ → ℕ → Db F → List (ExpressionRow F)
  first_pages created page_size zero db = []
  first_pages created page_size (suc n) db =
      first_pages created page_size n db ++ (list created page_size n db).0
