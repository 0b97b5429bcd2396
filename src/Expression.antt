-- ===== src/Expression.antt =====
-- backend/internal/usecase/expression: from the text of an expression to its task graph.
pub mod Ast
pub mod Builder
pub mod Scanner
pub mod Task
pub mod Evaluation
pub mod Planner
pub mod Service
mod Tests
