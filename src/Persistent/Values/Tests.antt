-- ===== src/Persistent/Values/Tests.antt =====
-- The evaluation of 2 + 3 * 4 by agents, over natural numbers in place of floats.
use golang_service_architect.Common.{ℕ, ◌≡◌, refl, none, some, List, [], ◌∷◌, ok, All, true, false}
use golang_service_architect.Samples.{naturals, outside, product, reply}
use golang_service_architect.Worker.{apply}
use golang_service_architect.Expression.Ast.{Op, Node, leaf, bin}
use golang_service_architect.Expression.Task.{Task}
use golang_service_architect.Expression.Planner.{plan, build, append_task, argument, mark_root}
use golang_service_architect.Messages.{ResultMessage}
use golang_service_architect.Persistent.Tables.{Db, update, updated}
use golang_service_architect.Persistent.Enqueue.{
  insert_expression, insert_task, insert_tasks, enqueue_task, enqueue_ready, enqueue_audit,
}
use golang_service_architect.Persistent.Repo.{
  create_expression, create_expression_tx, apply_result, apply_result_tx, on_completed, fan_in,
  unlock_ready_dependents, finish_result,
}
use golang_service_architect.Persistent.Values.History.{IsReplyFrom}
use golang_service_architect.Persistent.Values.Evaluated.{new_db}

abbrev tree : Node ℕ
tree = bin Op.add (leaf 2) (bin Op.mul (leaf 3) (leaf 4))

-- The root takes its id first.
abbrev tasks : List (Task ℕ)
tasks =
    record product { id = 1 }
    ∷ record product {
      op = Op.add;
      arg1_value = some 2;
      arg2_value = none;
      arg2_task_id = some 1;
      unmet_deps = 1;
      is_root = true;
    }
    ∷ []

planned : plan (λ j. j) 7 0 tree ≡ ok (tasks, none)
unfolding plan build append_task argument mark_root
planned = refl

abbrev created_db : Db ℕ
created_db = (create_expression naturals outside 7 (b'2' ∷ []) "t" tasks [] (new_db naturals)).1

abbrev product_reply : ResultMessage ℕ
product_reply = record reply { task_id = 1 }

product_answered : IsReplyFrom naturals created_db product_reply
unfolding create_expression create_expression_tx insert_expression insert_tasks insert_task
    enqueue_ready enqueue_task enqueue_audit apply update
product_answered = record {
  before = [];
  behind = [];
  id = 0;
  published = false;
  message = record { task_id = 1; expression_id = 7; op = Op.mul; arg1 = 3; arg2 = 4; attempt = 0 };
  trace = outside.traceparent;
  stored = refl;
  computed = refl;
  task = refl;
  expression = refl;
}

abbrev half_db : Db ℕ
half_db = (apply_result naturals outside product_reply [] created_db).1

abbrev sum_reply : ResultMessage ℕ
sum_reply = record reply { task_id = 0; result = 14 }

sum_answered : IsReplyFrom naturals half_db sum_reply
unfolding create_expression create_expression_tx insert_expression insert_tasks insert_task
    enqueue_ready enqueue_task enqueue_audit apply_result apply_result_tx on_completed fan_in
    unlock_ready_dependents finish_result update updated apply
sum_answered = record {
  before = created_db.outbox;
  behind = [];
  id = 1;
  published = false;
  message = record {
    task_id = 0;
    expression_id = 7;
    op = Op.add;
    arg1 = 2;
    arg2 = 12;
    attempt = 0;
  };
  trace = outside.traceparent;
  stored = refl;
  computed = refl;
  task = refl;
  expression = refl;
}

-- The expression has its result.
evaluated :
    All (λ e. e.result ≡ some 14) (apply_result naturals outside sum_reply [] half_db).1.expressions
unfolding create_expression create_expression_tx insert_expression insert_tasks insert_task
    enqueue_ready enqueue_task enqueue_audit apply_result apply_result_tx on_completed fan_in
    unlock_ready_dependents finish_result update updated
evaluated = (refl, tt)
