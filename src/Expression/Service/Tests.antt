-- ===== src/Expression/Service/Tests.antt =====
-- Submissions over natural numbers in place of floats.
use golang_service_architect.Common.{
  List, Option, none, ℕ, ◌∷◌, ◌-◌, All, drop, true, false, ◌≡◌, refl, [], ok, err, ◌+◌, ◌*◌, ◌≤◌,
  arith,
}
use golang_service_architect.Samples.{naturals, empty, submitted as sample_db, reply, outside}
use golang_service_architect.Apperrors.{Code, new}
use golang_service_architect.Text.{Text, codes, trim_space, encode}
use golang_service_architect.Validator.{
  validate_expression, check, check_operator, check_all, finish,
}
use golang_service_architect.Expression.Ast.{Op, Node, should_pop}
use golang_service_architect.Expression.Builder
use golang_service_architect.Expression.Scanner.{parse, tokenize}
use golang_service_architect.Expression.Planner.{plan}
use golang_service_architect.Persistent.Tables.{Db, ExpressionRow, update, updated}
use golang_service_architect.Persistent.Enqueue.{
  insert_expression, insert_task, insert_tasks, enqueue_task, enqueue_audit, enqueue_ready,
}
use golang_service_architect.Persistent.Repo.{
  create_expression, create_expression_tx, apply_result, apply_started, apply_result_tx,
  on_completed, fan_in, unlock_ready_dependents, finish_result,
}
use golang_service_architect.Expression.Service.{
  Request, page_bounds, pending_expression, persist, submit,
}
use mathlib.Core.List.{Perm}
use golang_service_architect.Persistent.Sorting.{IsNewestFirst}
use golang_service_architect.Persistent.Reads.{list_expressions}
use golang_service_architect.Expression.Service.Reads.{list, first_pages}
use golang_service_architect.Expression.Service.Reads.Pages.{first_pages-ordered}
use golang_service_architect.Worker.{apply}
use golang_service_architect.Messages.{ResultMessage, ExpressionStatus}
use golang_service_architect.Persistent.Values.{IsValueOf}
use golang_service_architect.Persistent.Values.History.{IsReplyFrom}
use golang_service_architect.Persistent.Values.Evaluated.{new_db, result}
use golang_service_architect.Expression.Service.Outcome.{
  Ledger, IsEntered, text_value, submitted, worked, done, next, submit-evaluates,
}
use golang_service_architect.Expression.Service.Completion.{submit-goes_on}
use golang_service_architect.Expression.Service.Progress
use golang_service_architect.Persistent.Unfinished.{NamesExpression, is_root_of}
use golang_service_architect.Persistent.Wakeups.Progress.{HasWoken}
use golang_service_architect.Expression.Service.Stored.{submitted_row, submit-IsStored}
use golang_service_architect.Expression.Service.Stored.Tasks.{IsStored}
use golang_service_architect.Expression.Task.{Task}
use golang_service_architect.Expression.Service.Submission.{submit-rollback}

abbrev request : Request
request = record {
  traceparent = "00-1-1-01";
  trace_id = "1";
  new_uuid = λ n. n + 100;
  next = 0;
  now = 5;
}

submits :
    (submit naturals request (codes "2*3") empty).0
    ≡ ok (pending_expression naturals request (codes "2*3"))
unfolding plan submit validate_expression check_all check check_operator finish trim_space encode
    parse tokenize Builder.build should_pop persist create_expression create_expression_tx
    insert_expression insert_task insert_tasks enqueue_task enqueue_audit enqueue_ready update
submits = refl

submit-IsStored_example :
    (n : Node ℕ) × (tasks : List (Task ℕ)) × (immediate : Option ℕ) × (validate_expression
        (codes "2*3")
      ≡ none)
    × (parse naturals (codes "2*3") ≡ ok n)
    × (plan request.new_uuid 100 1 n ≡ ok (tasks, immediate))
    × (pending_expression naturals request (codes "2*3")
        ≡ submitted_row naturals request (codes "2*3") immediate)
    × IsStored empty
        (pending_expression naturals request (codes "2*3"))
        tasks
        (submit naturals request (codes "2*3") empty).2
submit-IsStored_example =
    submit-IsStored naturals request (codes "2*3") empty
      (pending_expression naturals request (codes "2*3")) submits

refuses :
    (submit naturals request (codes "2*") empty).0
    ≡ err (new Code.invalid_input "expression ends with an operator")
unfolding submit validate_expression check_all check check_operator finish trim_space encode
refuses = refl

submit-rollback_example :
    submit naturals request (codes "2*") empty
    ≡ (err (new Code.invalid_input "expression ends with an operator"), [], empty)
submit-rollback_example =
    submit-rollback naturals request (codes "2*") empty
      (new Code.invalid_input "expression ends with an operator") refuses

total : (list (λ id. id) 1 0 sample_db).1 ≤ 2 * (page_bounds 1 0).0
unfolding list list_expressions create_expression create_expression_tx insert_expression insert_task
    insert_tasks enqueue_task enqueue_audit enqueue_ready
total = omega arith

first_pages-ordered_example :
    Perm (first_pages (λ id. id) 1 2 sample_db) sample_db.expressions
    × IsNewestFirst (λ id. id) (first_pages (λ id. id) 1 2 sample_db)
first_pages-ordered_example = first_pages-ordered (λ id. id) 1 sample_db 2 (omega arith) total

-- The same request, answered by an agent.
abbrev text : Text
text = codes "3*4"

abbrev ledger : Ledger
ledger = record { owner = λ id. 100; number = λ id. id - 100; text = λ id. text }

entered : IsEntered ledger request text
entered = record { owned = λ j. refl; numbered = λ j. omega arith; texted = refl }

abbrev waiting_db : Db ℕ
waiting_db = (submit naturals request text (new_db naturals)).2

abbrev product_reply : ResultMessage ℕ
product_reply = record reply { task_id = 101; expression_id = 100 }

abbrev finished_db : Db ℕ
finished_db = (apply_result naturals outside product_reply [] waiting_db).1

product_answered : IsReplyFrom naturals waiting_db product_reply
unfolding plan submit validate_expression check_all check check_operator finish trim_space encode
    parse tokenize Builder.build should_pop persist create_expression create_expression_tx
    insert_expression insert_task insert_tasks enqueue_task enqueue_audit enqueue_ready update apply
product_answered = record {
  before = [];
  behind = drop 1 waiting_db.outbox;
  id = 0;
  published = false;
  message = record {
    task_id = 101;
    expression_id = 100;
    op = Op.mul;
    arg1 = 3;
    arg2 = 4;
    attempt = 0;
  };
  trace = request.traceparent;
  stored = refl;
  computed = refl;
  task = refl;
  expression = refl;
}

submit-evaluates_example :
    All (λ e. IsValueOf (text_value naturals text) e.result) finished_db.expressions
submit-evaluates_example = submit-evaluates naturals ledger (
    next (submitted request text entered)
      (next (worked (result outside product_reply [] product_answered)) done))

-- 2 + 3 * 4: the sum, with the id 101, waits for the product, with the id 102, which has been started.
abbrev sum_text : Text
sum_text = codes "2+3*4"

abbrev started_db : Db ℕ
started_db = apply_started 102 "w" 1 (submit naturals request sum_text (new_db naturals)).2

-- The product is answered, and the expression with the id 100 goes on with its sum.
abbrev twelve_reply : ResultMessage ℕ
twelve_reply = record reply { task_id = 102; expression_id = 100 }

abbrev half_db : Db ℕ
half_db = (apply_result naturals outside twelve_reply [] started_db).1

abbrev half_done : ExpressionRow ℕ
half_done = record (pending_expression naturals request sum_text) {
  status = ExpressionStatus.in_progress;
}

twelve_named : NamesExpression twelve_reply started_db
unfolding plan submit validate_expression check_all check check_operator finish trim_space encode
    parse tokenize Builder.build should_pop persist create_expression create_expression_tx
    insert_expression insert_task insert_tasks enqueue_task enqueue_audit enqueue_ready update
twelve_named = (λ e. refl, (λ e. refl, tt))

half_stored : half_db.expressions ≡ half_done ∷ []
unfolding plan submit validate_expression check_all check check_operator finish trim_space encode
    parse tokenize Builder.build should_pop persist create_expression create_expression_tx
    insert_expression insert_task insert_tasks enqueue_task enqueue_audit enqueue_ready update
    apply_result apply_result_tx on_completed fan_in unlock_ready_dependents finish_result updated
half_stored = refl

submit-goes_on_example : (r : ℕ) × (is_root_of 100 r half_db.tasks ≡ true) × HasWoken half_db r
submit-goes_on_example =
    submit-goes_on naturals [] [] half_done
      (Progress.next (Progress.submitted request sum_text (λ i j e. omega (arith, e))) (
        Progress.next (Progress.started 102 "w" 1)
          (Progress.next (Progress.result outside twelve_reply [] twelve_named) Progress.done)))
      half_stored refl
