-- ===== src/Grpc/Tests.antt =====
-- Calls through the interceptors and a watch, over natural numbers in place of floats.
use golang_service_architect.Common.{
  ℕ, ◌+◌, ◌≡◌, refl, Option, none, some, [], ◌∷◌, Result, ok, err, map, if◌then◌else◌,
}
use golang_service_architect.Apperrors.{plain}
use golang_service_architect.Text.{Text, codes}
use golang_service_architect.Samples.{
  naturals, outside, empty, submitted, reply, answered, root_reply,
}
use golang_service_architect.Expression.Task.{Uuid}
use golang_service_architect.Expression.Service.{Request}
use golang_service_architect.Persistent.Tables.{ExpressionRow, Db, select, updated, update}
use golang_service_architect.Persistent.Enqueue.{
  insert_expression, insert_task, insert_tasks, enqueue_task, enqueue_ready, enqueue_audit,
}
use golang_service_architect.Persistent.Repo.{create_expression, create_expression_tx, apply_result}
use golang_service_architect.Persistent.Reads.{get_expression, get_progress}
use golang_service_architect.Persistent.History.{done, next, result}
use golang_service_architect.Messages.{ExpressionStatus}
use golang_service_architect.RateLimiter.{Limiter, new_limiter, allow}
use golang_service_architect.RateLimiter.Level.{exact}
use golang_service_architect.Grpc.{Failure, returned, panicked, Handler, Client, client_key, chain}
use golang_service_architect.Grpc.Server.{get_expression_of, get_task_graph}
use golang_service_architect.Grpc.Chain.{
  HasStatus, Agrees, submits, reads, chain-answers, chain-methods,
}
use golang_service_architect.Grpc.Stream.{watch_loop}
use golang_service_architect.Grpc.Watch.{watch_loop-tells}
use golang_service_architect.Grpc.Watch.Turns.{IsUpToDate, looks}

abbrev client : Client
client = record { forwarded_for = []; peer = some (codes "10.0.0.1") }

-- One token, with none to come.
abbrev limiter : Limiter naturals exact
limiter = new_limiter naturals exact (record { rate = 1; burst = 1000000000; ttl = 5 })

abbrev crashes : Handler ℕ ℕ
crashes w = (panicked, w + 1)

chain-answers_example :
    (r : Result Failure ℕ) × ((chain naturals exact client 3 crashes (limiter, 7)).0 ≡ returned r)
    × HasStatus r
    × ((chain naturals exact client 3 crashes (limiter, 7)).1.1
        ≡ (if (allow naturals exact (client_key client) 3 limiter).0 then 8 else 7))
chain-answers_example = chain-answers naturals exact client 3 crashes limiter 7

abbrev request : Request
request = record {
  traceparent = "00-1-1-01";
  trace_id = "1";
  new_uuid = λ n. n + 100;
  next = 0;
  now = 5;
}

abbrev parse_seven : Text → Option Uuid
parse_seven [] = none
parse_seven (c ∷ text) = some 7

chain-methods_example :
    Agrees naturals exact client 3 limiter (submits naturals request (codes "2*")) ([], empty)
    × Agrees naturals exact client 3 limiter
        (reads naturals (get_expression_of naturals parse_seven (codes "2*")))
        empty
    × Agrees naturals exact client 3 limiter
        (reads naturals (get_task_graph naturals parse_seven (codes "2*")))
        empty
chain-methods_example =
    chain-methods naturals exact client 3 limiter request parse_seven (codes "2*") [] empty

-- The row of the submitted expression.
abbrev row : ExpressionRow ℕ
row = record {
  id = 7;
  raw = b'2' ∷ [];
  status = ExpressionStatus.pending;
  result = none;
  error = none;
  trace_id = "t";
}

row-found : get_expression 7 submitted ≡ ok row
unfolding get_expression select create_expression create_expression_tx insert_expression
    insert_tasks insert_task enqueue_ready enqueue_task enqueue_audit
row-found = refl

abbrev finished : Db ℕ
finished = (apply_result naturals outside root_reply [] answered).1

-- The first read of the progress fails, and between the two reads of the second turn the last
-- task is answered.
watch_loop-tells_example :
    IsUpToDate 7 row
      (finished, ok finished)
      (watch_loop none 0 (
        looks 7 (
          (submitted, err (plain "timeout"))
          ∷ (answered, ok finished)
          ∷ (finished, ok finished)
          ∷ [])))
watch_loop-tells_example =
    watch_loop-tells naturals 7 (submitted, err (plain "timeout"))
      ((answered, ok finished) ∷ (finished, ok finished) ∷ []) row
      (
        tt,
        next (result outside reply []) done,
        (next (result outside root_reply []) done, done, done),
      )
      row-found

-- A read of the progress that fails is an update that goes back to none done.
goes_back :
    map
      (λ u. u.1.done)
      (watch_loop none 0
        (looks 7 ((answered, ok answered) ∷ (answered, err (plain "timeout")) ∷ []))).0
    ≡ 1 ∷ 0 ∷ []
unfolding watch_loop get_expression get_progress select create_expression create_expression_tx
    insert_expression insert_tasks insert_task enqueue_ready enqueue_task enqueue_audit apply_result
    updated update
goes_back = refl
