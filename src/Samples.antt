-- ===== src/Samples.antt =====
-- Data for the concrete runs of the development.
use golang_service_architect.Common.{
  ◌≡◌, refl, ◌⊎◌, inl, Bool, ok, ltb, false, ℕ, ◌+◌, ◌-◌, ◌*◌, ◌/◌, true, Option, none, some, List,
  [], ◌∷◌, ◌==◌, leb, ◌&&◌, if◌then◌else◌,
}
use golang_service_architect.Float64.{Float64}
use golang_service_architect.Expression.Ast.{Op}
use golang_service_architect.Expression.Task.{Task, TaskStatus}
use golang_service_architect.Messages.{ResultMessage, ResultKind}
use golang_service_architect.Persistent.Tables.{Db}
use golang_service_architect.Persistent.Enqueue.{Outside}
use golang_service_architect.RabbitMq.Publisher.{Publishing, Amqp}
use golang_service_architect.Persistent.Repo.{create_expression, apply_result}

abbrev push_digit : Option ℕ → ℕ → Option ℕ
push_digit none c = none
push_digit (some n) c = if leb b'0' c && leb c b'9' then some (n * 10 + (c - b'0')) else none

abbrev digits : Option ℕ → List ℕ → Option ℕ
digits n [] = n
digits n (c ∷ cs) = digits (push_digit n c) cs

abbrev pub read_digits : List ℕ → Option ℕ
read_digits [] = none
read_digits (c ∷ cs) = digits (some 0) (c ∷ cs)

-- Natural numbers in place of floats, with decimal digits.
abbrev pub naturals : Float64
naturals = record {
  F = ℕ;
  nought = 0;
  plus = λ a b. a + b;
  minus = λ a b. a - b;
  times = λ a b. a * b;
  over = λ a b. a / b;
  is_nought = λ a. a == 0;
  is_finite = λ a. true;
  parse_float = read_digits;
}

-- The expression 2 + 3 * 4, submitted, and the agents' answers.
abbrev pub outside : Outside
outside = record { traceparent = "00-1-1-01"; audit_id = 90; now = 5 }

abbrev pub product : Task ℕ
product = record {
  id = 0;
  expression_id = 7;
  op = Op.mul;
  arg1_value = some 3;
  arg1_task_id = none;
  arg2_value = some 4;
  arg2_task_id = none;
  unmet_deps = 0;
  status = TaskStatus.pending;
  result = none;
  attempt = 0;
  worker_id = "";
  is_root = false;
}

abbrev pub total : Task ℕ
total = record product {
  id = 1;
  op = Op.add;
  arg1_value = some 2;
  arg2_value = none;
  arg2_task_id = some 0;
  unmet_deps = 1;
  is_root = true;
}

abbrev pub empty : Db ℕ
empty = record { expressions = []; tasks = []; outbox = []; next_outbox = 1 }

abbrev pub submitted : Db ℕ
submitted = (create_expression naturals outside 7 (b'2' ∷ []) "t" (product ∷ total ∷ []) [] empty).1

abbrev pub reply : ResultMessage ℕ
reply = record {
  kind = ResultKind.ok;
  task_id = 0;
  expression_id = 7;
  result = 12;
  error = [];
  error_code = none;
  worker_id = "w1";
  attempt = 0;
  compute_ms = 3;
}

abbrev pub answered : Db ℕ
answered = (apply_result naturals outside reply [] submitted).1

abbrev pub root_reply : ResultMessage ℕ
root_reply = record reply { task_id = 1; result = 14 }

-- A broker that keeps what is published; its first channel is closed, the next one confirms.
abbrev pub Broker : Type 0
Broker = List (Publishing ℕ)

abbrev pub library : Amqp ℕ Broker ℕ Bool
library = record {
  channel = λ w. (ok 1, w);
  is_closed = λ ch w. ltb ch 1;
  confirm = λ ch w. (none, w);
  close = λ ch w. w;
  publish_deferred = λ ch p w. (ok true, p ∷ w);
  wait_confirm = λ conf w. (ok conf, w);
}

-- What it keeps.
abbrev pub IsIn : Publishing ℕ → Broker → Type 0
IsIn p [] = ⊥
IsIn p (q ∷ w) = (p ≡ q) ⊎ IsIn p w

pub confirm_in :
    (ch : ℕ) (p : Publishing ℕ) (w : Broker) (conf : Bool)
    → (library.publish_deferred ch p w).0 ≡ ok conf
    → (library.wait_confirm conf (library.publish_deferred ch p w).1).0 ≡ ok true
    → IsIn p (library.wait_confirm conf (library.publish_deferred ch p w).1).1
confirm_in ch p w conf h h' = inl refl
