-- ===== src/Grpc/Server.antt =====
-- backend/internal/controller/grpc/v1/server.go. An id comes as a text, which `uuid.Parse` reads, a
-- parameter; a page number is not negative here.
use Prim.Native.Nat.{min}
use golang_service_architect.Common.{
  ℕ, ◌-◌, ◌^◌, String, Bool, true, false, Option, none, some, List, [], map, Result, ok, err,
}
use golang_service_architect.Apperrors.{Code, Error, new}
use golang_service_architect.Text.{Text}
use golang_service_architect.Float64.{Float64}
use golang_service_architect.Expression.Ast.{Op}
use golang_service_architect.Expression.Task.{TaskStatus, Uuid}
use golang_service_architect.Messages.{ExpressionStatus, Event}
use golang_service_architect.Persistent.Tables.{ExpressionRow, TaskRow, Db}
use golang_service_architect.Persistent.Reads.{Progress}
use golang_service_architect.Expression.Service.{Request, submit}
use golang_service_architect.Expression.Service.Reads.{get, progress, list, graph}
use golang_service_architect.Grpc.{Failure, app, status_from_error}

pub data ProtoStatus : Type 0 where
  unspecified pending in_progress done failed : ProtoStatus

-- `statusToProto`
abbrev pub status_to_proto : ExpressionStatus → ProtoStatus
status_to_proto ExpressionStatus.pending = ProtoStatus.pending
status_to_proto ExpressionStatus.in_progress = ProtoStatus.in_progress
status_to_proto ExpressionStatus.done = ProtoStatus.done
status_to_proto ExpressionStatus.failed = ProtoStatus.failed

pub data ProtoTaskStatus : Type 0 where
  unspecified pending ready running done failed : ProtoTaskStatus

-- `taskStatusToProto`
abbrev pub task_status_to_proto : TaskStatus → ProtoTaskStatus
task_status_to_proto TaskStatus.pending = ProtoTaskStatus.pending
task_status_to_proto TaskStatus.ready = ProtoTaskStatus.ready
task_status_to_proto TaskStatus.running = ProtoTaskStatus.running
task_status_to_proto TaskStatus.done = ProtoTaskStatus.done
task_status_to_proto TaskStatus.failed = ProtoTaskStatus.failed

-- `i32`, of a count.
abbrev pub i32 : ℕ → ℕ
i32 n = min n (2 ^ 31 - 1)

-- `calcv1.Expression`
pub record ProtoExpression (F : Type 0) : Type 0 where
  pub id : Uuid
  pub raw : Text
  pub status : ProtoStatus
  pub has_result : Bool
  pub result : F
  pub error : Text
  pub trace_id : String
  pub total : ℕ
  pub done : ℕ

-- `calcv1.TaskNode`; an id that is not set is an empty string there.
pub record ProtoTask (F : Type 0) : Type 0 where
  pub id : Uuid
  pub op : Op
  pub status : ProtoTaskStatus
  pub has_arg1_value : Bool
  pub arg1_value : F
  pub arg1_task_id : Option Uuid
  pub has_arg2_value : Bool
  pub arg2_value : F
  pub arg2_task_id : Option Uuid
  pub has_result : Bool
  pub result : F
  pub worker_id : String
  pub attempt : ℕ
  pub is_root : Bool

abbrev pub is_set : {F : Type 0} → Option F → Bool
is_set none = false
is_set (some v) = true

-- The zero value stands for a value that is not set.
abbrev pub value_or : {F : Type 0} → F → Option F → F
value_or zero_value none = zero_value
value_or zero_value (some v) = v

abbrev pub no_progress : Progress
no_progress = record { total = 0; done = 0 }

module _ (fl : Float64) where
  open fl use {F, nought}

  -- `toProto`
  unfoldable pub to_proto : ExpressionRow F → Progress → ProtoExpression F
  to_proto e p = record {
    id = e.id;
    raw = e.raw;
    status = status_to_proto e.status;
    has_result = is_set e.result;
    result = value_or nought e.result;
    error = value_or [] e.error;
    trace_id = e.trace_id;
    total = i32 p.total;
    done = i32 p.done;
  }

  -- `taskToProto`
  unfoldable pub task_to_proto : TaskRow F → ProtoTask F
  task_to_proto t = record {
    id = t.id;
    op = t.op;
    status = task_status_to_proto t.status;
    has_arg1_value = is_set t.arg1_value;
    arg1_value = value_or nought t.arg1_value;
    arg1_task_id = t.arg1_task_id;
    has_arg2_value = is_set t.arg2_value;
    arg2_value = value_or nought t.arg2_value;
    arg2_task_id = t.arg2_task_id;
    has_result = is_set t.result;
    result = value_or nought t.result;
    worker_id = t.worker_id;
    attempt = i32 t.attempt;
    is_root = t.is_root;
  }

  abbrev pub refused : {A : Type 0} → Error → Result Failure A
  refused e = err (status_from_error (app e))

  -- The end of a method: an error becomes a status.
  abbrev pub reply_with : {A B : Type 0} → (A → B) → Result Error A → Result Failure B
  reply_with convert (ok a) = ok (convert a)
  reply_with convert (err e) = refused e

  -- `SubmitExpression`, with the events that the service notifies of and the database behind it.
  unfoldable pub submit_expression :
      Request → Text → Db F → Result Failure (ProtoExpression F) × List (Event F) × Db F
  submit_expression req raw db =
      let (answer, events, db') = submit fl req raw db in
      (reply_with (λ e. to_proto e no_progress) answer, events, db')

  module _ (parse_uuid : Text → Option Uuid) where
    abbrev pub parsed_id : Option Uuid → Result Error Uuid
    parsed_id none = err (new Code.invalid_input "id must be a UUID")
    parsed_id (some id) = ok id

    -- `ParseID`
    unfoldable pub parse_id : Text → Result Error Uuid
    parse_id text = parsed_id (parse_uuid text)

    -- A method that reads an id first.
    abbrev pub with_id :
        {A : Type 0} → (Uuid → Result Failure A) → Result Error Uuid → Result Failure A
    with_id method (ok id) = method id
    with_id method (err e) = refused e

    -- `GetExpression`
    unfoldable pub get_expression_of : Text → Db F → Result Failure (ProtoExpression F)
    unfolding parse_id
    get_expression_of text db =
        with_id (λ id. reply_with (λ e. to_proto e (progress id db)) (get id db)) (parse_id text)

    -- `GetTaskGraph`
    unfoldable pub get_task_graph : Text → Db F → Result Failure (Uuid × List (ProtoTask F))
    unfolding parse_id
    get_task_graph text db =
        with_id (λ id. reply_with (λ tasks. (id, map task_to_proto tasks)) (graph id db))
          (parse_id text)

  -- `ListExpressions`
  unfoldable pub list_of : (Uuid → ℕ) → ℕ → ℕ → Db F → List (ProtoExpression F) × ℕ
  list_of created page_size page db =
      let (rows, total) = list created page_size page db in
      (map (λ e. to_proto e no_progress) rows, total)
