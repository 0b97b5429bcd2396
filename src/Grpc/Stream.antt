-- ===== src/Grpc/Stream.antt =====
-- server.go: the stream of `WatchExpression`, over what its turns meet.
use golang_service_architect.Common.{
  ℕ, Bool, true, false, not, ◌&&◌, Option, none, some, List, [], ◌∷◌, map, Result, ok, err, ◌==◌,
}
use golang_service_architect.Apperrors.{Error}
use golang_service_architect.Text.{Text}
use golang_service_architect.Float64.{Float64}
use golang_service_architect.Expression.Task.{Uuid}
use golang_service_architect.Messages.{ExpressionStatus}
use golang_service_architect.Persistent.Tables.{ExpressionRow, is_unfinished}
use golang_service_architect.Persistent.Reads.{Progress}
use golang_service_architect.Grpc.Server.{ProtoExpression, no_progress, to_proto, parse_id}

-- What a turn of `WatchExpression` meets: the context's end, or the clock with what the two reads
-- return and, should it send, what sending does.
pub data Tick (F : Type 0) : Type 0 where
  ended : Tick F
  ticked : Result Error (ExpressionRow F) → Result Error Progress → Option Error → Tick F

-- How far the stream got: it waits, or it has returned an error or none.
pub data StreamEnd : Type 0 where
  waiting closed : StreamEnd
  broken : Error → StreamEnd

abbrev pub same_status : ExpressionStatus → ExpressionStatus → Bool
same_status ExpressionStatus.pending ExpressionStatus.pending = true
same_status ExpressionStatus.in_progress ExpressionStatus.in_progress = true
same_status ExpressionStatus.done ExpressionStatus.done = true
same_status ExpressionStatus.failed ExpressionStatus.failed = true
same_status _ _ = false

-- `lastStatus`, which is empty at first.
abbrev pub is_last : Option ExpressionStatus → ExpressionStatus → Bool
is_last none status = false
is_last (some last) status = same_status last status

-- `progress, _ :=`: the error is dropped, and the zero value stands in its place.
abbrev pub or_no_progress : Result Error Progress → Progress
or_no_progress (ok p) = p
or_no_progress (err e) = no_progress

abbrev pub Update : Type 0 → Type 0
Update F = ExpressionRow F × Progress

module _ {F : Type 0} where
  -- A turn behind its reads, with what the turns behind it give.
  abbrev pub send_or_wait :
      Bool
      → Option Error
      → Bool
      → Update F
      → List (Update F) × StreamEnd
      → List (Update F) × StreamEnd
  send_or_wait true (some e) settled update rest = ([], broken e)
  send_or_wait true none true update rest = (update ∷ [], closed)
  send_or_wait true none false update rest = (update ∷ rest.0, rest.1)
  send_or_wait false sent true update rest = ([], closed)
  send_or_wait false sent false update rest = rest

  -- The loop of `WatchExpression`: what it sends, and how it ends.
  unfoldable pub watch_loop :
      Option ExpressionStatus → ℕ → List (Tick F) → List (Update F) × StreamEnd
  watch_loop last last_done [] = ([], waiting)
  watch_loop last last_done (ended ∷ ticks) = ([], closed)
  watch_loop last last_done (ticked (err e) read sent ∷ ticks) = ([], broken e)
  watch_loop last last_done (ticked (ok e) read sent ∷ ticks) =
      let p = or_no_progress read in
      let rest = watch_loop (some e.status) p.done ticks in
      send_or_wait (not (is_last last e.status && p.done == last_done)) sent
        (not (is_unfinished e.status)) (e, p) rest

-- `WatchExpression`, whose reads and sends the ticks tell.
unfoldable pub watch_expression :
    (fl : Float64)
    → (Text → Option Uuid)
    → Text
    → (Uuid → List (Tick fl.F))
    → List (ProtoExpression fl.F) × StreamEnd
unfolding parse_id watch_loop
watch_expression fl parse_uuid text ticks = elim (parse_id fl parse_uuid text) [
  | err e ↦ ([], broken e)
  | ok id ↦
      let (updates, end) = watch_loop none 0 (ticks id) in
      (map (λ (u : Update fl.F). to_proto fl u.0 u.1) updates, end)
]
