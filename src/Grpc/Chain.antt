-- ===== src/Grpc/Chain.antt =====
-- interceptors.go and server.go: what a client is answered through the interceptors.
use golang_service_architect.Common.{
  ℕ, ◌≡◌, refl, ◌∙◌, ap, Bool, true, false, Option, List, ◌++◌, Result, ok, err, Bool-cases, inl,
  inr, if◌then◌else◌,
}
use golang_service_architect.Apperrors.{Error}
use golang_service_architect.Text.{Text}
use golang_service_architect.Float64.{Float64}
use golang_service_architect.RateLimiter.{Gauge, Limiter, allow}
use golang_service_architect.Expression.Task.{Uuid}
use golang_service_architect.Expression.Service.{Request, submit}
use golang_service_architect.Expression.Service.Reads.{get, graph}
use golang_service_architect.Messages.{Event}
use golang_service_architect.Persistent.Tables.{Db}
use golang_service_architect.Grpc.{
  GrpcCode, Failure, app, status, status_of, status_from_error, Ending, returned, panicked, Handler,
  Client, client_key, map_error, recover, chain,
}
use golang_service_architect.Grpc.Server.{
  ProtoExpression, reply_with, with_id, submit_expression, get_expression_of, get_task_graph,
  parse_id,
}

-- An error is a status of gRPC.
abbrev pub HasStatus : {A : Type 0} → Result Failure A → Type 0
HasStatus (ok a) = Unit
HasStatus (err (app e)) = ⊥
HasStatus (err (status code message)) = Unit
HasStatus (err (status_of code e)) = Unit

-- The answer to a client that the limiter turns away.
abbrev pub turned_away : {A : Type 0} → Result Failure A
turned_away = err (status GrpcCode.resource_exhausted "rate limit exceeded, retry later")

status_from_error-HasStatus :
    (A : Type 0) (e : Failure) → HasStatus {A = A} (err (status_from_error e))
unfolding status_from_error
status_from_error-HasStatus A (app e) = tt
status_from_error-HasStatus A (status code message) = tt
status_from_error-HasStatus A (status_of code e) = tt

-- A status is passed on as it is.
map_error-returned :
    {A : Type 0} (r : Result Failure A) → HasStatus r → map_error (returned r) ≡ returned r
unfolding status_from_error
map_error-returned (ok a) h = refl
map_error-returned (err (app e)) h = absurd h
map_error-returned (err (status code message)) h = refl
map_error-returned (err (status_of code e)) h = refl

answer-HasStatus :
    {A : Type 0} (end : Ending A)
    → (r : Result Failure A) × (recover (map_error end) ≡ returned r) × HasStatus r
answer-HasStatus (returned (ok a)) = (ok a, refl, tt)
answer-HasStatus {A} (returned (err e)) =
    (err (status_from_error e), refl, status_from_error-HasStatus A e)
answer-HasStatus panicked = (err (status GrpcCode.internal "internal error"), refl, tt)

module _ {W A : Type 0} (fl : Float64) (gauge : Gauge fl) (client : Client) (now : ℕ)
    (handler : Handler W A) (l : Limiter fl gauge) (w : W) where
  chain-allowed :
      (allow fl gauge (client_key client) now l).0 ≡ true
      → chain fl gauge client now handler (l, w) ≡ (
        recover (map_error (handler w).0),
        ((allow fl gauge (client_key client) now l).1, (handler w).1),
      )
  unfolding chain
  chain-allowed h = rw h refl

  chain-refused :
      (allow fl gauge (client_key client) now l).0 ≡ false
      → chain fl gauge client now handler (l, w)
        ≡ (returned turned_away, ((allow fl gauge (client_key client) now l).1, w))
  unfolding chain
  chain-refused h = rw h refl

  -- Whatever a handler does, a call through the interceptors returns, panics included, and its
  -- error is a status of gRPC. The handler takes effect only if the limiter allows its client.
  pub chain-answers :
      (r : Result Failure A) × ((chain fl gauge client now handler (l, w)).0 ≡ returned r)
      × HasStatus r
      × ((chain fl gauge client now handler (l, w)).1.1
          ≡ (if (allow fl gauge (client_key client) now l).0 then (handler w).1 else w))
  chain-answers = elim (Bool-cases (allow fl gauge (client_key client) now l).0) [
    | inl h ↦
        let (r, same, has) = answer-HasStatus (handler w).0 in
        (r, ap (λ p. p.0) (chain-allowed h) ∙ same, has, rw (h) (ap (λ p. p.1.1) (chain-allowed h)))
    | inr h ↦ (
      turned_away,
      ap (λ p. p.0) (chain-refused h),
      tt,
      rw (h) (ap (λ p. p.1.1) (chain-refused h)),
    )
  ]

-- What a call of a method is answered behind the interceptors.
abbrev pub behind : {W A L : Type 0} → Bool → L → W → Result Failure A × W → Ending A × (L × W)
behind true l w (r, w') = (returned r, (l, w'))
behind false l w (r, w') = (returned turned_away, (l, w))

-- A method as a handler.
abbrev pub handler_of : {W A : Type 0} → (W → Result Failure A × W) → Handler W A
handler_of method w = let (r, w') = method w in (returned r, w')

module _ (fl : Float64) where
  open fl use {F}

  -- The methods, on the events that were notified and the database.
  abbrev pub submits :
      Request
      → Text
      → List (Event F) × Db F
      → Result Failure (ProtoExpression F) × (List (Event F) × Db F)
  submits req raw (events, db) =
      let (answer, more, db') = submit_expression fl req raw db in (answer, (events ++ more, db'))

  abbrev pub reads : {A : Type 0} → (Db F → Result Failure A) → Db F → Result Failure A × Db F
  reads method db = (method db, db)

module _ (fl : Float64) (gauge : Gauge fl) (client : Client) (now : ℕ) (l : Limiter fl gauge) where
  open fl use {F}

  -- A method is answered behind the interceptors as without them, or its client is turned away.
  abbrev pub Agrees : {W A : Type 0} → (W → Result Failure A × W) → W → Type 0
  Agrees method w =
      chain fl gauge client now (handler_of method) (l, w)
      ≡ behind (allow fl gauge (client_key client) now l).0
          (allow fl gauge (client_key client) now l).1 w (method w)

  chain-method :
      {W A : Type 0} (method : W → Result Failure A × W) (w : W)
      → HasStatus (method w).0
      → Agrees method w
  chain-method method w has = elim (Bool-cases (allow fl gauge (client_key client) now l).0) [
    | inl h ↦ rw (h) (
        chain-allowed fl gauge client now (handler_of method) l w h
        ∙ ap (λ e. (recover e, ((allow fl gauge (client_key client) now l).1, (method w).1)))
            (map_error-returned (method w).0 has))
    | inr h ↦ rw (h) (chain-refused fl gauge client now (handler_of method) l w h)
  ]

  reply_with-HasStatus :
      {A B : Type 0} (convert : A → B) (r : Result Error A) → HasStatus (reply_with fl convert r)
  unfolding status_from_error
  reply_with-HasStatus convert (ok a) = tt
  reply_with-HasStatus convert (err e) = tt

  with_id-HasStatus :
      {A : Type 0} (parse_uuid : Text → Option Uuid) (method : Uuid → Result Failure A)
      (r : Result Error Uuid)
      → ((id : Uuid) → HasStatus (method id))
      → HasStatus (with_id fl parse_uuid method r)
  unfolding status_from_error
  with_id-HasStatus parse_uuid method (ok id) has = has id
  with_id-HasStatus parse_uuid method (err e) has = tt

  -- Through the network, where the interceptors stand before the methods, a client that the limiter
  -- allows is answered as through the gateway, which calls the methods itself; another one is
  -- turned away, and nothing happens.
  pub chain-methods :
      (req : Request) (parse_uuid : Text → Option Uuid) (text : Text) (events : List (Event F))
      (db : Db F)
      → Agrees (submits fl req text) (events, db)
        × Agrees (reads fl (get_expression_of fl parse_uuid text)) db
        × Agrees (reads fl (get_task_graph fl parse_uuid text)) db
  unfolding submit_expression get_expression_of get_task_graph
  chain-methods req parse_uuid text events db = (
    chain-method (submits fl req text) (events, db)
        (reply_with-HasStatus _ (submit fl req text db).0),
    chain-method (reads fl (get_expression_of fl parse_uuid text)) db (
        with_id-HasStatus parse_uuid _ (parse_id fl parse_uuid text)
          (λ id. reply_with-HasStatus _ (get id db))),
    chain-method (reads fl (get_task_graph fl parse_uuid text)) db (
        with_id-HasStatus parse_uuid _ (parse_id fl parse_uuid text)
          (λ id. reply_with-HasStatus _ (graph id db))),
  )
