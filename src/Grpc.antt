-- ===== src/Grpc.antt =====
-- backend/internal/controller/grpc: the errors of the gRPC servers, the interceptors and the server
-- of expressions. What protoc generates are records with the fields that the server sets, without
-- timestamps; a context only carries a trace.
pub mod Server
pub mod Stream
pub mod Watch
pub mod Chain
mod Tests
use golang_service_architect.Common.{
  ℕ, String, Bool, true, false, ◌||◌, Option, none, some, List, [], ◌∷◌, Result, ok, err, ◌==◌,
}
use golang_service_architect.Apperrors.{Code, Error, code_of}
use golang_service_architect.Text.{Text, codes}
use golang_service_architect.Float64.{Float64}
use golang_service_architect.RateLimiter.{Gauge, Limiter, allow}

-- `codes.Code`, as far as it is used.
pub data GrpcCode : Type 0 where
  invalid_argument not_found already_exists resource_exhausted unavailable internal : GrpcCode

-- `grpcCode`
abbrev pub grpc_code : Code → GrpcCode
grpc_code Code.invalid_input = GrpcCode.invalid_argument
grpc_code Code.division_by_zero = GrpcCode.invalid_argument
grpc_code Code.not_found = GrpcCode.not_found
grpc_code Code.conflict = GrpcCode.already_exists
grpc_code Code.rate_limited = GrpcCode.resource_exhausted
grpc_code Code.overloaded = GrpcCode.resource_exhausted
grpc_code Code.unavailable = GrpcCode.unavailable
grpc_code Code.internal = GrpcCode.internal

-- What a handler returns as its error: an error of the program, or a status of gRPC with its
-- message, a text or what an error prints. No error of the program wraps a status.
pub data Failure : Type 0 where
  app : Error → Failure
  status : GrpcCode → String → Failure
  status_of : GrpcCode → Error → Failure

-- `StatusFromError`, on an error.
unfoldable pub status_from_error : Failure → Failure
unfolding code_of
status_from_error (app e) = status_of (grpc_code (code_of e)) e
status_from_error (status code message) = status code message
status_from_error (status_of code e) = status_of code e

-- How a handler ends.
pub data Ending (A : Type 0) : Type 0 where
  returned : Result Failure A → Ending A
  panicked : Ending A

abbrev pub Handler : Type 0 → Type 0 → Type 0
Handler W A = W → Ending A × W

-- What the context of a call tells of its client: the values of x-forwarded-for and its peer.
pub record Client : Type 0 where
  pub forwarded_for : List Text
  pub peer : Option Text

abbrev pub peer_key : Option Text → Text
peer_key none = codes "unknown"
peer_key (some address) = address

-- `clientKey`
abbrev pub client_key : Client → Text
client_key c = elim c.forwarded_for [
  | [] ↦ peer_key c.peer
  | [] ∷ _ ↦ peer_key c.peer
  | (ch ∷ text) ∷ _ ↦ ch ∷ text
]

abbrev pub map_error : {A : Type 0} → Ending A → Ending A
map_error (returned (err e)) = returned (err (status_from_error e))
map_error (returned (ok a)) = returned (ok a)
map_error panicked = panicked

abbrev pub recover : {A : Type 0} → Ending A → Ending A
recover (returned r) = returned r
recover panicked = returned (err (status GrpcCode.internal "internal error"))

module _ {W A : Type 0} where
  -- `MapErrors`
  unfoldable pub map_errors : Handler W A → Handler W A
  map_errors handler w = let (end, w') = handler w in (map_error end, w')

  -- `Recovery`
  unfoldable pub recovery : Handler W A → Handler W A
  recovery handler w = let (end, w') = handler w in (recover end, w')

module _ {W A : Type 0} (fl : Float64) (gauge : Gauge fl) where
  abbrev pub limited : Bool × Limiter fl gauge → Handler W A → W → Ending A × (Limiter fl gauge × W)
  limited (true, l) handler w = let (end, w') = handler w in (end, (l, w'))
  limited (false, l) handler w = (
    returned (err (status GrpcCode.resource_exhausted "rate limit exceeded, retry later")),
    (l, w),
  )

  -- `RateLimit`, for a call at a time.
  unfoldable pub rate_limit : Client → ℕ → Handler W A → Handler (Limiter fl gauge × W) A
  rate_limit client now handler (l, w) =
      limited (allow fl gauge (client_key client) now l) handler w

  -- `Chain`
  unfoldable pub chain : Client → ℕ → Handler W A → Handler (Limiter fl gauge × W) A
  unfolding map_errors rate_limit recovery
  chain client now handler = recovery (rate_limit client now (map_errors handler))
