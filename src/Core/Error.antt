-- ===== src/Core/Error.antt =====
-- packages/core/src/error.ts: `ApiError`, its constructors by status, and the error middleware.
use karta_cards_vera.Common.{ℕ, String, Option, none}

-- An error that carries an HTTP status and a machine-readable code. `details` is kept where the
-- code supplies it (`vault_duplicate`); the human-readable message is not modelled.
pub record ApiError : Type 0 where
  pub status : ℕ
  pub code : String
  pub details : Option String

abbrev pub bad_request : String → ApiError
bad_request code = record { status = 400; code = code; details = none }

abbrev pub unauthorized : String → ApiError
unauthorized code = record { status = 401; code = code; details = none }

abbrev pub not_found : String → ApiError
not_found code = record { status = 404; code = code; details = none }

abbrev pub conflict : String → Option String → ApiError
conflict code details = record { status = 409; code = code; details = details }

abbrev pub gone : String → ApiError
gone code = record { status = 410; code = code; details = none }

abbrev pub internal : String → ApiError
internal code = record { status = 500; code = code; details = none }

-- What a handler may throw: an `ApiError`, a `ZodError`, or any other `Error` by its message.
pub data Thrown : Type 0 where
  api : ApiError → Thrown
  zod : Thrown
  other : String → Thrown

-- The response of `errorMiddleware`: the status and the body's `error.code` and `error.details`.
pub record ErrorBody : Type 0 where
  pub status : ℕ
  pub code : String
  pub details : Option String

unfoldable pub error_middleware : Thrown → ErrorBody
error_middleware (api e) = record { status = e.status; code = e.code; details = e.details }
error_middleware zod = record { status = 400; code = "validation_failed"; details = none }
error_middleware (other msg) = record { status = 500; code = "internal_error"; details = none }
