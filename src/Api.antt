-- ===== src/Api.antt =====
-- What the handlers of crates/attesta-api share: the error answers of crates/attesta-api/src/error.rs, the queries, and
-- the texts of bytes. The hexadecimal codec of the `hex` crate is a parameter, and so is SHA-256.
use Prim.Native.String.{◌++◌ as str_append}
use attesta_protocol_backend.Prelude.{ℕ, String, Option, none, some}
use attesta_protocol_backend.Prelude.Bytes.{Bytes}
use attesta_protocol_backend.Prelude.Exec.{ok, err, Exec}
use attesta_protocol_backend.Prelude.Run.{Run, returns, panics}

pub record ApiError : Type 0 where
  pub status : ℕ
  pub message : String

abbrev pub not_found : String → ApiError
not_found message = record { status = 404; message = message }

abbrev pub bad_request : String → ApiError
bad_request message = record { status = 400; message = message }

abbrev pub forbidden : String → ApiError
forbidden message = record { status = 403; message = message }

abbrev pub conflict : String → ApiError
conflict message = record { status = 409; message = message }

abbrev pub too_many_requests : String → ApiError
too_many_requests message = record { status = 429; message = message }

-- `From<sqlx::Error>`
abbrev pub internal_error : ApiError
internal_error = record { status = 500; message = "internal error" }

-- How a handler can end without a response of its own.
pub data Fault : Type 0 where
  answers_error : ApiError → Fault
  panicked : Fault

-- A step that may panic.
abbrev pub lift : {S A : Type 0} → Run A → Exec S Fault A
lift (returns a) s = (ok a, s)
lift panics s = (err panicked, s)

-- `.ok_or(error)?`
abbrev pub or_error : {S A : Type 0} → ApiError → Option A → Exec S Fault A
or_error e (some a) s = (ok a, s)
or_error e none s = (err (answers_error e), s)

pub record Hex : Type 0 where
  pub encode : Bytes → String
  pub decode : String → Option Bytes

-- `CoreError`, with the messages of the errors of other code.
pub data CoreError : Type 0 where
  db : String → CoreError
  migrate : String → CoreError
  unknown_pool : String → CoreError
  commitment_not_found : CoreError
  invalid_input : String → CoreError

-- `From<CoreError>`
unfoldable pub of_core_error : CoreError → ApiError
of_core_error (unknown_pool p) = not_found (str_append "unknown pool: " p)
of_core_error commitment_not_found = not_found "commitment not found"
of_core_error (invalid_input m) = bad_request m
of_core_error (db e) = internal_error
of_core_error (migrate e) = internal_error
