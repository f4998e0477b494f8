-- ===== src/Server/Errors.antt =====
-- src/server.rs: `ApiError`, and the status and header of its response.
use hetero_paged_infer.Error.{
  max_concurrent_sequences_reached, unsupported_generation_mode, too_many_stop_sequences,
  invalid_top_p, invalid_temperature, invalid_max_tokens, total_length_too_long, input_too_long,
  error_text, EngineError, Message,
}
use Prim.Native.String.{String}
use hetero_paged_infer.Prelude.{ℕ, Option, none, some}
use hetero_paged_infer.Prelude.Tests.{◌==◌, if◌then◌else◌}
use hetero_paged_infer.Error.{
  EngineError, Message, empty_input, input_too_long, total_length_too_long, invalid_max_tokens,
  invalid_temperature, invalid_top_p, too_many_stop_sequences, unsupported_generation_mode,
  memory_pressure, max_concurrent_sequences_reached, error_text,
}

pub data ApiError : Type 0 where
  bad_request not_found overloaded internal : Message → ApiError

-- `From<EngineError>`
unfoldable pub of_engine_error : EngineError → ApiError
of_engine_error empty_input = bad_request (error_text empty_input)
of_engine_error (input_too_long n most) = bad_request (error_text (input_too_long n most))
of_engine_error (total_length_too_long n most) =
    bad_request (error_text (total_length_too_long n most))
of_engine_error (invalid_max_tokens n) = bad_request (error_text (invalid_max_tokens n))
of_engine_error (invalid_temperature x) = bad_request (error_text (invalid_temperature x))
of_engine_error (invalid_top_p x) = bad_request (error_text (invalid_top_p x))
of_engine_error (too_many_stop_sequences n) = bad_request (error_text (too_many_stop_sequences n))
of_engine_error (unsupported_generation_mode m) =
    bad_request (error_text (unsupported_generation_mode m))
of_engine_error memory_pressure = overloaded (error_text memory_pressure)
of_engine_error (max_concurrent_sequences_reached n) =
    overloaded (error_text (max_concurrent_sequences_reached n))
of_engine_error e = internal (error_text e)

-- The body's two texts, the status, and the header `Retry-After`.
pub record ErrorResponse : Type 0 where
  pub status : ℕ
  pub error_type : String
  pub message : Message
  pub retry_after : Option String

abbrev pub status_of : ApiError → ℕ
status_of (bad_request m) = 400
status_of (not_found m) = 404
status_of (overloaded m) = 429
status_of (internal m) = 500

abbrev pub type_of : ApiError → String
type_of (bad_request m) = "invalid_request_error"
type_of (not_found m) = "invalid_request_error"
type_of (overloaded m) = "overloaded_error"
type_of (internal m) = "internal_error"

abbrev pub message_of : ApiError → Message
message_of (bad_request m) = m
message_of (not_found m) = m
message_of (overloaded m) = m
message_of (internal m) = m

unfoldable pub into_response : ApiError → ErrorResponse
into_response e = record {
  status = status_of e;
  error_type = type_of e;
  message = message_of e;
  retry_after = if status_of e == 429 then some "1" else none;
}
