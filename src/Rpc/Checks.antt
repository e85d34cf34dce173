-- ===== src/Rpc/Checks.antt =====
-- The checks of RpcWire.cc on metadata and on the error of a response, and the maps between the local
-- enumerations and those of the wire.
use bbtools_infra.Common.{
  ℕ, Bool, true, false, ◌||◌, not, Option, none, some, List, [], ◌∷◌, ◌++◌, ltb, if◌then◌else◌,
  is_empty, length,
}
use bbtools_infra.Rpc.Text.{codes, starts_with, is_valid_utf8}
use bbtools_infra.Rpc.Errors.{
  ErrorCode, RequestPhase, Error, Result, ok, err, make_error, has_key, max_key_bytes,
  max_value_bytes, validate_error_details,
}
use bbtools_infra.Rpc.Message.{RpcErrorCode, RpcRequestPhase}

unfoldable pub to_proto_error_code : ErrorCode → RpcErrorCode
to_proto_error_code ErrorCode.invalid_argument = RpcErrorCode.invalid_argument
to_proto_error_code ErrorCode.invalid_context = RpcErrorCode.invalid_context
to_proto_error_code ErrorCode.runtime_unavailable = RpcErrorCode.runtime_unavailable
to_proto_error_code ErrorCode.closed = RpcErrorCode.closed
to_proto_error_code ErrorCode.cancelled = RpcErrorCode.cancelled
to_proto_error_code ErrorCode.timed_out = RpcErrorCode.timed_out
to_proto_error_code ErrorCode.overloaded = RpcErrorCode.overloaded
to_proto_error_code ErrorCode.unavailable = RpcErrorCode.unavailable
to_proto_error_code ErrorCode.transport_error = RpcErrorCode.transport_error
to_proto_error_code ErrorCode.protocol_error = RpcErrorCode.protocol_error
to_proto_error_code ErrorCode.not_found = RpcErrorCode.not_found
to_proto_error_code ErrorCode.type_mismatch = RpcErrorCode.type_mismatch
to_proto_error_code ErrorCode.unsupported_route = RpcErrorCode.unsupported_route
to_proto_error_code ErrorCode.outcome_unknown = RpcErrorCode.outcome_unknown
to_proto_error_code ErrorCode.remote_error = RpcErrorCode.remote_error
to_proto_error_code ErrorCode.internal_error = RpcErrorCode.internal_error
to_proto_error_code (ErrorCode.unnamed n) = RpcErrorCode.internal_error

unfoldable pub from_proto_error_code : RpcErrorCode → ErrorCode
from_proto_error_code RpcErrorCode.invalid_argument = ErrorCode.invalid_argument
from_proto_error_code RpcErrorCode.invalid_context = ErrorCode.invalid_context
from_proto_error_code RpcErrorCode.runtime_unavailable = ErrorCode.runtime_unavailable
from_proto_error_code RpcErrorCode.closed = ErrorCode.closed
from_proto_error_code RpcErrorCode.cancelled = ErrorCode.cancelled
from_proto_error_code RpcErrorCode.timed_out = ErrorCode.timed_out
from_proto_error_code RpcErrorCode.overloaded = ErrorCode.overloaded
from_proto_error_code RpcErrorCode.unavailable = ErrorCode.unavailable
from_proto_error_code RpcErrorCode.transport_error = ErrorCode.transport_error
from_proto_error_code RpcErrorCode.protocol_error = ErrorCode.protocol_error
from_proto_error_code RpcErrorCode.not_found = ErrorCode.not_found
from_proto_error_code RpcErrorCode.type_mismatch = ErrorCode.type_mismatch
from_proto_error_code RpcErrorCode.unsupported_route = ErrorCode.unsupported_route
from_proto_error_code RpcErrorCode.outcome_unknown = ErrorCode.outcome_unknown
from_proto_error_code RpcErrorCode.remote_error = ErrorCode.remote_error
from_proto_error_code RpcErrorCode.internal_error = ErrorCode.internal_error
from_proto_error_code RpcErrorCode.unspecified = ErrorCode.protocol_error
from_proto_error_code (RpcErrorCode.other n) = ErrorCode.protocol_error

-- none is the answer false.
unfoldable pub to_proto_request_phase : RequestPhase → Option RpcRequestPhase
to_proto_request_phase RequestPhase.not_started = some RpcRequestPhase.not_started
to_proto_request_phase RequestPhase.connecting = some RpcRequestPhase.connecting
to_proto_request_phase RequestPhase.writing = some RpcRequestPhase.writing
to_proto_request_phase RequestPhase.request_committed = some RpcRequestPhase.request_committed
to_proto_request_phase RequestPhase.reply_terminal = some RpcRequestPhase.reply_terminal
to_proto_request_phase (RequestPhase.unnamed n) = none

abbrev unrecognized_phase : Result (Option RequestPhase)
unrecognized_phase =
    err (make_error ErrorCode.protocol_error (codes "unrecognized request_phase value"))

unfoldable pub from_proto_request_phase : Option RpcRequestPhase → Result (Option RequestPhase)
from_proto_request_phase none = ok none
from_proto_request_phase (some RpcRequestPhase.not_started) = ok (some RequestPhase.not_started)
from_proto_request_phase (some RpcRequestPhase.connecting) = ok (some RequestPhase.connecting)
from_proto_request_phase (some RpcRequestPhase.writing) = ok (some RequestPhase.writing)
from_proto_request_phase (some RpcRequestPhase.request_committed) =
    ok (some RequestPhase.request_committed)
from_proto_request_phase (some RpcRequestPhase.reply_terminal) =
    ok (some RequestPhase.reply_terminal)
from_proto_request_phase (some RpcRequestPhase.unspecified) = unrecognized_phase
from_proto_request_phase (some (RpcRequestPhase.other n)) = unrecognized_phase

unfoldable pub has_meta_prefix : List ℕ → Bool
has_meta_prefix key =
    starts_with (codes "fw.") key
    || (starts_with (codes "route.") key || starts_with (codes "trace.") key)

abbrev pub max_metadata_items : ℕ
max_metadata_items = 32

abbrev protocol_error : List ℕ → Option Error
protocol_error text = some (make_error ErrorCode.protocol_error text)

abbrev invalid_argument : List ℕ → Option Error
invalid_argument text = some (make_error ErrorCode.invalid_argument text)

-- The rounds of the loop of `ValidateMetadata`, with the entries before and the entries left.
unfoldable pub metadata_loop : List (List ℕ × List ℕ) → List (List ℕ × List ℕ) → Option Error
metadata_loop before [] = none
metadata_loop before ((k, v) ∷ rest) =
    let next = metadata_loop (before ++ (k, v) ∷ []) rest in
    if is_empty k || ltb 64 (length k)
    then protocol_error (codes "metadata key empty or exceeds max bytes")
    else if ltb 256 (length v)
    then protocol_error (codes "metadata value exceeds max bytes")
    else if not (has_meta_prefix k)
    then protocol_error (codes "metadata key uses unregistered prefix")
    else if not (is_valid_utf8 k) || not (is_valid_utf8 v)
    then protocol_error (codes "metadata not valid UTF-8")
    else if has_key k before
    then protocol_error (codes "metadata duplicate key")
    else next

unfoldable pub validate_metadata : List (List ℕ × List ℕ) → Option Error
validate_metadata md =
    if ltb max_metadata_items (length md)
    then protocol_error (codes "metadata exceeds max item count")
    else metadata_loop [] md

abbrev pub is_some : Option RpcRequestPhase → Bool
is_some none = false
is_some (some phase) = true

-- No phase is present, or `ToProtoRequestPhase` answers true.
abbrev pub is_valid_phase : Option RequestPhase → Bool
is_valid_phase none = true
is_valid_phase (some phase) = is_some (to_proto_request_phase phase)

unfoldable pub validate_error_branch : Error → Option Error
validate_error_branch e =
    if not (is_valid_utf8 e.domain)
      || (not (is_valid_utf8 e.domain_code)
          || (not (is_valid_utf8 e.message) || not (is_valid_utf8 e.backend_category)))
    then invalid_argument (codes "error string fields not valid UTF-8")
    else if ltb max_key_bytes (length e.domain)
        || (ltb max_key_bytes (length e.domain_code)
            || ltb max_key_bytes (length e.backend_category))
    then invalid_argument (codes "error domain/domain_code/backend_category exceeds max bytes")
    else if ltb max_value_bytes (length e.message)
    then invalid_argument (codes "error message exceeds max bytes")
    else if not (is_valid_phase e.request_phase)
    then protocol_error (codes "request_phase value is not a valid local phase")
    else validate_error_details e
