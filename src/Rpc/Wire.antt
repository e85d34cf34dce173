-- ===== src/Rpc/Wire.antt =====
-- The envelope of RpcWire.hpp, and its encoding and decoding in RpcWire.cc. What protobuf does is the
-- parameter `P`.
use bbtools_infra.Common.{
  ℕ, ◌%◌, ◌^◌, Bool, true, false, ◌&&◌, ◌||◌, not, Option, none, some, List, map, ltb, ◌==◌,
  if◌then◌else◌, is_empty, length,
}
use bbtools_infra.Rpc.Text.{codes, is_valid_utf8}
use bbtools_infra.Rpc.Errors.{
  ErrorCode, RequestPhase, Error, Result, ok, err, make_error, default_error,
}
use bbtools_infra.Rpc.Message.{
  RpcRequestPhase, RpcError, MetadataEntry, Outcome, unset, success, failure, RpcEnvelopeMsg,
  Protobuf,
}
use bbtools_infra.Rpc.Checks.{
  to_proto_error_code, from_proto_error_code, to_proto_request_phase, from_proto_request_phase,
  validate_metadata, validate_error_branch,
}

pub record RpcWireEnvelope : Type 0 where
  pub profile_version : ℕ
  pub request_id : List ℕ
  pub service : List ℕ
  pub method : List ℕ
  pub remaining_budget_ms : ℕ
  pub request_schema : List ℕ
  pub response_schema : List ℕ
  pub payload : List ℕ
  pub metadata : List (List ℕ × List ℕ)
  pub success : Bool
  pub error : Error

-- `RpcEnvelope` of NetworkTypes.hpp.
pub record RpcEnvelope : Type 0 where
  pub service : List ℕ
  pub method : List ℕ
  pub request_id : List ℕ
  pub request_schema : List ℕ
  pub response_schema : List ℕ
  pub payload : List ℕ
  pub metadata : List (List ℕ × List ℕ)

abbrev pub profile : ℕ
profile = 1

-- 24 hours.
abbrev pub max_remaining_budget_ms : ℕ
max_remaining_budget_ms = 86400000

abbrev pub missing_identifier : RpcWireEnvelope → Bool
missing_identifier env = is_empty env.request_id || (is_empty env.service || is_empty env.method)

abbrev pub bad_identifier : RpcWireEnvelope → Bool
bad_identifier env =
    not (is_valid_utf8 env.request_id)
    || (not (is_valid_utf8 env.service)
        || (not (is_valid_utf8 env.method)
            || (not (is_valid_utf8 env.request_schema) || not (is_valid_utf8 env.response_schema))))

-- The guards of `FillProto`.
abbrev refuse : ErrorCode → List ℕ → Option Error
refuse c text = some (make_error c text)

abbrev pub check_outcome : RpcWireEnvelope → Bool → Option Error
check_outcome env is_response =
    if not is_response && not env.success
    then refuse ErrorCode.invalid_argument
        (codes "request envelope must not carry failure outcome (success=false is response-only)")
    else if is_response && not env.success
    then validate_error_branch env.error
    else none

abbrev pub then_check : Option Error → Option Error → Option Error
then_check none next = next
then_check (some e) next = some e

unfoldable pub check_envelope : RpcWireEnvelope → Bool → Option Error
check_envelope env is_response =
    if not (env.profile_version == profile)
    then refuse ErrorCode.invalid_argument (codes "unsupported profile_version")
    else if missing_identifier env
    then refuse ErrorCode.invalid_argument (codes "request_id/service/method must be non-empty")
    else if bad_identifier env
    then refuse ErrorCode.invalid_argument (codes "identifier fields not valid UTF-8")
    else if env.remaining_budget_ms == 0
    then refuse ErrorCode.invalid_argument (codes "remaining_budget_ms zero is rejected")
    else if ltb max_remaining_budget_ms env.remaining_budget_ms
    then refuse ErrorCode.invalid_argument (codes "remaining_budget_ms exceeds max")
    else then_check (validate_metadata env.metadata) (check_outcome env is_response)

abbrev pub entry_of : List ℕ × List ℕ → MetadataEntry
entry_of (k, v) = record { key = k; value = v }

abbrev pub pair_of : MetadataEntry → List ℕ × List ℕ
pair_of e = (e.key, e.value)

abbrev pub error_message : Error → Option RpcRequestPhase → RpcError
error_message e phase = record {
  code = to_proto_error_code e.code;
  domain = e.domain;
  domain_code = e.domain_code;
  message = e.message;
  backend_category = e.backend_category;
  backend_code = e.backend_code;
  transferred_bytes = e.transferred_bytes;
  details = map entry_of e.details;
  request_phase = phase;
}

-- The error of a response, with the second test of its phase.
abbrev pub with_phase : Error → Option RpcRequestPhase → Result Outcome
with_phase e none =
    err
      (make_error ErrorCode.protocol_error (codes "request_phase value is not a valid local phase"))
with_phase e (some phase) = ok (failure (error_message e (some phase)))

abbrev pub fill_error : Error → Option RequestPhase → Result Outcome
fill_error e none = ok (failure (error_message e none))
fill_error e (some phase) = with_phase e (to_proto_request_phase phase)

abbrev pub fill_outcome : RpcWireEnvelope → Bool → Result Outcome
fill_outcome env is_response =
    if is_response
    then (if env.success then ok (success true) else fill_error env.error env.error.request_phase)
    else ok unset

abbrev pub filled : RpcWireEnvelope → Result Outcome → Result RpcEnvelopeMsg
filled env (err e) = err e
filled env (ok outcome) = ok (record {
  profile_version = env.profile_version;
  request_id = env.request_id;
  service = env.service;
  method = env.method;
  remaining_budget_ms = env.remaining_budget_ms;
  request_schema = env.request_schema;
  response_schema = env.response_schema;
  payload = env.payload;
  metadata = map entry_of env.metadata;
  outcome = outcome;
})

abbrev pub fill_checked : RpcWireEnvelope → Bool → Option Error → Result RpcEnvelopeMsg
fill_checked env is_response (some e) = err e
fill_checked env is_response none = filled env (fill_outcome env is_response)

-- `FillProto` on a message just made; on an error its callers drop the message.
unfoldable pub fill_proto : RpcWireEnvelope → Bool → Result RpcEnvelopeMsg
fill_proto env is_response = fill_checked env is_response (check_envelope env is_response)

abbrev pub read_phase : RpcError → Result (Option RequestPhase) → Result (Bool × Error)
read_phase pe (err e) = err e
read_phase pe (ok phase) = ok (
  false,
  record {
    code = from_proto_error_code pe.code;
    domain = pe.domain;
    domain_code = pe.domain_code;
    message = pe.message;
    backend_category = pe.backend_category;
    backend_code = pe.backend_code;
    transferred_bytes = pe.transferred_bytes;
    details = map pair_of pe.details;
    request_phase = phase;
  },
)

-- The success flag and the error of the decoded envelope.
abbrev pub read_outcome : Outcome → Bool → Result (Bool × Error)
read_outcome (failure pe) true = read_phase pe (from_proto_request_phase pe.request_phase)
read_outcome (success true) true = ok (true, default_error)
read_outcome (success false) true =
    err (make_error ErrorCode.protocol_error (codes "response success=false without error"))
read_outcome unset true =
    err (make_error ErrorCode.protocol_error (codes "response envelope missing outcome oneof"))
read_outcome unset false = ok (true, default_error)
read_outcome (success b) false =
    err (make_error ErrorCode.protocol_error (codes "request envelope must not set outcome"))
read_outcome (failure pe) false =
    err (make_error ErrorCode.protocol_error (codes "request envelope must not set outcome"))

unfoldable pub check_decoded : RpcWireEnvelope → Option Error
check_decoded env =
    if missing_identifier env
    then refuse ErrorCode.invalid_argument (codes "decoded envelope missing required identifier")
    else if bad_identifier env
    then refuse ErrorCode.invalid_argument (codes "decoded identifier fields not valid UTF-8")
    else if env.remaining_budget_ms == 0
    then refuse ErrorCode.invalid_argument (codes "decoded remaining_budget_ms zero is rejected")
    else if ltb max_remaining_budget_ms env.remaining_budget_ms
    then refuse ErrorCode.invalid_argument (codes "decoded remaining_budget_ms exceeds max")
    else then_check (validate_metadata env.metadata)
        (if not env.success then validate_error_branch env.error else none)

abbrev pub checked : RpcWireEnvelope → Option Error → Result RpcWireEnvelope
checked env none = ok env
checked env (some e) = err e

abbrev pub read_fields : RpcEnvelopeMsg → Bool × Error → RpcWireEnvelope
read_fields m (succeeded, e) = record {
  profile_version = m.profile_version;
  request_id = m.request_id;
  service = m.service;
  method = m.method;
  remaining_budget_ms = m.remaining_budget_ms;
  request_schema = m.request_schema;
  response_schema = m.response_schema;
  payload = m.payload;
  metadata = map pair_of m.metadata;
  success = succeeded;
  error = e;
}

abbrev pub read_message : RpcEnvelopeMsg → Result (Bool × Error) → Result RpcWireEnvelope
read_message m (err e) = err e
read_message m (ok outcome) =
    checked (read_fields m outcome) (check_decoded (read_fields m outcome))

unfoldable pub from_proto : RpcEnvelopeMsg → Bool → Result RpcWireEnvelope
from_proto m is_response =
    if not (m.profile_version == profile)
    then err (make_error ErrorCode.protocol_error (codes "unsupported profile_version"))
    else read_message m (read_outcome m.outcome is_response)

abbrev pub error_of : Result RpcEnvelopeMsg → Option Error
error_of (ok m) = none
error_of (err e) = some e

unfoldable pub validate_rpc_wire_envelope : RpcWireEnvelope → Bool → Option Error
validate_rpc_wire_envelope env is_response = error_of (fill_proto env is_response)

abbrev pub serialized : Option (List ℕ) → Result (List ℕ)
serialized none = err (make_error ErrorCode.protocol_error (codes "protobuf serialize failed"))
serialized (some bytes) = ok bytes

abbrev pub serialize_filled : Protobuf → Result RpcEnvelopeMsg → Result (List ℕ)
serialize_filled P (err e) = err e
serialize_filled P (ok m) = serialized (P.serialize_to_string m)

unfoldable pub encode_rpc_wire_envelope : Protobuf → RpcWireEnvelope → Bool → Result (List ℕ)
encode_rpc_wire_envelope P env is_response = serialize_filled P (fill_proto env is_response)

abbrev pub decode_parsed : Option RpcEnvelopeMsg → Bool → Result RpcWireEnvelope
decode_parsed none is_response =
    err (make_error ErrorCode.protocol_error (codes "envelope parse failed"))
decode_parsed (some m) is_response = from_proto m is_response

-- The two overloads; the size goes to protobuf as an `int`.
unfoldable pub decode_bytes : Protobuf → List ℕ → Bool → Result RpcWireEnvelope
decode_bytes P bytes is_response =
    if is_empty bytes
    then err (make_error ErrorCode.protocol_error (codes "empty envelope bytes"))
    else decode_parsed (P.parse_from_array bytes (length bytes % 2 ^ 32)) is_response

unfoldable pub decode_string : Protobuf → List ℕ → Bool → Result RpcWireEnvelope
decode_string P bytes is_response =
    if is_empty bytes
    then err (make_error ErrorCode.protocol_error (codes "empty envelope bytes"))
    else decode_parsed (P.parse_from_string bytes) is_response

abbrev pub wire_of : RpcEnvelope → ℕ → RpcWireEnvelope
wire_of env budget = record {
  profile_version = profile;
  request_id = env.request_id;
  service = env.service;
  method = env.method;
  remaining_budget_ms = budget;
  request_schema = env.request_schema;
  response_schema = env.response_schema;
  payload = env.payload;
  metadata = env.metadata;
  success = true;
  error = default_error;
}

unfoldable pub to_wire_envelope : RpcEnvelope → ℕ → Result RpcWireEnvelope
to_wire_envelope env budget =
    checked (wire_of env budget) (validate_rpc_wire_envelope (wire_of env budget) false)

unfoldable pub from_wire_envelope : RpcWireEnvelope → Result RpcEnvelope
from_wire_envelope env = ok (record {
  service = env.service;
  method = env.method;
  request_id = env.request_id;
  request_schema = env.request_schema;
  response_schema = env.response_schema;
  payload = env.payload;
  metadata = env.metadata;
})
