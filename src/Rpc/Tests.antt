-- ===== src/Rpc/Tests.antt =====
-- A small protobuf that meets the interface, runs of the codec, and the laws at concrete envelopes.
use native.Mathlib.Decide.{ℕ_discrete}
use bbtools_infra.Common.{
  ℕ, ◌≡◌, refl, sym, ap, ◌⊎◌, true, false, Option, none, some, List, [], ◌∷◌, is_empty,
}
use bbtools_infra.Common.Int.{ℤ, pos}
use bbtools_infra.Rpc.Text.{
  codes, is_valid_utf8, utf8_loop, lead, continue_with, is_scalar, is_sequence, skipped,
}
use bbtools_infra.Rpc.Errors.{
  ErrorCode, RequestPhase, Error, default_error, ok, err, validate_error_details, details_loop,
}
use bbtools_infra.Rpc.Checks.{
  to_proto_error_code, to_proto_request_phase, from_proto_error_code, validate_metadata,
  metadata_loop, has_meta_prefix, validate_error_branch,
}
use bbtools_infra.Rpc.Wire.{
  RpcWireEnvelope, RpcEnvelope, fill_proto, check_envelope, encode_rpc_wire_envelope, decode_bytes,
  decode_string, wire_of, to_wire_envelope, from_wire_envelope, validate_rpc_wire_envelope,
}
use bbtools_infra.Rpc.Enums.{from_proto_error_code-to_proto}
use bbtools_infra.Rpc.Verdict.{Verdict, validate_rpc_wire_envelope-Verdict}
use bbtools_infra.Rpc.RoundTrip.{received, decode-encode}
use bbtools_infra.Rpc.Decode.{decode_bytes-check_envelope, to_wire_envelope_cases}
use bbtools_infra.Rpc.Message.{
  RpcErrorCode, RpcRequestPhase, RpcError, MetadataEntry, Outcome, failure, RpcEnvelopeMsg,
  Protobuf,
}

ℤ-discrete : Discrete ℤ
ℤ-discrete = hlevel (ℕ_discrete)

RpcErrorCode-discrete : Discrete RpcErrorCode
RpcErrorCode-discrete = hlevel (ℕ_discrete)

RpcRequestPhase-discrete : Discrete RpcRequestPhase
RpcRequestPhase-discrete = hlevel (ℕ_discrete)

MetadataEntry-discrete : Discrete MetadataEntry
MetadataEntry-discrete = hlevel (ℕ_discrete)

RpcError-discrete : Discrete RpcError
RpcError-discrete = hlevel (
  ℕ_discrete, ℤ-discrete, RpcErrorCode-discrete, RpcRequestPhase-discrete, MetadataEntry-discrete,
)

Outcome-discrete : Discrete Outcome
Outcome-discrete = hlevel (RpcError-discrete)

RpcEnvelopeMsg-discrete : Discrete RpcEnvelopeMsg
RpcEnvelopeMsg-discrete = hlevel (ℕ_discrete, MetadataEntry-discrete, Outcome-discrete)

-- Well-formed: two, three and four bytes. Not: a lone lead, a lone continuation, an overlong form, a
-- surrogate, and a code point beyond the last.
utf8_accepts : is_valid_utf8 (65 ∷ 195 ∷ 169 ∷ 226 ∷ 130 ∷ 172 ∷ 240 ∷ 159 ∷ 152 ∷ 128 ∷ []) ≡ true
unfolding is_valid_utf8 utf8_loop lead continue_with is_scalar is_sequence skipped
utf8_accepts = refl

utf8_refuses :
    (is_valid_utf8 (195 ∷ []) ≡ false)
    × (is_valid_utf8 (130 ∷ []) ≡ false)
    × (is_valid_utf8 (192 ∷ 128 ∷ []) ≡ false)
    × (is_valid_utf8 (237 ∷ 160 ∷ 128 ∷ []) ≡ false)
    × (is_valid_utf8 (244 ∷ 144 ∷ 128 ∷ 128 ∷ []) ≡ false)
unfolding is_valid_utf8 utf8_loop lead continue_with is_scalar is_sequence skipped
utf8_refuses = (refl, refl, refl, refl, refl)

-- A response that failed while its request was being written.
abbrev broken : RpcWireEnvelope
broken = record {
  profile_version = 1;
  request_id = codes "r1";
  service = codes "s";
  method = codes "m";
  remaining_budget_ms = 1000;
  request_schema = [];
  response_schema = [];
  payload = 7 ∷ [];
  metadata = (codes "fw.a", codes "x") ∷ [];
  success = false;
  error = record default_error {
    code = ErrorCode.timed_out;
    details = (codes "k", codes "v") ∷ [];
    request_phase = some RequestPhase.writing;
  };
}

abbrev broken_message : RpcEnvelopeMsg
broken_message = record {
  profile_version = 1;
  request_id = codes "r1";
  service = codes "s";
  method = codes "m";
  remaining_budget_ms = 1000;
  request_schema = [];
  response_schema = [];
  payload = 7 ∷ [];
  metadata = record { key = codes "fw.a"; value = codes "x" } ∷ [];
  outcome = failure (record {
    code = RpcErrorCode.timed_out;
    domain = codes "infra";
    domain_code = [];
    message = [];
    backend_category = [];
    backend_code = pos 0;
    transferred_bytes = 0;
    details = record { key = codes "k"; value = codes "v" } ∷ [];
    request_phase = some RpcRequestPhase.writing;
  });
}

fill_proto-broken : fill_proto broken true ≡ ok broken_message
unfolding fill_proto check_envelope validate_metadata metadata_loop has_meta_prefix
    validate_error_branch validate_error_details details_loop is_valid_utf8 utf8_loop lead
    continue_with is_scalar is_sequence skipped to_proto_error_code to_proto_request_phase
fill_proto-broken = refl

-- A protobuf that knows one message.
sent_as : (m : RpcEnvelopeMsg) → Dec (m ≡ broken_message) → Option (List ℕ)
sent_as m (yes p) = some (1 ∷ [])
sent_as m (no n) = none

sent_as-broken :
    (d : Dec (broken_message ≡ broken_message)) → sent_as broken_message d ≡ some (1 ∷ [])
unfolding sent_as
sent_as-broken (yes p) = refl
sent_as-broken (no n) = absurd (n refl)

sent_as-some :
    (m : RpcEnvelopeMsg) (d : Dec (m ≡ broken_message)) (bytes : List ℕ)
    → sent_as m d ≡ some bytes
    → (broken_message ≡ m) × (is_empty bytes ≡ false)
unfolding sent_as
sent_as-some m (yes p) bytes h = (sym p, cc)
sent_as-some m (no n) bytes h = cc

abbrev single : Protobuf
single = record {
  serialize_to_string = λ m. sent_as m (RpcEnvelopeMsg-discrete m broken_message);
  parse_from_array = λ bytes n. some broken_message;
  parse_from_string = λ bytes. some broken_message;
  parse_array-serialize = λ m bytes t h. ap some (sent_as-some m _ bytes h).0;
  parse_string-serialize = λ m bytes t h. ap some (sent_as-some m _ bytes h).0;
  serialize-some_bytes = λ m bytes v h. (sent_as-some m _ bytes h).1;
}

encode-broken : encode_rpc_wire_envelope single broken true ≡ ok (1 ∷ [])
unfolding encode_rpc_wire_envelope
encode-broken =
    rw (fill_proto-broken, sent_as-broken (RpcEnvelopeMsg-discrete broken_message broken_message))
      refl

decode-encode_example :
    (decode_bytes single (1 ∷ []) true ≡ ok (received broken))
    × (decode_string single (1 ∷ []) true ≡ ok (received broken))
decode-encode_example = decode-encode single broken true (1 ∷ []) encode-broken

decode_bytes-check_envelope_example : validate_rpc_wire_envelope broken true ≡ none
decode_bytes-check_envelope_example =
    decode_bytes-check_envelope single (1 ∷ []) true broken
      (decode-encode single broken true (1 ∷ []) encode-broken).0

validate_rpc_wire_envelope-Verdict_example :
    Verdict broken false (validate_rpc_wire_envelope broken false)
validate_rpc_wire_envelope-Verdict_example = validate_rpc_wire_envelope-Verdict broken false

abbrev request : RpcEnvelope
request = record {
  service = codes "s";
  method = codes "m";
  request_id = codes "r1";
  request_schema = [];
  response_schema = [];
  payload = [];
  metadata = [];
}

to_wire_envelope_cases_example :
    ((w : RpcWireEnvelope) × (to_wire_envelope request 5 ≡ ok w)
      × (check_envelope w false ≡ none)
      × (w.remaining_budget_ms ≡ 5)
      × (from_wire_envelope w ≡ ok request))
    ⊎ ((e : Error) × (to_wire_envelope request 5 ≡ err e)
        × (check_envelope (wire_of request 5) false ≡ some e))
to_wire_envelope_cases_example = to_wire_envelope_cases request 5

from_proto_error_code-to_proto_example :
    from_proto_error_code (to_proto_error_code ErrorCode.overloaded) ≡ ErrorCode.overloaded
from_proto_error_code-to_proto_example = from_proto_error_code-to_proto ErrorCode.overloaded
