-- ===== src/Rpc/Enums.antt =====
-- The maps between the local enumerations and those of the wire are inverse where they can be.
use bbtools_infra.Common.{ℕ, ◌≡◌, refl, some, List, [], ◌∷◌, map, ap}
use bbtools_infra.Rpc.Errors.{ErrorCode, RequestPhase, ok}
use bbtools_infra.Rpc.Message.{RpcRequestPhase}
use bbtools_infra.Rpc.Checks.{
  to_proto_error_code, from_proto_error_code, to_proto_request_phase, from_proto_request_phase,
}
use bbtools_infra.Rpc.Wire.{entry_of, pair_of}

-- What a code without a name is sent as.
abbrev pub named_code : ErrorCode → ErrorCode
named_code (ErrorCode.unnamed n) = ErrorCode.internal_error
named_code c = c

-- An error code comes back from the wire as itself; only one that names no enumerator comes back as
-- `InternalError`.
pub from_proto_error_code-to_proto :
    (c : ErrorCode) → from_proto_error_code (to_proto_error_code c) ≡ named_code c
unfolding from_proto_error_code to_proto_error_code
from_proto_error_code-to_proto ErrorCode.invalid_argument = refl
from_proto_error_code-to_proto ErrorCode.invalid_context = refl
from_proto_error_code-to_proto ErrorCode.runtime_unavailable = refl
from_proto_error_code-to_proto ErrorCode.closed = refl
from_proto_error_code-to_proto ErrorCode.cancelled = refl
from_proto_error_code-to_proto ErrorCode.timed_out = refl
from_proto_error_code-to_proto ErrorCode.overloaded = refl
from_proto_error_code-to_proto ErrorCode.unavailable = refl
from_proto_error_code-to_proto ErrorCode.transport_error = refl
from_proto_error_code-to_proto ErrorCode.protocol_error = refl
from_proto_error_code-to_proto ErrorCode.not_found = refl
from_proto_error_code-to_proto ErrorCode.type_mismatch = refl
from_proto_error_code-to_proto ErrorCode.unsupported_route = refl
from_proto_error_code-to_proto ErrorCode.outcome_unknown = refl
from_proto_error_code-to_proto ErrorCode.remote_error = refl
from_proto_error_code-to_proto ErrorCode.internal_error = refl
from_proto_error_code-to_proto (ErrorCode.unnamed n) = refl

-- A phase that can be sent comes back as itself.
pub from_proto_phase-to_proto :
    (p : RequestPhase) (q : RpcRequestPhase)
    → to_proto_request_phase p ≡ some q
    → from_proto_request_phase (some q) ≡ ok (some p)
unfolding from_proto_request_phase to_proto_request_phase
from_proto_phase-to_proto RequestPhase.not_started q h = cc
from_proto_phase-to_proto RequestPhase.connecting q h = cc
from_proto_phase-to_proto RequestPhase.writing q h = cc
from_proto_phase-to_proto RequestPhase.request_committed q h = cc
from_proto_phase-to_proto RequestPhase.reply_terminal q h = cc
from_proto_phase-to_proto (RequestPhase.unnamed n) q h = cc

pub pair_of-entry_of : (xs : List (List ℕ × List ℕ)) → map pair_of (map entry_of xs) ≡ xs
pair_of-entry_of [] = refl
pair_of-entry_of ((k, v) ∷ rest) = ap (◌∷◌ (k, v)) (pair_of-entry_of rest)
