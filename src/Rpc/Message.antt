-- ===== src/Rpc/Message.antt =====
-- The messages of proto/bbt/infra/rpc/v1/rpc_envelope.proto as their generated classes hold them, and
-- the parts of the protobuf runtime that RpcWire.cc calls, as an interface.
use bbtools_infra.Common.{
  ℕ, ◌%◌, ◌^◌, ◌≡◌, ◌≢◌, Bool, true, false, ◌&&◌, Option, some, List, [], ◌∷◌, is_empty, length,
}
use bbtools_infra.Common.Int.{ℤ}
use bbtools_infra.Rpc.Text.{is_valid_utf8}

-- A proto3 enumeration is open: `other` is a value that the proto does not name.
pub data RpcErrorCode : Type 0 where
  unspecified : RpcErrorCode
  invalid_argument invalid_context runtime_unavailable closed cancelled timed_out overloaded :
      RpcErrorCode
  unavailable transport_error protocol_error not_found type_mismatch unsupported_route :
      RpcErrorCode
  outcome_unknown remote_error internal_error : RpcErrorCode
  other : ℕ → RpcErrorCode

pub data RpcRequestPhase : Type 0 where
  unspecified not_started connecting writing request_committed reply_terminal : RpcRequestPhase
  other : ℕ → RpcRequestPhase

pub record MetadataEntry : Type 0 where
  pub key : List ℕ
  pub value : List ℕ

-- `optional` keeps whether the phase is present.
pub record RpcError : Type 0 where
  pub code : RpcErrorCode
  pub domain : List ℕ
  pub domain_code : List ℕ
  pub message : List ℕ
  pub backend_category : List ℕ
  pub backend_code : ℤ
  pub transferred_bytes : ℕ
  pub details : List MetadataEntry
  pub request_phase : Option RpcRequestPhase

-- The oneof.
pub data Outcome : Type 0 where
  unset : Outcome
  success : Bool → Outcome
  failure : RpcError → Outcome

pub record RpcEnvelopeMsg : Type 0 where
  pub profile_version : ℕ
  pub request_id : List ℕ
  pub service : List ℕ
  pub method : List ℕ
  pub remaining_budget_ms : ℕ
  pub request_schema : List ℕ
  pub response_schema : List ℕ
  pub payload : List ℕ
  pub metadata : List MetadataEntry
  pub outcome : Outcome

-- The strings of a message, which proto3 wants in UTF-8; `payload` is of type `bytes`.
abbrev pub entries_are_text : List MetadataEntry → Bool
entries_are_text [] = true
entries_are_text (e ∷ es) = is_valid_utf8 e.key && (is_valid_utf8 e.value && entries_are_text es)

abbrev pub error_is_text : RpcError → Bool
error_is_text e =
    is_valid_utf8 e.domain
    && (is_valid_utf8 e.domain_code
        && (is_valid_utf8 e.message
            && (is_valid_utf8 e.backend_category && entries_are_text e.details)))

abbrev pub outcome_is_text : Outcome → Bool
outcome_is_text unset = true
outcome_is_text (success b) = true
outcome_is_text (failure e) = error_is_text e

abbrev pub is_text : RpcEnvelopeMsg → Bool
is_text m =
    is_valid_utf8 m.request_id
    && (is_valid_utf8 m.service
        && (is_valid_utf8 m.method
            && (is_valid_utf8 m.request_schema
                && (is_valid_utf8 m.response_schema
                    && (entries_are_text m.metadata && outcome_is_text m.outcome)))))

-- `SerializeToString`, `ParseFromArray` with its size argument, and `ParseFromString`. Documented of
-- them: a message whose strings are UTF-8 is parsed back from its serialization, which has the size
-- of an `int`; and a field that is not its default takes up bytes.
pub record Protobuf : Type 0 where
  pub serialize_to_string : RpcEnvelopeMsg → Option (List ℕ)
  pub parse_from_array : List ℕ → ℕ → Option RpcEnvelopeMsg
  pub parse_from_string : List ℕ → Option RpcEnvelopeMsg
  pub parse_array-serialize :
      (m : RpcEnvelopeMsg) (bytes : List ℕ)
      → is_text m ≡ true
      → serialize_to_string m ≡ some bytes
      → parse_from_array bytes (length bytes % 2 ^ 32) ≡ some m
  pub parse_string-serialize :
      (m : RpcEnvelopeMsg) (bytes : List ℕ)
      → is_text m ≡ true
      → serialize_to_string m ≡ some bytes
      → parse_from_string bytes ≡ some m
  pub serialize-some_bytes :
      (m : RpcEnvelopeMsg) (bytes : List ℕ)
      → m.profile_version ≢ 0
      → serialize_to_string m ≡ some bytes
      → is_empty bytes ≡ false
