-- ===== src/Rpc/RoundTrip.antt =====
-- What `EncodeRpcWireEnvelope` sends is what `DecodeRpcWireEnvelope` reads.
use bbtools_infra.Common.{
  ℕ, ◌≡◌, refl, ◌∙◌, inl, inr, Bool, true, false, Option, none, some, List, [], map, arith,
  if◌then◌else◌, is_empty, ==_iff, Option-cases, Bool-cases,
}
use bbtools_infra.Rpc.Errors.{
  ErrorCode, RequestPhase, Error, ok, err, default_error, validate_error_details,
}
use bbtools_infra.Rpc.Message.{
  RpcRequestPhase, Outcome, unset, success, failure, RpcEnvelopeMsg, Protobuf, is_text,
  error_is_text, outcome_is_text,
}
use bbtools_infra.Rpc.Checks.{
  to_proto_request_phase, from_proto_request_phase, validate_metadata, validate_error_branch,
  is_valid_phase,
}
use bbtools_infra.Rpc.Wire.{
  RpcWireEnvelope, check_envelope, check_decoded, check_outcome, fill_proto, fill_outcome,
  fill_error, error_message, from_proto, read_outcome, validate_rpc_wire_envelope,
  encode_rpc_wire_envelope, decode_bytes, decode_string, serialized, entry_of, profile,
}
use bbtools_infra.Rpc.Enums.{
  named_code, from_proto_error_code-to_proto, from_proto_phase-to_proto, pair_of-entry_of,
}
use bbtools_infra.Rpc.Guards.{Guarded, check_envelope-Guarded, entries-text, details-text}

-- The error as the receiver sees it.
abbrev pub received_error : RpcWireEnvelope → Error
received_error env =
    if env.success then default_error else record (env.error) { code = named_code env.error.code }

abbrev pub received : RpcWireEnvelope → RpcWireEnvelope
received env = record env { error = received_error env }

-- The check of an error does not read its code.
validate_error_branch-code :
    (e : Error) (c : ErrorCode)
    → validate_error_branch (record e { code = c }) ≡ validate_error_branch e
unfolding validate_error_branch validate_error_details
validate_error_branch-code e c = refl

error_branch-phase :
    (e : Error) → validate_error_branch e ≡ none → is_valid_phase e.request_phase ≡ true
unfolding validate_error_branch
error_branch-phase e h = ground arith

error_branch-text :
    (e : Error)
    → validate_error_branch e ≡ none
    → (q : Option RpcRequestPhase) → error_is_text (error_message e q) ≡ true
unfolding validate_error_branch validate_error_details
error_branch-text e h q = ground (arith, details-text [] e.details)

-- The error that was filled in is read back, also its phase.
fill_error_lem :
    (e : Error) (phase : Option RequestPhase)
    → e.request_phase ≡ phase
    → validate_error_branch e ≡ none
    → (o : Outcome) × (fill_error e phase ≡ ok o)
      × (outcome_is_text o ≡ true)
      × (read_outcome o true ≡ ok (false, record e { code = named_code e.code }))
unfolding from_proto_request_phase
fill_error_lem e none p h = (
  failure (error_message e none),
  refl,
  error_branch-text e h none,
  rw (from_proto_error_code-to_proto e.code, pair_of-entry_of e.details, p) refl,
)
fill_error_lem e (some phase) p h = elim (Option-cases (to_proto_request_phase phase)) [
  | inl n ↦ absurd (cc (error_branch-phase e h, p, n))
  | inr (q, k) ↦ rw k (
    failure (error_message e (some q)),
    refl,
    error_branch-text e h (some q),
    rw
        (
          from_proto_phase-to_proto phase q k,
          from_proto_error_code-to_proto e.code,
          pair_of-entry_of e.details,
          p,
        )
        refl,
  )
]

-- The outcome of a checked envelope is filled in, and read back as it was sent.
fill_outcome_lem :
    (env : RpcWireEnvelope) (is_response : Bool)
    → check_outcome env is_response ≡ none
    → (o : Outcome) × (fill_outcome env is_response ≡ ok o)
      × (outcome_is_text o ≡ true)
      × (read_outcome o is_response ≡ ok (env.success, received_error env))
fill_outcome_lem env true h = elim (Bool-cases env.success) [
  | inl s ↦ rw s (success true, refl, refl, refl)
  | inr s ↦ rw s (
      fill_error_lem env.error env.error.request_phase refl
        (let k : validate_error_branch env.error ≡ none = ground arith in k))
]
fill_outcome_lem env false h =
    let s : env.success ≡ true = ground arith in rw s (unset, refl, refl, refl)

-- The message that a checked envelope fills in.
abbrev message_of : RpcWireEnvelope → Outcome → RpcEnvelopeMsg
message_of env outcome = record {
  profile_version = env.profile_version;
  request_id = env.request_id;
  service = env.service;
  method = env.method;
  remaining_budget_ms = env.remaining_budget_ms;
  request_schema = env.request_schema;
  response_schema = env.response_schema;
  payload = env.payload;
  metadata = map entry_of env.metadata;
  outcome = outcome;
}

message-text :
    (env : RpcWireEnvelope) (o : Outcome)
    → Guarded env
    → outcome_is_text o ≡ true
    → is_text (message_of env o) ≡ true
unfolding validate_metadata
message-text env o g t = ground (arith, entries-text [] env.metadata, g.text, g.tagged)

-- The decoder's own checks accept what passed the encoder's.
check_decoded-received :
    (env : RpcWireEnvelope) (is_response : Bool)
    → Guarded env
    → check_outcome env is_response ≡ none
    → check_decoded (received env) ≡ none
unfolding check_decoded
check_decoded-received env is_response g h =
    rw (g.present, g.text, g.some_budget, g.budget_fits, g.tagged)
      (ground (arith, validate_error_branch-code env.error (named_code env.error.code)))

-- What `FillProto` fills in, `FromProto` reads back.
pub fill_proto_lem :
    (env : RpcWireEnvelope) (is_response : Bool)
    → check_envelope env is_response ≡ none
    → (m : RpcEnvelopeMsg) × (fill_proto env is_response ≡ ok m)
      × (is_text m ≡ true)
      × (m.profile_version ≡ profile)
      × (from_proto m is_response ≡ ok (received env))
unfolding fill_proto from_proto
fill_proto_lem env is_response h =
    let (g, c) = check_envelope-Guarded env is_response h in
    let (o, f, t, r) = fill_outcome_lem env is_response c in
    (
      message_of env o,
      rw (h, f) refl,
      message-text env o g t,
      (==_iff _ _).0 g.version,
      rw (g.version, r, pair_of-entry_of env.metadata, check_decoded-received env is_response g c)
          refl,
    )

fill_refused :
    (env : RpcWireEnvelope) (is_response : Bool) (e : Error)
    → check_envelope env is_response ≡ some e
    → fill_proto env is_response ≡ err e
unfolding fill_proto
fill_refused env is_response e h = rw h refl

-- `ValidateRpcWireEnvelope` gives the error of the first guard that fails, and none otherwise: the
-- second test of the phase, while the message is filled in, never refuses an envelope.
pub validate_rpc_wire_envelope-check_envelope :
    (env : RpcWireEnvelope) (is_response : Bool)
    → validate_rpc_wire_envelope env is_response ≡ check_envelope env is_response
unfolding validate_rpc_wire_envelope
validate_rpc_wire_envelope-check_envelope env is_response =
    elim (Option-cases (check_envelope env is_response)) [
      | inl h ↦ let (m, f, _, _, _) = fill_proto_lem env is_response h in rw (f, h) refl
      | inr (e, h) ↦ rw (fill_refused env is_response e h, h) refl
    ]

module _ (P : Protobuf) where
  parsed :
      (m : RpcEnvelopeMsg) (bytes : List ℕ) (is_response : Bool)
      → is_text m ≡ true
      → m.profile_version ≡ profile
      → P.serialize_to_string m ≡ some bytes
      → (decode_bytes P bytes is_response ≡ from_proto m is_response)
        × (decode_string P bytes is_response ≡ from_proto m is_response)
  unfolding decode_bytes decode_string
  parsed m bytes is_response t v s =
      let some_bytes : is_empty bytes ≡ false =
        P.serialize-some_bytes m bytes (λ z. absurd (omega (arith, z, v))) s in
      (
        rw (some_bytes, P.parse_array-serialize m bytes t s) refl,
        rw (some_bytes, P.parse_string-serialize m bytes t s) refl,
      )

  -- Both overloads of `DecodeRpcWireEnvelope` read what `EncodeRpcWireEnvelope` has sent, in either
  -- direction: every field comes back as it was, the error of a failed response with its phase and
  -- details included. The error beside a success is not sent and comes back as the default, and a code
  -- that names no enumerator comes back as `InternalError`.
  pub decode-encode :
      (env : RpcWireEnvelope) (is_response : Bool) (bytes : List ℕ)
      → encode_rpc_wire_envelope P env is_response ≡ ok bytes
      → (decode_bytes P bytes is_response ≡ ok (received env))
        × (decode_string P bytes is_response ≡ ok (received env))
  unfolding encode_rpc_wire_envelope
  decode-encode env is_response bytes h = elim (Option-cases (check_envelope env is_response)) [
    | inl c ↦
        let (m, f, t, v, r) = fill_proto_lem env is_response c in
        let s : P.serialize_to_string m ≡ some bytes = sent (P.serialize_to_string m) (rw f at h) in
        let (a, b) = parsed m bytes is_response t v s in (a ∙ r, b ∙ r)
    | inr (e, c) ↦ absurd (cc (fill_refused env is_response e c, h))
  ]
    where
      sent : (o : Option (List ℕ)) → serialized o ≡ ok bytes → o ≡ some bytes
      sent none k = cc
      sent (some b) k = cc
