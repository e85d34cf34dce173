-- ===== src/Rpc/Decode.antt =====
-- What a decoded envelope satisfies, and the passage from the public envelope and back.
use bbtools_infra.Common.{
  ℕ, ◌≡◌, refl, sym, ap, ◌∙◌, ◌⊎◌, inl, inr, Bool, true, false, Option, none, some, List, arith,
  ◌==◌, is_empty, Option-cases, Bool-cases,
}
use bbtools_infra.Rpc.Errors.{RequestPhase, Error, default_error, Result, ok, err}
use bbtools_infra.Rpc.Message.{Outcome, unset, success, failure, RpcEnvelopeMsg, Protobuf}
use bbtools_infra.Rpc.Wire.{
  RpcWireEnvelope, RpcEnvelope, check_envelope, check_decoded, from_proto, read_outcome,
  read_message, read_fields, checked, read_phase, decode_bytes, decode_parsed, profile,
  to_wire_envelope, from_wire_envelope, wire_of, validate_rpc_wire_envelope,
}
use bbtools_infra.Rpc.RoundTrip.{validate_rpc_wire_envelope-check_envelope}

fields-check :
    (m : RpcEnvelopeMsg) (is_response : Bool) (r : Bool × Error)
    → (m.profile_version == profile) ≡ true
    → (is_response ≡ true) ⊎ (r.0 ≡ true)
    → check_decoded (read_fields m r) ≡ none
    → check_envelope (read_fields m r) is_response ≡ none
unfolding check_decoded check_envelope
fields-check m is_response r v d h = ground arith

checked_lem :
    (m : RpcEnvelopeMsg) (is_response : Bool) (r : Bool × Error) (env : RpcWireEnvelope)
    → (m.profile_version == profile) ≡ true
    → (is_response ≡ true) ⊎ (r.0 ≡ true)
    → checked (read_fields m r) (check_decoded (read_fields m r)) ≡ ok env
    → check_envelope env is_response ≡ none
checked_lem m is_response r env v d h = elim (Option-cases (check_decoded (read_fields m r))) [
  | inl c ↦
      let e : read_fields m r ≡ env = cc in
      ap (λ w. check_envelope w is_response) (sym e) ∙ fields-check m is_response r v d c
  | inr (e, c) ↦ absurd (cc)
]

read_lem :
    (m : RpcEnvelopeMsg) (is_response : Bool) (env : RpcWireEnvelope) (o : Outcome)
    → (m.profile_version == profile) ≡ true
    → read_message m (read_outcome o is_response) ≡ ok env
    → check_envelope env is_response ≡ none
read_lem m true env (failure pe) v h = phase_lem _ h
  where
    phase_lem :
        (q : Result (Option RequestPhase))
        → read_message m (read_phase pe q) ≡ ok env
        → check_envelope env true ≡ none
    phase_lem (err e) k = cc
    phase_lem (ok phase) k = checked_lem m true _ env v (inl refl) k
read_lem m true env (success true) v h = checked_lem m true (true, default_error) env v (inl refl) h
read_lem m true env (success false) v h = cc
read_lem m true env unset v h = cc
read_lem m false env unset v h = checked_lem m false (true, default_error) env v (inr refl) h
read_lem m false env (success b) v h = cc
read_lem m false env (failure pe) v h = cc

from_proto-check :
    (m : RpcEnvelopeMsg) (is_response : Bool) (env : RpcWireEnvelope)
    → from_proto m is_response ≡ ok env
    → check_envelope env is_response ≡ none
unfolding from_proto
from_proto-check m is_response env h = elim (Bool-cases (m.profile_version == profile)) [
  | inl v ↦ read_lem m is_response env m.outcome v (rw v at h)
  | inr v ↦ absurd (cc (rw v at h))
]

-- What `DecodeRpcWireEnvelope` returns passes every check of the encoder in the same direction,
-- whatever the bytes were: a receiver can send on what it has received.
pub decode_bytes-check_envelope :
    (P : Protobuf) (bytes : List ℕ) (is_response : Bool) (env : RpcWireEnvelope)
    → decode_bytes P bytes is_response ≡ ok env
    → validate_rpc_wire_envelope env is_response ≡ none
unfolding decode_bytes
decode_bytes-check_envelope P bytes is_response env h =
    validate_rpc_wire_envelope-check_envelope env is_response ∙ elim (Bool-cases (is_empty bytes)) [
      | inl z ↦ absurd (cc (rw z at h))
      | inr z ↦ parsed_lem _ (rw z at h)
    ]
  where
    parsed_lem :
        (o : Option RpcEnvelopeMsg)
        → decode_parsed o is_response ≡ ok env
        → check_envelope env is_response ≡ none
    parsed_lem none k = cc
    parsed_lem (some m) k = from_proto-check m is_response env k

-- `ToWireEnvelope` succeeds exactly where the request passes every check, with an envelope from which
-- `FromWireEnvelope` restores the public one.
pub to_wire_envelope_cases :
    (env : RpcEnvelope) (budget : ℕ)
    → ((w : RpcWireEnvelope) × (to_wire_envelope env budget ≡ ok w)
        × (check_envelope w false ≡ none)
        × (w.remaining_budget_ms ≡ budget)
        × (from_wire_envelope w ≡ ok env))
      ⊎ ((e : Error) × (to_wire_envelope env budget ≡ err e)
          × (check_envelope (wire_of env budget) false ≡ some e))
unfolding to_wire_envelope from_wire_envelope
to_wire_envelope_cases env budget =
    let same = validate_rpc_wire_envelope-check_envelope (wire_of env budget) false in
    elim (Option-cases (check_envelope (wire_of env budget) false)) [
      | inl c ↦ inl (wire_of env budget, rw (same, c) refl, c, refl, refl)
      | inr (e, c) ↦ inr (e, rw (same, c) refl, c)
    ]
