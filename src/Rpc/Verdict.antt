-- ===== src/Rpc/Verdict.antt =====
-- The verdict of `ValidateRpcWireEnvelope` of RpcWire.cc on an envelope, as an ordered table.
use bbtools_infra.Common.{
  ℕ, refl, ◌*◌, ◌&&◌, [], ◌∷◌, ◌≤◌, ◌<◌, ◌≡◌, sym, ◌⊎◌, inl, inr, Bool, true, false, not, Option,
  none, some, List, arith, ltb, ◌==◌, ==_iff, if◌then◌else◌, is_empty, length, Bool-cases,
  Option-cases,
}
use mathlib.Core.Path.{subst}
use bbtools_infra.Rpc.Text.{codes, is_valid_utf8}
use bbtools_infra.Rpc.Errors.{ErrorCode, Error, make_error}
use bbtools_infra.Rpc.Checks.{validate_metadata, validate_error_branch}
use bbtools_infra.Rpc.Wire.{
  RpcWireEnvelope, check_envelope, check_outcome, then_check, missing_identifier, bad_identifier,
  validate_rpc_wire_envelope,
}
use bbtools_infra.Rpc.RoundTrip.{validate_rpc_wire_envelope-check_envelope}

abbrev IsInvalid : Option Error → List ℕ → Type 0
IsInvalid r text = r ≡ some (make_error ErrorCode.invalid_argument text)

abbrev IsNamed : RpcWireEnvelope → Type 0
IsNamed env = (1 ≤ length env.request_id) × (1 ≤ length env.service) × (1 ≤ length env.method)

abbrev IsText : RpcWireEnvelope → Type 0
IsText env =
    (is_valid_utf8 env.request_id ≡ true)
    × (is_valid_utf8 env.service ≡ true)
    × (is_valid_utf8 env.method ≡ true)
    × (is_valid_utf8 env.request_schema ≡ true)
    × (is_valid_utf8 env.response_schema ≡ true)

-- Whether the outcome may be sent: a request carries none, a response a success or an error that
-- passes its own checks.
pub data OutcomeVerdict (env : RpcWireEnvelope) : Bool → Option Error → Type 0 where
  succeeds : {is_response : Bool} → env.success ≡ true → OutcomeVerdict env is_response none
  failed_request :
      env.success ≡ false
      → OutcomeVerdict env false (
          some (
            make_error ErrorCode.invalid_argument (
              codes
                "request envelope must not carry failure outcome (success=false is response-only)")))
  failed_response : env.success ≡ false → OutcomeVerdict env true (validate_error_branch env.error)

-- The answers in the order of the guards; each stands behind what the guards before it ask for.
pub data Verdict (env : RpcWireEnvelope) (is_response : Bool) : Option Error → Type 0 where
  wrong_version :
      (env.profile_version < 1) ⊎ (1 < env.profile_version)
      → Verdict env is_response
          (some (make_error ErrorCode.invalid_argument (codes "unsupported profile_version")))
  unnamed :
      env.profile_version ≡ 1
      → (length env.request_id ≡ 0) ⊎ (length env.service ≡ 0) ⊎ (length env.method ≡ 0)
      → Verdict env is_response (
          some (
            make_error ErrorCode.invalid_argument
              (codes "request_id/service/method must be non-empty")))
  not_text :
      env.profile_version ≡ 1
      → IsNamed env
      → ¬ IsText env
      → Verdict env is_response
          (some (make_error ErrorCode.invalid_argument (codes "identifier fields not valid UTF-8")))
  no_budget :
      env.profile_version ≡ 1
      → IsNamed env
      → IsText env
      → env.remaining_budget_ms ≡ 0
      → Verdict env is_response (
          some
            (make_error ErrorCode.invalid_argument (codes "remaining_budget_ms zero is rejected")))
  much_budget :
      env.profile_version ≡ 1
      → IsNamed env
      → IsText env
      → 24 * 60 * 60 * 1000 < env.remaining_budget_ms
      → Verdict env is_response
          (some (make_error ErrorCode.invalid_argument (codes "remaining_budget_ms exceeds max")))
  bad_metadata :
      (e : Error)
      → env.profile_version ≡ 1
      → IsNamed env
      → IsText env
      → (1 ≤ env.remaining_budget_ms) × (env.remaining_budget_ms ≤ 24 * 60 * 60 * 1000)
      → validate_metadata env.metadata ≡ some e
      → Verdict env is_response (some e)
  judged :
      (r : Option Error)
      → env.profile_version ≡ 1
      → IsNamed env
      → IsText env
      → (1 ≤ env.remaining_budget_ms) × (env.remaining_budget_ms ≤ 24 * 60 * 60 * 1000)
      → validate_metadata env.metadata ≡ none
      → OutcomeVerdict env is_response r
      → Verdict env is_response r

check_outcome-OutcomeVerdict :
    (env : RpcWireEnvelope) (is_response : Bool)
    → OutcomeVerdict env is_response (check_outcome env is_response)
check_outcome-OutcomeVerdict env is_response = by_success is_response env.success refl
  where
    by_success :
        (direction s : Bool)
        → env.success ≡ s
        → OutcomeVerdict env direction (
            if not direction && not s
            then some (
                make_error ErrorCode.invalid_argument (
                  codes
                    "request envelope must not carry failure outcome (success=false is response-only)"))
            else if direction && not s
            then validate_error_branch env.error
            else none)
    by_success true true h = succeeds h
    by_success false true h = succeeds h
    by_success true false h = failed_response h
    by_success false false h = failed_request h

length-some : (xs : List ℕ) → is_empty xs ≡ false → 1 ≤ length xs
length-some [] h = cc
length-some (x ∷ xs) h = omega arith

length-none : (xs : List ℕ) → is_empty xs ≡ true → length xs ≡ 0
length-none [] h = refl
length-none (x ∷ xs) h = cc

named :
    (env : RpcWireEnvelope)
    → (missing_identifier env ≡ false → IsNamed env)
      × (missing_identifier env ≡ true
          → (length env.request_id ≡ 0) ⊎ (length env.service ≡ 0) ⊎ (length env.method ≡ 0))
named env = (
  λ h. ground (arith, length-some env.request_id, length-some env.service, length-some env.method),
  λ h. ground (arith, length-none env.request_id, length-none env.service, length-none env.method),
)

texts :
    (env : RpcWireEnvelope)
    → (bad_identifier env ≡ false → IsText env) × (bad_identifier env ≡ true → ¬ IsText env)
texts env = (λ h. ground arith, λ h t. ground arith)

check_envelope-Verdict :
    (env : RpcWireEnvelope) (is_response : Bool)
    → Verdict env is_response (check_envelope env is_response)
unfolding check_envelope
check_envelope-Verdict env is_response = elim (Bool-cases (env.profile_version == 1)) [
  | inr v ↦ rw v (wrong_version (ground (arith, v)))
  | inl v ↦
      let version : env.profile_version ≡ 1 = (==_iff env.profile_version 1).0 v in
      rw v (elim (Bool-cases (missing_identifier env)) [
        | inl m ↦ rw m (unnamed version ((named env).1 m))
        | inr m ↦ rw m (elim (Bool-cases (bad_identifier env)) [
          | inl t ↦ rw t (not_text version ((named env).0 m) ((texts env).1 t))
          | inr t ↦ rw t (budgeted version ((named env).0 m) ((texts env).0 t))
        ])
      ])
]
  where
    behind :
        env.profile_version ≡ 1
        → IsNamed env
        → IsText env
        → (1 ≤ env.remaining_budget_ms) × (env.remaining_budget_ms ≤ 24 * 60 * 60 * 1000)
        → Verdict env is_response
            (then_check (validate_metadata env.metadata) (check_outcome env is_response))
    behind v n t b = elim (Option-cases (validate_metadata env.metadata)) [
      | inl m ↦ rw m (
          judged (check_outcome env is_response) v n t b m
            (check_outcome-OutcomeVerdict env is_response))
      | inr (e, m) ↦ rw m (bad_metadata e v n t b m)
    ]

    budgeted :
        env.profile_version ≡ 1
        → IsNamed env
        → IsText env
        → Verdict env is_response (
            if env.remaining_budget_ms == 0
            then some (
                make_error ErrorCode.invalid_argument
                  (codes "remaining_budget_ms zero is rejected"))
            else if ltb 86400000 env.remaining_budget_ms
            then some
                (make_error ErrorCode.invalid_argument (codes "remaining_budget_ms exceeds max"))
            else then_check (validate_metadata env.metadata) (check_outcome env is_response))
    budgeted v n t = elim (Bool-cases (env.remaining_budget_ms == 0)) [
      | inl z ↦ rw z (no_budget v n t ((==_iff env.remaining_budget_ms 0).0 z))
      | inr z ↦ rw z (elim (Bool-cases (ltb 86400000 env.remaining_budget_ms)) [
        | inl k ↦ rw k (much_budget v n t (ground (arith, k)))
        | inr k ↦ rw k (behind v n t (ground (arith, z, k)))
      ])
    ]

-- `ValidateRpcWireEnvelope` answers for the first of these that fails, in this order, and with its
-- own code and text: the profile version is 1; request id, service and method are there; the five
-- identifiers are UTF-8; the budget is not 0; it is not above 24 hours; the metadata pass their
-- check; the outcome may be sent in this direction. It answers no error where all hold: the second
-- test of the phase, while the message is filled in, refuses no envelope.
pub validate_rpc_wire_envelope-Verdict :
    (env : RpcWireEnvelope) (is_response : Bool)
    → Verdict env is_response (validate_rpc_wire_envelope env is_response)
validate_rpc_wire_envelope-Verdict env is_response =
    subst (Verdict env is_response)
      (sym (validate_rpc_wire_envelope-check_envelope env is_response))
      (check_envelope-Verdict env is_response)
