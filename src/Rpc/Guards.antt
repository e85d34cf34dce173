-- ===== src/Rpc/Guards.antt =====
-- What an envelope satisfies that has passed the guards of `FillProto`.
use bbtools_infra.Common.{
  ℕ, ◌≡◌, refl, Bool, true, false, none, List, [], ◌∷◌, ◌++◌, map, arith, ltb, ◌==◌,
}
use bbtools_infra.Rpc.Errors.{details_loop}
use bbtools_infra.Rpc.Message.{entries_are_text}
use bbtools_infra.Rpc.Checks.{validate_metadata, metadata_loop}
use bbtools_infra.Rpc.Wire.{
  RpcWireEnvelope, check_envelope, check_outcome, missing_identifier, bad_identifier, profile,
  max_remaining_budget_ms, entry_of,
}

-- What both directions ask of the fields outside the outcome.
pub record Guarded (env : RpcWireEnvelope) : Type 0 where
  pub version : (env.profile_version == profile) ≡ true
  pub present : missing_identifier env ≡ false
  pub text : bad_identifier env ≡ false
  pub some_budget : (env.remaining_budget_ms == 0) ≡ false
  pub budget_fits : ltb max_remaining_budget_ms env.remaining_budget_ms ≡ false
  pub tagged : validate_metadata env.metadata ≡ none

pub check_envelope-Guarded :
    (env : RpcWireEnvelope) (is_response : Bool)
    → check_envelope env is_response ≡ none
    → Guarded env × (check_outcome env is_response ≡ none)
unfolding check_envelope
check_envelope-Guarded env is_response h = ground arith

pub Guarded-check_envelope :
    (env : RpcWireEnvelope) (is_response : Bool)
    → Guarded env
    → check_outcome env is_response ≡ none
    → check_envelope env is_response ≡ none
unfolding check_envelope
Guarded-check_envelope env is_response g h =
    rw (g.version, g.present, g.text, g.some_budget, g.budget_fits, g.tagged) h

pub entries-text :
    (before xs : List (List ℕ × List ℕ))
    → metadata_loop before xs ≡ none
    → entries_are_text (map entry_of xs) ≡ true
unfolding metadata_loop
entries-text before [] h = refl
entries-text before ((k, v) ∷ rest) h = ground (arith, entries-text (before ++ (k, v) ∷ []) rest)

pub details-text :
    (before xs : List (List ℕ × List ℕ))
    → details_loop before xs ≡ none
    → entries_are_text (map entry_of xs) ≡ true
unfolding details_loop
details-text before [] h = refl
details-text before ((k, v) ∷ rest) h = ground (arith, details-text (before ++ (k, v) ∷ []) rest)
