-- ===== src/Rpc/Errors.antt =====
-- bbt/infra/Result.hpp and impl/ResultImpl.hpp: the error of a failed operation and the check of its
-- details. A `result<void>` is the error that it holds, if any.
use bbtools_infra.Common.{
  ℕ, Bool, true, false, ◌||◌, not, Option, none, some, List, [], ◌∷◌, ◌++◌, ltb, if◌then◌else◌,
  length,
}
use bbtools_infra.Common.Int.{ℤ, pos}
use bbtools_infra.Rpc.Text.{codes, same_bytes, is_valid_utf8}

-- `enum class ErrorCode`; `unnamed` is an `int` that names no enumerator.
pub data ErrorCode : Type 0 where
  invalid_argument invalid_context runtime_unavailable closed cancelled timed_out overloaded :
      ErrorCode
  unavailable transport_error protocol_error not_found type_mismatch unsupported_route : ErrorCode
  outcome_unknown remote_error internal_error : ErrorCode
  unnamed : ℕ → ErrorCode

pub data RequestPhase : Type 0 where
  not_started connecting writing request_committed reply_terminal : RequestPhase
  unnamed : ℕ → RequestPhase

pub record Error : Type 0 where
  pub code : ErrorCode
  pub domain : List ℕ
  pub domain_code : List ℕ
  pub message : List ℕ
  pub backend_category : List ℕ
  pub backend_code : ℤ
  pub transferred_bytes : ℕ
  pub details : List (List ℕ × List ℕ)
  pub request_phase : Option RequestPhase

abbrev pub make_error : ErrorCode → List ℕ → Error
make_error c text = record {
  code = c;
  domain = codes "infra";
  domain_code = [];
  message = text;
  backend_category = [];
  backend_code = pos 0;
  transferred_bytes = 0;
  details = [];
  request_phase = none;
}

-- `Error{}`.
abbrev pub default_error : Error
default_error = make_error ErrorCode.internal_error []

pub data Result {ℓ} (A : Type ℓ) : Type ℓ where
  ok : A → Result A
  err : Error → Result A

abbrev pub is_request_committed : RequestPhase → Bool
is_request_committed RequestPhase.request_committed = true
is_request_committed RequestPhase.reply_terminal = true
is_request_committed _ = false

abbrev pub max_error_details : ℕ
max_error_details = 16

abbrev pub max_key_bytes : ℕ
max_key_bytes = 64

abbrev pub max_value_bytes : ℕ
max_value_bytes = 256

-- One of the entries before this one has the key.
abbrev pub has_key : List ℕ → List (List ℕ × List ℕ) → Bool
has_key k [] = false
has_key k ((j, v) ∷ rest) = same_bytes j k || has_key k rest

-- The rounds of the loop on the details, with the entries before and the entries left.
unfoldable pub details_loop : List (List ℕ × List ℕ) → List (List ℕ × List ℕ) → Option Error
details_loop before [] = none
details_loop before ((k, v) ∷ rest) =
    let next = details_loop (before ++ (k, v) ∷ []) rest in
    if ltb max_key_bytes (length k)
    then some (make_error ErrorCode.protocol_error (codes "error.details key exceeds max bytes"))
    else if ltb max_value_bytes (length v)
    then some (make_error ErrorCode.protocol_error (codes "error.details value exceeds max bytes"))
    else if not (is_valid_utf8 k) || not (is_valid_utf8 v)
    then some (make_error ErrorCode.protocol_error (codes "error.details not valid UTF-8"))
    else if has_key k before
    then some (make_error ErrorCode.protocol_error (codes "error.details duplicate key"))
    else next

unfoldable pub validate_error_details : Error → Option Error
validate_error_details e =
    if ltb max_error_details (length e.details)
    then some (make_error ErrorCode.protocol_error (codes "error.details exceeds max item count"))
    else details_loop [] e.details
