-- ===== src/Net/Handle/Laws.antt =====
-- What the handle of a write says once the connection is closed, and what a read into a buffer gives.
use bbtools_infra.Common.{
  ℕ, ◌≡◌, sym, ◌∙◌, some, List, [], ◌∷◌, ◌++◌, append-nil, append_assoc, flatten,
}
use bbtools_infra.Net.Connection.State.{WriteOpRecord}
use bbtools_infra.Net.Connection.Invariant.{IsHonest}
use bbtools_infra.Net.Handle.{find_record, append_to}

-- The record of an id that is listed.
record Found (n : ℕ) (os : List WriteOpRecord) : Type 0 where
  op : WriteOpRecord
  same_id : op.id ≡ n
  at_id : find_record n os ≡ some op
  honest : IsHonest op

-- The bytes that a buffer's copy gives are those of its segments, in order.
append_to-flatten : (ss : List (List ℕ)) (out : List ℕ) → append_to ss out ≡ out ++ flatten ss
append_to-flatten [] out = sym (append-nil out)
append_to-flatten (s ∷ ss) out = append_to-flatten ss (out ++ s) ∙ append_assoc out s (flatten ss)
