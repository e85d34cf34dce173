-- ===== src/Net/Connection/Intent.antt =====
-- The close intent: it stays for good, with its reason, and no write is accepted under it.
use bbtools_infra.Common.{ℕ, ◌≡◌, true, List, []}
use bbtools_infra.Net.Circular.{CircularBuffer}
use bbtools_infra.Net.Errors.{ErrorCode}
use bbtools_infra.Net.Connection.State.{CompletedWrite, ConnectionState}

module _ {C : CircularBuffer ℕ} {D : CircularBuffer CompletedWrite} where
  -- The intent stands in `c` with the reason, and no write has been accepted.
  pub record Closing (reason : ErrorCode) (acc : List ℕ) (c : ConnectionState C D) : Type 0 where
    pub intent : c.close_requested ≡ true
    pub reason_kept : c.close_reason ≡ reason
    pub none_accepted : acc ≡ []
