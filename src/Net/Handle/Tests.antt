-- ===== src/Net/Handle/Tests.antt =====
-- The handle of a write on a connection that was closed under it.
use bbtools_infra.Common.{ℕ, false, true, [], ◌∷◌}
use bbtools_infra.Net.Circular.Plain.{plain}
use bbtools_infra.Net.Receive.State.{Env}
use bbtools_infra.Net.Connection.State.{CompletedWrite, ConnectionState, connection_state}
use bbtools_infra.Net.Connection.Write.{Fault, accept_write}

abbrev env : Env
env = record {
  lock_free = true;
  ring_allocates = true;
  tail_allocates = true;
  copy_allocates = true;
  hub_notifies = true;
  owner_wakes = true;
  hub_retries = true;
  owner_retries = true;
}

abbrev opened : ConnectionState (plain ℕ) (plain CompletedWrite)
opened = connection_state (plain ℕ) (plain CompletedWrite) 7 16 8 3 false

-- A write of three bytes that no pump sent.
abbrev one_write : ConnectionState (plain ℕ) (plain CompletedWrite)
one_write = (accept_write false Fault.no_fault opened (1 ∷ 2 ∷ 3 ∷ [])).2
