-- ===== src/Net/Connection/Close.antt =====
-- `RequestClose` and `MarkClosed`.
use bbtools_infra.Common.{ℕ, true, ◌&&◌, not, [], map, if◌then◌else◌, is_empty}
use bbtools_infra.Net.Circular.{CircularBuffer}
use bbtools_infra.Net.Errors.{ErrorCode, generic, operation_canceled, is_error}
use bbtools_infra.Net.Receive.State.{Env}
use bbtools_infra.Net.Receive.Notify
use bbtools_infra.Net.Connection.State.{
  settling, closed, WriteOpRecord, CompletedWrite, ConnectionState, log, writers_notified,
  closers_notified, wake_owner, is_closed, is_open,
}
use bbtools_infra.Net.Connection.Pump.{settle, discard_queue}

-- An unfinished write is over with the error; its count of unsent bytes stays.
abbrev pub canceled_with : ErrorCode → WriteOpRecord → WriteOpRecord
canceled_with e o = record o { terminal = true; error = e }

abbrev pub settle_error : ErrorCode → ErrorCode
settle_error reason = if is_error reason then reason else generic operation_canceled

module _ {C : CircularBuffer ℕ} {D : CircularBuffer CompletedWrite} where
  abbrev pub reason_of : ErrorCode → ConnectionState C D → ErrorCode
  reason_of reason c = if c.close_requested then c.close_reason else reason

  abbrev pub close_writes : ErrorCode → ConnectionState C D → ConnectionState C D
  close_writes reason c =
      discard_queue (record (settle [] (map (canceled_with (settle_error reason)) c.ops) c) {
        close_reason = reason;
        close_requested = true;
        acceptance = closed;
        last_error = if is_empty c.ops then reason else settle_error reason;
      })

  abbrev pub publish_closed : Env → ConnectionState C D → ConnectionState C D
  publish_closed env c = record c {
    ring = if c.read_closed_published then c.ring else Notify.mark_closed C env c.ring;
    read_closed_published = true;
  }

  unfoldable pub mark_closed : Env → ErrorCode → ConnectionState C D → ConnectionState C D
  mark_closed env reason c =
      if is_closed c.acceptance && (is_empty c.ops && c.read_closed_published)
      then c
      else wake_owner (
          log closers_notified
            (log writers_notified (publish_closed env (close_writes (reason_of reason c) c))))

  abbrev pub intend_close : ErrorCode → ConnectionState C D → ConnectionState C D
  intend_close reason c = record c {
    close_requested = true;
    close_reason = reason_of reason c;
    acceptance = if is_open c.acceptance then settling else c.acceptance;
  }

  unfoldable pub request_close : Env → ErrorCode → ConnectionState C D → ConnectionState C D
  request_close env reason c =
      if c.read_closed_published
      then c
      else if not c.has_owner
      then mark_closed env reason (intend_close reason c)
      else wake_owner (intend_close reason c)
