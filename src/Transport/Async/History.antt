-- ===== src/Transport/Async/History.antt =====
-- src/transport/async: a pipe over any sequence of calls, and what its log tells.
use scaproust.Prelude.{ℕ, suc, ◌+◌, ◌≡◌, Bool, true, false, not, Option, List, [], ◌∷◌}
use scaproust.Core.Message.{Message}
use scaproust.Transport.Io.{success, Io}
use scaproust.Transport.Async.Stub.{
  AsyncPipeStub, Event, opened, closed, sent, error, Ready, raise, Log,
}
use scaproust.Transport.Async.State as State
use scaproust.Transport.Async.State.{PipeState, initial, active}

-- A call of the pipe.
pub data Call : Type 0 where
  open_pipe close recv : Call
  send : Message → Call
  ready : Ready → Call

unfoldable pub step : {S : Type 0} → AsyncPipeStub S → PipeState S → Call → Io Log (PipeState S)
step stub state open_pipe = State.open_pipe state
step stub state close = State.close state
step stub state recv = State.recv stub state
step stub state (send msg) = State.send stub state msg
step stub state (ready events) = State.ready stub state events

-- The beginning and the end of a pipe, the latest first: `Opened`, `Error` and `Closed`.
abbrev pub milestones : Log → List Event
milestones [] = []
milestones (raise opened ∷ log) = opened ∷ milestones log
milestones (raise closed ∷ log) = closed ∷ milestones log
milestones (raise (error e) ∷ log) = error e ∷ milestones log
milestones (_ ∷ log) = milestones log

-- The messages that are reported as sent.
abbrev pub sent_count : Log → ℕ
sent_count [] = 0
sent_count (raise sent ∷ log) = suc (sent_count log)
sent_count (_ ∷ log) = sent_count log

abbrev pub pending : Bool → ℕ
pending true = 1
pending false = 0

-- The message that a call starts to send.
abbrev pub starts : {S : Type 0} → PipeState S → Call → ℕ
starts (active a) (send msg) = 1
starts _ _ = 0

-- On an open pipe a message is sent only when none is under way.
abbrev pub Admissible : {S : Type 0} → AsyncPipeStub S → PipeState S → Call → Type 0
Admissible stub (active a) (send msg) = stub.has_pending_send a.stub ≡ false
Admissible stub _ _ = Unit {0}

-- From a new pipe to `q` with its log: a sequence of admissible calls, of which `n` have started to
-- send a message.
pub data Run {S : Type 0} (stub : AsyncPipeStub S) (s : S) (pids : ℕ × ℕ)
    : PipeState S → Log → ℕ → Type 0 where
  start : Run stub s pids (initial s pids) [] 0
  next :
      (q r : PipeState S) (log log' : Log) (n : ℕ) (c : Call)
      → Run stub s pids q log n
      → Admissible stub q c
      → step stub q c log ≡ success r log'
      → Run stub s pids r log' (n + starts q c)

-- What the pipe asks of its stub: an operation that gives `false` is pending until one gives `true`,
-- and receiving and the handshake leave it alone.
pub record IsAsyncPipeStub {S : Type 0} (stub : AsyncPipeStub S) : Type 0 where
  pub start_send-pending :
      (msg : Message) (s s' : S) (done : Bool)
      → stub.has_pending_send s ≡ false
      → stub.start_send msg s ≡ success done s'
      → stub.has_pending_send s' ≡ not done
  pub resume_send-pending :
      (s s' : S) (done : Bool)
      → stub.resume_send s ≡ success done s'
      → stub.has_pending_send s' ≡ not done
  pub start_recv-pending :
      (s s' : S) (m : Option Message)
      → stub.start_recv s ≡ success m s'
      → stub.has_pending_send s' ≡ stub.has_pending_send s
  pub resume_recv-pending :
      (s s' : S) (m : Option Message)
      → stub.resume_recv s ≡ success m s'
      → stub.has_pending_send s' ≡ stub.has_pending_send s
  pub send_handshake-pending :
      (pids : ℕ × ℕ) (s s' : S)
      → stub.send_handshake pids s ≡ success tt s'
      → stub.has_pending_send s' ≡ stub.has_pending_send s
  pub recv_handshake-pending :
      (pids : ℕ × ℕ) (s s' : S)
      → stub.recv_handshake pids s ≡ success tt s'
      → stub.has_pending_send s' ≡ stub.has_pending_send s
