-- ===== src/Transport/Async/Lifecycle.antt =====
-- src/transport/async: the life of a pipe and the messages that it sends.
use scaproust.Prelude.{ℕ, ◌+◌, ◌≡◌, ◌≢◌, refl, ap, subst, inl, inr, false, ◌∷◌, arith, Bool-cases}
use native.Mathlib.Nat.{add-zero}
use scaproust.Core.Message.{Message}
use scaproust.Transport.Io.{Ran}
use scaproust.Transport.Async.Stub.{AsyncPipeStub, Ready, Action, Log}
use scaproust.Transport.Async.Active as Active
use scaproust.Transport.Async.State as State
use scaproust.Transport.Async.State.{
  PipeState, initial, handshake_tx, handshake_rx, active, dead, transition_if_ok,
  no_transition_if_ok, enter_tx, enter_rx, enter_active,
}
use scaproust.Transport.Async.History.{
  Call, step, Run, start, next, Admissible, starts, IsAsyncPipeStub,
}
use scaproust.Transport.Async.Accounts.{account, send-Settles, recv-Settles, ready-Settles}
use scaproust.Transport.Async.Phases.{IsSound, Sound, ends-Sound, tx-Sound, rx-Sound, active-Sound}

module _ {S : Type 0} (stub : AsyncPipeStub S) (laws : IsAsyncPipeStub stub) where
  ready-Sound :
      (n : ℕ) (q : PipeState S) (log : Log) (events : Ready)
      → IsSound stub n q log
      → Sound stub n (State.ready stub q events log)
  unfolding State.ready account Sound
  ready-Sound n (initial s pids) log events h = ends-Sound stub n (initial s pids) log h
  ready-Sound n (handshake_tx s pids) log events h = elim (Bool-cases events.writable) [
    | inl on ↦
        rw (on, State.ready)
          (tx-Sound stub n pids s log (stub.send_handshake pids s) h
            (laws.send_handshake-pending pids s))
    | inr off ↦ rw (off, State.ready) h
  ]
  ready-Sound n (handshake_rx s pids) log events h = elim (Bool-cases events.readable) [
    | inl on ↦
        rw (on, State.ready)
          (rx-Sound stub n pids s log (stub.recv_handshake pids s) h
            (laws.recv_handshake-pending pids s))
    | inr off ↦ rw (off, State.ready) h
  ]
  ready-Sound n (active a) log events h =
      active-Sound stub n _ log (Active.ready stub events (a, log)) h.phase h.accounted
        (ready-Settles stub laws events a log)
  ready-Sound n dead log events h = h

  recv-Sound :
      (n : ℕ) (q : PipeState S) (log : Log)
      → IsSound stub n q log
      → Sound stub n (State.recv stub q log)
  unfolding State.recv account Sound
  recv-Sound n (initial s pids) log h = ends-Sound stub n (initial s pids) log h
  recv-Sound n (handshake_tx s pids) log h = ends-Sound stub n (handshake_tx s pids) log h
  recv-Sound n (handshake_rx s pids) log h = ends-Sound stub n (handshake_rx s pids) log h
  recv-Sound n (active a) log h =
      active-Sound stub n _ log (Active.recv stub (a, log)) h.phase h.accounted
        (recv-Settles stub laws a log)
  recv-Sound n dead log h = h

  send-Sound :
      (n : ℕ) (q : PipeState S) (log : Log) (msg : Message)
      → IsSound stub n q log
      → Admissible stub q (Call.send msg)
      → Sound stub (n + starts q (Call.send msg)) (State.send stub q msg log)
  unfolding State.send account Sound
  send-Sound n (initial s pids) log msg h free =
      rw add-zero (ends-Sound stub n (initial s pids) log h)
  send-Sound n (handshake_tx s pids) log msg h free =
      rw add-zero (ends-Sound stub n (handshake_tx s pids) log h)
  send-Sound n (handshake_rx s pids) log msg h free =
      rw add-zero (ends-Sound stub n (handshake_rx s pids) log h)
  send-Sound n (active a) log msg h free =
      active-Sound stub (n + 1) _ log (Active.send stub msg (a, log)) h.phase
        (ap (λ k. k + 1) h.accounted) (send-Settles stub laws msg a log free)
  send-Sound n dead log msg h free = rw add-zero h

  open_pipe-Sound :
      (n : ℕ) (q : PipeState S) (log : Log)
      → IsSound stub n q log
      → Sound stub n (State.open_pipe q log)
  unfolding State.open_pipe enter_tx Sound
  open_pipe-Sound n (initial s pids) log h = record { phase = h.phase; accounted = h.accounted }
  open_pipe-Sound n (handshake_tx s pids) log h = ends-Sound stub n (handshake_tx s pids) log h
  open_pipe-Sound n (handshake_rx s pids) log h = ends-Sound stub n (handshake_rx s pids) log h
  open_pipe-Sound n (active a) log h = ends-Sound stub n (active a) log h
  open_pipe-Sound n dead log h = h

  -- To deregister raises nothing.
  deregistered :
      (n : ℕ) (log : Log) → IsSound stub n dead log → IsSound stub n dead (Action.deregister ∷ log)
  deregistered n log h = record { phase = h.phase; accounted = h.accounted }

  close-Sound :
      (n : ℕ) (q : PipeState S) (log : Log)
      → IsSound stub n q log
      → Sound stub n (State.close q log)
  unfolding State.close Sound
  close-Sound n (initial s pids) log h = ends-Sound stub n (initial s pids) log h
  close-Sound n (handshake_tx s pids) log h =
      deregistered n log (ends-Sound stub n (handshake_tx s pids) log h)
  close-Sound n (handshake_rx s pids) log h =
      deregistered n log (ends-Sound stub n (handshake_rx s pids) log h)
  close-Sound n (active a) log h = deregistered n log (ends-Sound stub n (active a) log h)
  close-Sound n dead log h = h

  plain :
      (n : ℕ) (q : PipeState S) (c : Call) (r : Ran Log (PipeState S))
      → starts q c ≡ 0
      → Sound stub n r
      → Sound stub (n + starts q c) r
  plain n q c r none_started h = subst (λ k. Sound stub k r) (omega (arith, none_started)) h

  starts-nothing :
      (q : PipeState S) (c : Call) → ((msg : Message) → c ≢ Call.send msg) → starts q c ≡ 0
  starts-nothing (active a) (Call.send msg) other = absurd (other msg refl)
  starts-nothing (active a) Call.open_pipe other = refl
  starts-nothing (active a) Call.close other = refl
  starts-nothing (active a) Call.recv other = refl
  starts-nothing (active a) (Call.ready events) other = refl
  starts-nothing (initial s pids) c other = refl
  starts-nothing (handshake_tx s pids) c other = refl
  starts-nothing (handshake_rx s pids) c other = refl
  starts-nothing dead c other = refl

  step-Sound :
      (n : ℕ) (q : PipeState S) (log : Log) (c : Call)
      → IsSound stub n q log
      → Admissible stub q c
      → Sound stub (n + starts q c) (step stub q c log)
  unfolding step
  step-Sound n q log (Call.send msg) h free = send-Sound n q log msg h free
  step-Sound n q log Call.open_pipe h free =
      plain n q Call.open_pipe _ (starts-nothing q Call.open_pipe (λ msg e. cc e))
        (open_pipe-Sound n q log h)
  step-Sound n q log Call.close h free =
      plain n q Call.close _ (starts-nothing q Call.close (λ msg e. cc e)) (close-Sound n q log h)
  step-Sound n q log Call.recv h free =
      plain n q Call.recv _ (starts-nothing q Call.recv (λ msg e. cc e)) (recv-Sound n q log h)
  step-Sound n q log (Call.ready events) h free =
      plain n q (Call.ready events) _ (starts-nothing q (Call.ready events) (λ msg e. cc e))
        (ready-Sound n q log events h)

  -- Over any history of calls on a new pipe whose stub keeps its contract and has nothing under way,
  -- where a message is sent on an open pipe only when none is under way there: `Opened` is raised
  -- once on the way to the open state, where no error has been raised; the pipe ends with one
  -- `Error` or none, and `Closed` is never raised. On an open pipe the messages given to it are
  -- those reported as sent and the one under way; on a dead one no more are reported than given.
  pub Run-IsSound :
      (s : S) (pids : ℕ × ℕ) (q : PipeState S) (log : Log) (n : ℕ)
      → stub.has_pending_send s ≡ false
      → Run stub s pids q log n
      → IsSound stub n q log
  unfolding Sound
  Run-IsSound s pids _ _ _ idle start = record { phase = refl; accounted = (refl, idle) }
  Run-IsSound s pids _ _ _ idle (next q r log log' n c before free e) =
      subst (Sound stub (n + starts q c)) e
        (step-Sound n q log c (Run-IsSound s pids q log n idle before) free)
