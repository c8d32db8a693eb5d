-- ===== src/Transport/Async/State.antt =====
-- src/transport/async/{mod,state,initial,handshake,dead}.rs: the states of a pipe, and what each does
-- on a command or on readiness. A call that a state does not expect ends the pipe.
use scaproust.Prelude.{ℕ, ◌∷◌, if◌then◌else◌}
use scaproust.Core.Message.{Message}
use scaproust.Transport.Io.{Ran, success, failure, panicked, out_of_fuel, Io}
use scaproust.Transport.Async.Stub.{
  AsyncPipeStub, error, Ready, raise, register_writable, reregister_readable, deregister, Log,
}
use scaproust.Transport.Async.Active
use scaproust.Transport.Async.Active.{Active}

pub data PipeState (S : Type 0) : Type 0 where
  initial handshake_tx handshake_rx : S → ℕ × ℕ → PipeState S
  active : Active S → PipeState S
  dead : PipeState S

-- `transition_if_ok` from one handshake state: the next one is entered, or the error is raised.
unfoldable pub transition_if_ok :
    {S : Type 0} → (S → Log → Ran Log (PipeState S)) → Ran S (Unit {0}) → Io Log (PipeState S)
transition_if_ok enter (success _ s) log = enter s log
transition_if_ok enter (failure e s) log = success dead (raise (error e) ∷ log)
transition_if_ok enter panicked log = panicked
transition_if_ok enter out_of_fuel log = out_of_fuel

unfoldable pub no_transition_if_ok :
    {S : Type 0} → Ran (Active S × Log) (Unit {0}) → Ran Log (PipeState S)
no_transition_if_ok (success _ (a, log)) = success (active a) log
no_transition_if_ok (failure e (a, log)) = success dead (raise (error e) ∷ log)
no_transition_if_ok panicked = panicked
no_transition_if_ok out_of_fuel = out_of_fuel

unfoldable pub enter_tx : {S : Type 0} → S → ℕ × ℕ → Io Log (PipeState S)
enter_tx s pids log = success (handshake_tx s pids) (register_writable ∷ log)

unfoldable pub enter_rx : {S : Type 0} → ℕ × ℕ → S → Io Log (PipeState S)
enter_rx pids s log = success (handshake_rx s pids) (reregister_readable ∷ log)

unfoldable pub enter_active : {S : Type 0} → S → Io Log (PipeState S)
enter_active s log = success (active (Active.new s)) (Active.enter (Active.new s) log)

unfoldable pub open_pipe : {S : Type 0} → PipeState S → Io Log (PipeState S)
open_pipe (initial s pids) log = enter_tx s pids log
open_pipe _ log = success dead log

unfoldable pub close : {S : Type 0} → PipeState S → Io Log (PipeState S)
close (initial s pids) log = success dead log
close dead log = success dead log
close _ log = success dead (deregister ∷ log)

module _ {S : Type 0} (stub : AsyncPipeStub S) where
  unfoldable pub send : PipeState S → Message → Io Log (PipeState S)
  send (active a) msg log = no_transition_if_ok (Active.send stub msg (a, log))
  send _ msg log = success dead log

  unfoldable pub recv : PipeState S → Io Log (PipeState S)
  recv (active a) log = no_transition_if_ok (Active.recv stub (a, log))
  recv _ log = success dead log

  unfoldable pub ready : PipeState S → Ready → Io Log (PipeState S)
  ready (initial s pids) events log = success dead log
  ready (handshake_tx s pids) events log =
      if events.writable
      then transition_if_ok (enter_rx pids) (stub.send_handshake pids s) log
      else success (handshake_tx s pids) log
  ready (handshake_rx s pids) events log =
      if events.readable
      then transition_if_ok enter_active (stub.recv_handshake pids s) log
      else success (handshake_rx s pids) log
  ready (active a) events log = no_transition_if_ok (Active.ready stub events (a, log))
  ready dead events log = success dead log
