-- ===== src/Transport/Async/Active.antt =====
-- src/transport/async/active/unix.rs: an open pipe.
use scaproust.Prelude.{Bool, true, false, not, Option, none, some, ◌∷◌, if◌then◌else◌}
use scaproust.Core.Message.{Message}
use scaproust.Core.Context.{other}
use scaproust.Transport.Io.{Ran, success, failure, panicked, out_of_fuel, Io, ◌>>=◌}
use scaproust.Transport.Async.Stub.{
  AsyncPipeStub, opened, sent, can_send, can_recv, received, Ready, raise, reregister_all, Log,
}

pub record Active (S : Type 0) : Type 0 where
  pub stub : S
  pub can_send_msg : Bool
  pub can_recv_msg : Bool

unfoldable pub new : {S : Type 0} → S → Active S
new s = record { stub = s; can_send_msg = false; can_recv_msg = false }

-- A call of the stub, on the pipe and the log.
unfoldable pub on_stub : {S A : Type 0} → Active S × Log → Ran S A → Ran (Active S × Log) A
on_stub (a, log) (success x s) = success x (record a { stub = s }, log)
on_stub (a, log) (failure e s) = failure e (record a { stub = s }, log)
on_stub (a, log) panicked = panicked
on_stub (a, log) out_of_fuel = out_of_fuel

unfoldable pub on_send_progress : {S : Type 0} → Bool → Io (Active S × Log) (Unit {0})
on_send_progress done (a, log) = success tt (a, (if done then raise sent ∷ log else log))

unfoldable pub on_recv_progress : {S : Type 0} → Option Message → Io (Active S × Log) (Unit {0})
on_recv_progress none (a, log) = success tt (a, log)
on_recv_progress (some msg) (a, log) = success tt (a, raise (received msg) ∷ log)

abbrev pub differ : Bool → Bool → Bool
differ true b = not b
differ false b = b

unfoldable pub change_can_send : {S : Type 0} → Bool → Io (Active S × Log) (Unit {0})
change_can_send now (a, log) = success tt (
    if differ a.can_send_msg now
    then (record a { can_send_msg = now }, raise (can_send now) ∷ log)
    else (a, log))

unfoldable pub change_can_recv : {S : Type 0} → Bool → Io (Active S × Log) (Unit {0})
change_can_recv now (a, log) = success tt (
    if differ a.can_recv_msg now
    then (record a { can_recv_msg = now }, raise (can_recv now) ∷ log)
    else (a, log))

unfoldable pub hang_up_changed : {S : Type 0} → Bool → Io (Active S × Log) (Unit {0})
hang_up_changed true (a, log) =
    failure (record { kind = other; text = "hup" })
      (record a { can_send_msg = false; can_recv_msg = false }, log)
hang_up_changed false (a, log) = success tt (a, log)

unfoldable pub enter : {S : Type 0} → Active S → Log → Log
enter a log = raise opened ∷ reregister_all ∷ log

module _ {S : Type 0} (stub : AsyncPipeStub S) where
  unfoldable pub start_send : Message → Io (Active S × Log) Bool
  start_send msg (a, log) =
      on_stub (record a { can_send_msg = false }, log) (stub.start_send msg a.stub)

  unfoldable pub start_recv : Io (Active S × Log) (Option Message)
  start_recv (a, log) = on_stub (record a { can_recv_msg = false }, log) (stub.start_recv a.stub)

  unfoldable pub resume_send : Io (Active S × Log) Bool
  resume_send (a, log) = on_stub (a, log) (stub.resume_send a.stub)

  unfoldable pub resume_recv : Io (Active S × Log) (Option Message)
  resume_recv (a, log) = on_stub (a, log) (stub.resume_recv a.stub)

  unfoldable pub writable_changed : Ready → Io (Active S × Log) (Unit {0})
  writable_changed events (a, log) =
      if not events.writable
      then change_can_send false (a, log)
      else if stub.has_pending_send a.stub
      then (resume_send >>= on_send_progress) (a, log)
      else if not events.hup
      then change_can_send true (a, log)
      else success tt (a, log)

  unfoldable pub readable_changed : Ready → Io (Active S × Log) (Unit {0})
  readable_changed events (a, log) =
      if not events.readable
      then change_can_recv false (a, log)
      else if stub.has_pending_recv a.stub
      then (resume_recv >>= on_recv_progress) (a, log)
      else if not events.hup
      then change_can_recv true (a, log)
      else success tt (a, log)

  unfoldable pub send : Message → Io (Active S × Log) (Unit {0})
  send msg = start_send msg >>= on_send_progress

  unfoldable pub recv : Io (Active S × Log) (Unit {0})
  recv = start_recv >>= on_recv_progress

  unfoldable pub ready : Ready → Io (Active S × Log) (Unit {0})
  ready events = do
    _ ← readable_changed events
    _ ← writable_changed events
    hang_up_changed events.hup
