-- ===== src/Proto/Push/Examples.antt =====
-- A push socket over three pipes, two of which can send.
use scaproust.Prelude.{◌+◌, ◌≡◌, ◌≢◌, ◌⊎◌, refl, true, false, some, none, ok, [], ◌∷◌}
use scaproust.Core.Message.{Message}
use scaproust.Core.Context.{
  World, Action, Timeout, Reply, act, check_send_ready_change, cancel_timeout,
}
use scaproust.Core.Log.{replies}
use scaproust.Proto.Call.{Call}
use scaproust.Proto.Answering.{here, next}
use scaproust.Proto.Pipes
use scaproust.Proto.Policy.{balanced_send}
use scaproust.Proto.Priolist
use scaproust.Proto.Priolist.{Priolist}
use scaproust.Proto.Push.{Push, step, apply}
use scaproust.Proto.Push.Inner
use scaproust.Proto.Push.Inner.{Inner}
use scaproust.Proto.Push.State
use scaproust.Proto.Push.State.{State, idle, sending, send_on_hold}
use scaproust.Proto.Push.Invariant.{IsSound}
use scaproust.Proto.Push.History.{IsValid, waiting_in, Push-Run_answered}
use scaproust.Proto.Push.Delivery.{Leaves, on_pipe_removed-resends}
use scaproust.Proto.Fixtures.{
  ready_list, ready_pipes, ready_list-IsCovered, quiet_list, quiet_list-IsCovered, hello, world,
}

abbrev inner : Inner
inner = record { pipes = ready_pipes; lb = ready_list }

abbrev socket : Push
socket = record { inner = inner; state = some idle }

socket-IsValid : IsValid socket
socket-IsValid = record {
  state = idle;
  present = refl;
  sound = record { covered = ready_list-IsCovered; held = tt };
}

-- The socket has sent by endpoint 1, and endpoint 2 is next.
abbrev sent : Push
sent = record {
  inner = record {
    pipes = ready_pipes;
    lb = record {
      items =
          record { value = 1; priority = 8; active = false }
          ∷ record { value = 2; priority = 8; active = true }
          ∷ record { value = 3; priority = 9; active = false }
          ∷ [];
      current = some (1, 8);
    };
  };
  state = some (sending 1 hello none);
}

abbrev sent_world : World
sent_world = record world { log = Action.send 1 hello ∷ [] }

abbrev acked : Push
acked = record sent { state = some idle }

abbrev acked_world : World
acked_world = record world { log = Action.reply Reply.send ∷ Action.send 1 hello ∷ [] }

sends : step socket (Call.send hello none) world ≡ ok (sent, sent_world)
unfolding step apply State.send Inner.send balanced_send Priolist.pop Pipes.send_to Pipes.get act
    check_send_ready_change Inner.is_send_ready Priolist.peek
sends = refl

acks : step sent (Call.on_send_ack 1) sent_world ≡ ok (acked, acked_world)
unfolding step apply State.on_send_ack Inner.on_send_ack cancel_timeout act check_send_ready_change
    Inner.is_send_ready Priolist.peek
acks = refl

Push-Run_answered_example :
    IsValid acked
    × (replies acked_world.log + waiting_in acked ≡ replies world.log + waiting_in socket + 1)
Push-Run_answered_example =
    Push-Run_answered socket-IsValid
      (next (Call.on_send_ack 1) (next (Call.send hello none) here refl sends) tt acks)

on_pipe_removed-resends_example :
    ((msg : Message) × (t : Timeout) × (sending 2 hello none ≡ sending 2 msg t)
      × Leaves msg t inner world (State.on_pipe_removed (sending 2 hello none) 2 inner world))
    ⊎ (((msg : Message) (t : Timeout) → sending 2 hello none ≢ sending 2 msg t)
        × (State.on_pipe_removed (sending 2 hello none) 2 inner world
            ≡ ok (sending 2 hello none, inner, world)))
on_pipe_removed-resends_example =
    on_pipe_removed-resends (sending 2 hello none) 2 inner world ready_list-IsCovered

abbrev quiet : Inner
quiet = record { pipes = ready_pipes; lb = quiet_list }

quiet-IsSound : IsSound (send_on_hold hello none) quiet
unfolding Priolist.peek
quiet-IsSound = record { covered = quiet_list-IsCovered; held = refl }
