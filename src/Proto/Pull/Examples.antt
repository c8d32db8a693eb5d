-- ===== src/Proto/Pull/Examples.antt =====
-- A pull socket over three pipes, two of which have a message.
use scaproust.Prelude.{◌+◌, ◌≡◌, refl, true, false, some, none, ok, [], ◌∷◌}
use scaproust.Core.Context.{World, Action, Reply, act, check_recv_ready_change, cancel_timeout}
use scaproust.Core.Log.{replies}
use scaproust.Proto.Call.{Call}
use scaproust.Proto.Answering.{here, next}
use scaproust.Core.Config
use scaproust.Core.Socket.Local.{Socket}
use scaproust.Proto.Priolist.{peek}
use scaproust.Proto.Pipes
use scaproust.Proto.Policy.{fair_recv}
use scaproust.Proto.Priolist
use scaproust.Proto.Priolist.{Priolist}
use scaproust.Proto.Pull.{Pull, step, apply}
use scaproust.Proto.Pull.Inner
use scaproust.Proto.Pull.Inner.{Inner}
use scaproust.Proto.Pull.State
use scaproust.Proto.Pull.State.{State, idle, receiving, recv_on_hold}
use scaproust.Proto.Pull.Invariant.{IsSound}
use scaproust.Proto.Pull.History.{IsValid, waiting_in, Pull-Run_answered}
use scaproust.Proto.Fixtures.{
  ready_list, ready_pipes, ready_list-IsCovered, quiet_list, quiet_list-IsCovered, hello, world,
}

abbrev inner : Inner
inner = record { pipes = ready_pipes; fq = ready_list }

abbrev socket : Pull
socket = record { inner = inner; state = some idle }

socket-IsValid : IsValid socket
socket-IsValid = record {
  state = idle;
  present = refl;
  sound = record { covered = ready_list-IsCovered; held = tt };
}

-- The socket has asked endpoint 1, and endpoint 2 is next.
abbrev asked : Pull
asked = record {
  inner = record {
    pipes = ready_pipes;
    fq = record {
      items =
          record { value = 1; priority = 8; active = false }
          ∷ record { value = 2; priority = 8; active = true }
          ∷ record { value = 3; priority = 9; active = false }
          ∷ [];
      current = some (1, 8);
    };
  };
  state = some (receiving 1 none);
}

abbrev asked_world : World
asked_world = record world { log = Action.recv 1 ∷ [] }

abbrev answered : Pull
answered = record asked { state = some idle }

abbrev answered_world : World
answered_world = record world { log = Action.reply (Reply.recv hello) ∷ Action.recv 1 ∷ [] }

asks : step socket (Call.recv none) world ≡ ok (asked, asked_world)
unfolding step apply State.recv Inner.recv fair_recv Priolist.pop Pipes.recv_from Pipes.get act
    check_recv_ready_change Inner.is_recv_ready Priolist.peek
asks = refl

answers : step asked (Call.on_recv_ack 1 hello) asked_world ≡ ok (answered, answered_world)
unfolding step apply State.on_recv_ack Inner.on_recv_ack cancel_timeout act check_recv_ready_change
    Inner.is_recv_ready Priolist.peek
answers = refl

Pull-Run_answered_example :
    IsValid answered
    × (replies answered_world.log + waiting_in answered ≡ replies world.log + waiting_in socket + 1)
Pull-Run_answered_example =
    Pull-Run_answered socket-IsValid
      (next (Call.on_recv_ack 1 hello) (next (Call.recv none) here refl asks) tt answers)

abbrev quiet : Inner
quiet = record { pipes = ready_pipes; fq = quiet_list }

quiet-IsSound : IsSound (recv_on_hold none) quiet
unfolding Priolist.peek
quiet-IsSound = record { covered = quiet_list-IsCovered; held = refl }

abbrev connected : Socket Pull
connected = record {
  id = 1;
  protocol = socket;
  pipes = [];
  acceptors = [];
  config = Config.default;
}
