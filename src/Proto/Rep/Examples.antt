-- ===== src/Proto/Rep/Examples.antt =====
-- A reply socket over three pipes, which takes a request from endpoint 2.
use scaproust.Prelude.{◌+◌, ◌≡◌, refl, true, false, none, some, [], ◌∷◌, ok}
use scaproust.Core.Message.{Message, from_body, from_header_and_body}
use scaproust.Core.Context.{World, Action, act, check_send_ready_change, check_recv_ready_change}
use scaproust.Core.Log.{replies}
use scaproust.Proto.Call.{Call}
use scaproust.Proto.Answering.{here, next}
use scaproust.Proto.Pipes
use scaproust.Proto.Policy.{fair_recv}
use scaproust.Proto.Priolist
use scaproust.Proto.Rep.{Rep, step, apply}
use scaproust.Proto.Rep.Route.{trace, ends_route}
use scaproust.Proto.Rep.Inner
use scaproust.Proto.Rep.Inner.{Inner}
use scaproust.Proto.Rep.State
use scaproust.Proto.Rep.State.{State, idle, receiving}
use scaproust.Proto.Rep.History.{Rep-Run_answered}
use scaproust.Proto.Rep.Keeping.{IsValid, waiting_in}
use scaproust.Proto.Rep.Trace.{Traced, raw_msg_to_msg-Traced}
use scaproust.Proto.Fixtures.{ready_list, ready_pipes, ready_list-IsCovered, world, big_endian}

abbrev inner : Inner
inner = record {
  pipes = ready_pipes;
  fq = ready_list;
  sd = 1 ∷ 2 ∷ [];
  ttl = 8;
  backtrace = [];
  is_device_item = false;
}

abbrev socket : Rep
socket = record { inner = inner; state = some idle }

socket-IsValid : IsValid socket
socket-IsValid = record {
  state = idle;
  present = refl;
  sound = record { covered = ready_list-IsCovered; held = tt };
}

-- The receive has been passed to endpoint 1.
abbrev asking : Rep
asking = record {
  inner = record inner {
    fq = record {
      items =
          record { value = 1; priority = 8; active = false }
          ∷ record { value = 2; priority = 8; active = true }
          ∷ record { value = 3; priority = 9; active = false }
          ∷ [];
      current = some (1, 8);
    };
  };
  state = some (receiving 1 none);
}

abbrev asking_world : World
asking_world = record world { log = Action.recv 1 ∷ [] }

receives : step big_endian socket (Call.recv none) world ≡ ok (asking, asking_world)
unfolding step apply State.recv Inner.recv fair_recv Priolist.pop Pipes.recv_from Pipes.get act
    check_send_ready_change check_recv_ready_change State.is_send_ready State.is_recv_ready
    Inner.is_recv_ready Inner.is_send_ready Priolist.peek
receives = refl

Rep-Run_answered_example :
    IsValid asking
    × (replies asking_world.log + waiting_in asking ≡ replies world.log + waiting_in socket + 1)
Rep-Run_answered_example =
    Rep-Run_answered big_endian socket-IsValid (next (Call.recv none) here refl receives)

abbrev request : Message
request = from_body (0 ∷ 0 ∷ 0 ∷ 9 ∷ 128 ∷ 0 ∷ 0 ∷ 1 ∷ 104 ∷ 105 ∷ [])

-- The request has come through a device, whose pipe 9 it came by.
abbrev asked : Message
asked = from_header_and_body (0 ∷ 0 ∷ 0 ∷ 2 ∷ 0 ∷ 0 ∷ 0 ∷ 9 ∷ 128 ∷ 0 ∷ 0 ∷ 1 ∷ []) (104 ∷ 105 ∷ [])

raw_msg_to_msg-Traced_example : Traced 8 (0 ∷ 0 ∷ 0 ∷ 2 ∷ []) request.body asked
unfolding Inner.raw_msg_to_msg trace ends_route from_body
raw_msg_to_msg-Traced_example = raw_msg_to_msg-Traced big_endian inner request 2 asked refl
