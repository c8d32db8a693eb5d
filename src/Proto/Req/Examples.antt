-- ===== src/Proto/Req/Examples.antt =====
-- A request socket over three pipes, with a byte order that writes the most significant byte first.
use scaproust.Prelude.{◌≢◌, ℕ, suc, ◌+◌, ◌≡◌, ◌⊎◌, refl, true, false, some, none, ok, [], ◌∷◌}
use scaproust.Core.Message.{Message}
use scaproust.Core.Context.{World, Action, act, check_send_ready_change, check_recv_ready_change}
use scaproust.Core.Log.{replies}
use scaproust.Proto.Call.{Call}
use scaproust.Proto.Answering.{here, next}
use scaproust.Proto.Pipes
use scaproust.Proto.Policy.{balanced_send}
use scaproust.Proto.Priolist
use scaproust.Proto.Req.{Req, step, apply, send}
use scaproust.Proto.Req.Frame.{encode, decode}
use scaproust.Proto.Req.Inner
use scaproust.Proto.Req.Inner.{Inner, PendingRequest}
use scaproust.Proto.Req.State
use scaproust.Proto.Req.State.{State, idle, sending, send_on_hold, active, receiving, recv_on_hold}
use scaproust.Proto.Req.History.{IsValid, waiting_in}
use scaproust.Proto.Req.Answered.{Req-Run_answered}
use scaproust.Proto.Req.Matching.{Delivered, Ignored, on_recv_ack-matches, malformed-answered_twice}
use scaproust.Proto.Req.Retry.{
  IsActive, Leaves, Asks, Refused, on_retry_timeout-cases, on_pipe_removed-forgets, recv-own_cases,
}
use scaproust.Proto.Fixtures.{
  ready_list, ready_pipes, ready_list-IsCovered, hello, world, big_endian,
}

abbrev inner : Inner
inner = record {
  pipes = ready_pipes;
  lb = ready_list;
  fq = ready_list;
  rv = 1 ∷ 2 ∷ [];
  req_id_seq = 0;
  is_device_item = false;
  resend_ivl = 60_000;
}

abbrev socket : Req
socket = record { inner = inner; state = some idle }

socket-IsValid : IsValid socket
socket-IsValid = record {
  state = idle;
  present = refl;
  sound = record {
    lb_covered = ready_list-IsCovered;
    fq_covered = ready_list-IsCovered;
    held = tt;
  };
}

abbrev raw_hello : Message
raw_hello = record { header = 128 ∷ 0 ∷ 0 ∷ 1 ∷ []; body = hello.body }

-- The request has left by endpoint 1, under the identifier 1.
abbrev sent : Req
sent = record {
  inner = record inner {
    lb = record {
      items =
          record { value = 1; priority = 8; active = false }
          ∷ record { value = 2; priority = 8; active = true }
          ∷ record { value = 3; priority = 9; active = false }
          ∷ [];
      current = some (1, 8);
    };
    req_id_seq = 1;
  };
  state = some (sending 1 raw_hello none false);
}

abbrev sent_world : World
sent_world = record world { log = Action.send 1 raw_hello ∷ [] }

sends : step big_endian socket (Call.send hello none) world ≡ ok (sent, sent_world)
unfolding step send apply Inner.msg_to_raw_msg Inner.advance_req_id Inner.cur_req_id encode
    State.send State.cancel_active Inner.send balanced_send Priolist.pop Pipes.send_to Pipes.get act
    check_send_ready_change check_recv_ready_change State.is_send_ready State.is_recv_ready
    Inner.is_send_ready Priolist.peek
sends = refl

Req-Run_answered_example :
    IsValid sent
    × (replies sent_world.log + waiting_in sent ≡ replies world.log + waiting_in socket + 1)
Req-Run_answered_example =
    Req-Run_answered big_endian socket-IsValid (next (Call.send hello none) here refl sends)

abbrev pending : PendingRequest
pending = record { req = raw_hello; retry_timeout = some 7 }

on_recv_ack-matches_example :
    ((1 ≡ suc 0)
      × (Inner.cur_req_id inner ≡ 0x80000000)
      × Delivered pending none hello inner world
          (State.on_recv_ack (receiving 1 (some pending) none) 1 hello 0x80000000 inner world))
    ⊎ ((¬ ((1 ≡ suc 0) × (Inner.cur_req_id inner ≡ 0x80000000)))
        × Ignored 1 pending none world
            (State.on_recv_ack (receiving 1 (some pending) none) 1 hello 0x80000000 inner world))
on_recv_ack-matches_example = on_recv_ack-matches 1 1 0x80000000 pending none hello inner world

abbrev waiting_socket : Req
waiting_socket = record { inner = inner; state = some (receiving 1 (some pending) none) }

malformed-answered_twice_example :
    (w' : World) × (p'' : Req) × (w'' : World) × (step big_endian waiting_socket
        (Call.on_recv_ack 1 hello)
        world
      ≡ ok (waiting_socket, w'))
    × (step big_endian waiting_socket Call.on_recv_timeout w' ≡ ok (p'', w''))
    × (replies w'.log ≡ replies world.log + 1)
    × (replies w''.log ≡ replies world.log + 2)
unfolding Inner.raw_msg_to_msg decode
malformed-answered_twice_example =
    malformed-answered_twice big_endian waiting_socket 1 1 pending none hello world refl refl

abbrev idle_request : State
idle_request = active 1 pending

on_retry_timeout-cases_example :
    ((id : ℕ) × (p : PendingRequest) × (idle_request ≡ active id p)
      × Leaves p.req none true inner world (State.on_retry_timeout idle_request inner world))
    ⊎ ((¬ IsActive idle_request)
        × (State.on_retry_timeout idle_request inner world ≡ ok (idle_request, inner, world)))
on_retry_timeout-cases_example =
    on_retry_timeout-cases idle_request inner world ready_list-IsCovered

abbrev resending : State
resending = sending 1 raw_hello none true

recv-own_cases_example :
    ((id : ℕ) × (p : PendingRequest) × (resending ≡ active id p)
      × Asks id p (some 3) inner world (State.recv resending (some 3) inner world))
    ⊎ ((¬ IsActive resending)
        × Refused (some 3) inner world (State.recv resending (some 3) inner world))
recv-own_cases_example = recv-own_cases resending (some 3) inner world refl

on_pipe_removed-forgets_example :
    ((1 ≡ suc 0)
      × Refused
          (some 3)
          inner
          world
          (State.on_pipe_removed (receiving 1 (some pending) (some 3)) 1 inner world))
    ⊎ ((1 ≢ suc 0)
        × (State.on_pipe_removed (receiving 1 (some pending) (some 3)) 1 inner world
            ≡ ok (receiving 1 (some pending) (some 3), inner, world)))
on_pipe_removed-forgets_example = on_pipe_removed-forgets 1 1 pending (some 3) inner world refl
