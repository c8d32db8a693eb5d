-- ===== src/Proto/Push/Connected.antt =====
-- A core socket around a push protocol, at concrete inputs: a network that grants every endpoint.
use scaproust.Prelude.{ℕ, ◌≡◌, ◌≢◌, ◌⊎◌, refl, true, false, none, some, ok, [], ◌∷◌}
use scaproust.Core.Endpoint.{EndpointDesc, Pipe, from_spec}
use scaproust.Core.Config
use scaproust.Core.Context.{World, Action, act, fail, would_block, check_send_ready_change}
use scaproust.Core.Socket.Local.{Socket}
use scaproust.Core.Socket.{connect, on_pipe_opened, try_send}
use scaproust.Core.Socket.Endpoints.{on_pipe_opened-once}
use scaproust.Proto.Call.{Call}
use scaproust.Proto.Pipes
use scaproust.Proto.Priolist.{peek}
use scaproust.Proto.Policy.Covered.{IsBest}
use scaproust.Proto.Push.{Push, step}
use scaproust.Proto.Push.Inner
use scaproust.Proto.Push.State.{sending, idle}
use scaproust.Proto.Push.Unblocked.{push_protocol, try_send-unblocked}
use scaproust.Proto.Fixtures.{network, ready_list, ready_pipes, ready_list-IsCovered, hello, world}

abbrev pushing : Push
pushing = record { inner = record { pipes = ready_pipes; lb = ready_list }; state = some idle }

abbrev desc : EndpointDesc
desc = record { send_priority = 8; recv_priority = 8; tcp_no_delay = false; recv_max_size = 1024 }

abbrev pipe : Pipe
pipe = from_spec 9 (record { url = "tcp://peer"; desc = desc })

abbrev socket : Socket Push
socket = record {
  id = 1;
  protocol = pushing;
  pipes = (9, pipe) ∷ [];
  acceptors = [];
  config = Config.default;
}

try_send-unblocked_example :
    ((peek ready_list ≡ false)
      × (try_send push_protocol network socket hello world
          ≡ ok (socket, fail would_block "socket is not send ready" world)))
    ⊎ ((id : ℕ) × (s' : Socket Push) × IsBest ready_list id
        × (try_send push_protocol network socket hello world
            ≡ ok (
              s',
              check_send_ready_change true
                  (peek s'.protocol.inner.lb)
                  (act (Action.send id hello) world),
            ))
        × (s'.protocol.state ≡ some (sending id hello none)))
try_send-unblocked_example = try_send-unblocked network socket hello world ready_list-IsCovered refl

holds_nine : Pipes.get socket.pipes 9 ≡ some pipe
unfolding Pipes.get
holds_nine = refl

abbrev opened : Socket Push
opened = record socket {
  protocol = record pushing { inner = Inner.add_pipe pushing.inner 9 pipe };
  pipes = [];
}

takes : step pushing (Call.add_pipe 9 pipe) world ≡ ok (opened.protocol, world)
unfolding step
takes = refl

on_pipe_opened-once_example :
    (s' : Socket Push) × (on_pipe_opened push_protocol network socket 9 world ≡ ok (s', world))
    × (s'.protocol ≡ opened.protocol)
    × (Pipes.get s'.pipes 9 ≡ none)
    × ((k : ℕ) → 9 ≢ k → Pipes.get s'.pipes k ≡ Pipes.get socket.pipes k)
    × ((u : World) → on_pipe_opened push_protocol network s' 9 u ≡ ok (s', u))
unfolding push_protocol
on_pipe_opened-once_example =
    on_pipe_opened-once push_protocol network socket 9 pipe opened.protocol world world holds_nine
      takes

abbrev connected : Socket Push × World
connected = connect push_protocol network socket "tcp://peer" world
