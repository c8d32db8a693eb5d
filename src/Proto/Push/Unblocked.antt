-- ===== src/Proto/Push/Unblocked.antt =====
-- src/proto/push.rs inside src/core/socket.rs: the push protocol as the protocol of a socket, and
-- its `try_send`.
use scaproust.Prelude.{
  ℕ, ◌*◌, ◌+◌, ◌≡◌, ◌⊎◌, refl, inl, inr, true, false, none, some, ok, arith, Bool-cases,
}
use scaproust.Core.Message.{Message}
use scaproust.Core.Context.{World, Action, act, fail, would_block, check_send_ready_change}
use scaproust.Core.Socket.Local.{Protocol, Network, Socket}
use scaproust.Core.Socket.{try_send}
use scaproust.Proto.Call.{Call}
use scaproust.Proto.Priolist.{peek}
use scaproust.Proto.Policy.Covered.{IsCovered, IsBest}
use scaproust.Proto.Push.{Push, step, apply, remove_pipe, is_recv_ready}
use scaproust.Proto.Push.Inner
use scaproust.Proto.Push.Inner.{Inner}
use scaproust.Proto.Push.State
use scaproust.Proto.Push.State.{State, idle, sending, send_on_hold}
use scaproust.Proto.Push.Delivery.{send-Leaves}

unfoldable pub push_protocol : Protocol Push
push_protocol = record {
  id = 5 * 16;
  peer_id = 5 * 16 + 1;
  step = step;
  remove_pipe = remove_pipe;
  set_option = λ p opt. none;
  is_send_ready = λ p. Inner.is_send_ready p.inner;
  is_recv_ready = is_recv_ready;
}

apply-left :
    (p : Push) (msg : Message) (w w' : World) (s : State) (inner : Inner)
    → p.state ≡ some idle
    → State.send msg none p.inner w ≡ ok (s, inner, w')
    → step p (Call.send msg none) w
      ≡ ok (
        record { inner = inner; state = some s },
        check_send_ready_change (peek p.inner.lb) (peek inner.lb) w',
      )
unfolding step apply Inner.is_send_ready
apply-left p msg w w' s inner e left = rw (e, apply) (rw left)

try_send-left :
    (net : Network) (s : Socket Push) (msg : Message) (w w' : World) (p : Push)
    → peek s.protocol.inner.lb ≡ true
    → step s.protocol (Call.send msg none) w ≡ ok (p, w')
    → try_send push_protocol net s msg w ≡ ok (record s { protocol = p }, w')
unfolding try_send push_protocol Inner.is_send_ready
try_send-left net s msg w w' p ready left = ground arith

-- For an idle push socket whose balancer is covered by its pipes, `try_send` does not panic and never
-- waits: either no endpoint can send, and it answers `would block` and leaves the socket as it was,
-- or the message leaves at once by a best endpoint.
pub try_send-unblocked :
    (net : Network) (s : Socket Push) (msg : Message) (w : World)
    → IsCovered s.protocol.inner.lb s.protocol.inner.pipes
    → s.protocol.state ≡ some idle
    → ((peek s.protocol.inner.lb ≡ false)
        × (try_send push_protocol net s msg w
            ≡ ok (s, fail would_block "socket is not send ready" w)))
      ⊎ ((id : ℕ) × (s' : Socket Push) × IsBest s.protocol.inner.lb id
          × (try_send push_protocol net s msg w
              ≡ ok (
                s',
                check_send_ready_change true
                    (peek s'.protocol.inner.lb)
                    (act (Action.send id msg) w),
              ))
          × (s'.protocol.state ≡ some (sending id msg none)))
unfolding try_send push_protocol step apply Inner.is_send_ready
try_send-unblocked net s msg w c idle_now = elim (Bool-cases (peek s.protocol.inner.lb)) [
  | inr quiet ↦ inl (quiet, rw (quiet, try_send) refl)
  | inl ready ↦ elim (send-Leaves msg none s.protocol.inner w c) [
    | inl (quiet, _) ↦ absurd (cc (ready, quiet))
    | inr (id, lb, best, left) ↦ inr (
      id,
      record s {
        protocol = record {
          inner = record s.protocol.inner { lb = lb };
          state = some (sending id msg none);
        };
      },
      best,
      try_send-left net s msg w _ _ ready
          (rw ready at (apply-left s.protocol msg w _ _ _ idle_now left)),
      refl,
    )
  ]
]
