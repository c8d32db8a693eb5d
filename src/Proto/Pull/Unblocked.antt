-- ===== src/Proto/Pull/Unblocked.antt =====
-- src/proto/pull.rs inside src/core/socket.rs: the pull protocol as the protocol of a socket, and
-- its `try_recv`.
use scaproust.Prelude.{
  ℕ, ◌*◌, ◌+◌, ◌≡◌, ◌⊎◌, refl, inl, inr, true, false, Option, none, some, Outcome, ok, arith,
  Bool-cases,
}
use scaproust.Core.Context.{World, Action, act, fail, would_block, check_recv_ready_change}
use scaproust.Core.Socket.Local.{Protocol, Network, Socket}
use scaproust.Core.Socket.{try_recv}
use scaproust.Proto.Call.{Call}
use scaproust.Proto.Priolist.{Priolist, peek}
use scaproust.Proto.Policy.{fair_recv}
use scaproust.Proto.Policy.Covered.{IsCovered, IsBest, Chosen, nothing, chosen, fair_recv-Chosen}
use scaproust.Proto.Pull.{Pull, step, apply, remove_pipe, is_send_ready}
use scaproust.Proto.Pull.Inner
use scaproust.Proto.Pull.Inner.{Inner}
use scaproust.Proto.Pull.State
use scaproust.Proto.Pull.State.{State, idle, receiving, recv_on_hold}

unfoldable pub pull_protocol : Protocol Pull
pull_protocol = record {
  id = 5 * 16 + 1;
  peer_id = 5 * 16;
  step = step;
  remove_pipe = remove_pipe;
  set_option = λ p opt. none;
  is_send_ready = is_send_ready;
  is_recv_ready = λ p. Inner.is_recv_ready p.inner;
}

apply-asked :
    (p : Pull) (w w' : World) (s : State) (inner : Inner)
    → p.state ≡ some idle
    → State.recv none p.inner w ≡ ok (s, inner, w')
    → step p (Call.recv none) w
      ≡ ok (
        record { inner = inner; state = some s },
        check_recv_ready_change (peek p.inner.fq) (peek inner.fq) w',
      )
unfolding step apply Inner.is_recv_ready
apply-asked p w w' s inner e asked = rw (e, apply) (rw asked)

try_recv-asked :
    (net : Network) (s : Socket Pull) (w w' : World) (p : Pull)
    → peek s.protocol.inner.fq ≡ true
    → step s.protocol (Call.recv none) w ≡ ok (p, w')
    → try_recv pull_protocol net s w ≡ ok (record s { protocol = p }, w')
unfolding try_recv pull_protocol Inner.is_recv_ready
try_recv-asked net s w w' p ready asked = ground arith

-- For an idle pull socket whose queue is covered by its pipes, `try_recv` does not panic and never
-- waits for a pipe to be ready: either no endpoint has a message, and it answers `would block` and
-- leaves the socket as it was, or a best endpoint is asked for its message at once.
pub try_recv-unblocked :
    (net : Network) (s : Socket Pull) (w : World)
    → IsCovered s.protocol.inner.fq s.protocol.inner.pipes
    → s.protocol.state ≡ some idle
    → ((peek s.protocol.inner.fq ≡ false)
        × (try_recv pull_protocol net s w ≡ ok (s, fail would_block "socket is not recv ready" w)))
      ⊎ ((id : ℕ) × (s' : Socket Pull) × IsBest s.protocol.inner.fq id
          × (try_recv pull_protocol net s w
              ≡ ok (
                s',
                check_recv_ready_change true (peek s'.protocol.inner.fq) (act (Action.recv id) w),
              ))
          × (s'.protocol.state ≡ some (receiving id none)))
unfolding try_recv pull_protocol Inner.is_recv_ready State.recv Inner.recv
try_recv-unblocked net s w c idle_now = elim (Bool-cases (peek s.protocol.inner.fq)) [
  | inr quiet ↦ inl (quiet, rw (quiet, try_recv) refl)
  | inl ready ↦ go _ refl (fair_recv-Chosen s.protocol.inner.fq s.protocol.inner.pipes w c) ready
]
  where
    go :
        (o : Outcome (Option ℕ × Priolist × World))
        → fair_recv s.protocol.inner.fq s.protocol.inner.pipes w ≡ o
        → Chosen s.protocol.inner.fq s.protocol.inner.pipes w Action.recv o
        → peek s.protocol.inner.fq ≡ true
        → ((peek s.protocol.inner.fq ≡ false)
            × (try_recv pull_protocol net s w
                ≡ ok (s, fail would_block "socket is not recv ready" w)))
          ⊎ ((id : ℕ) × (s' : Socket Pull) × IsBest s.protocol.inner.fq id
              × (try_recv pull_protocol net s w
                  ≡ ok (
                    s',
                    check_recv_ready_change true
                        (peek s'.protocol.inner.fq)
                        (act (Action.recv id) w),
                  ))
              × (s'.protocol.state ≡ some (receiving id none)))
    go _ e (nothing quiet) ready = absurd (cc (ready, quiet))
    go _ e (chosen id fq best c') ready = inr (
      id,
      record s {
        protocol = record {
          inner = record s.protocol.inner { fq = fq };
          state = some (receiving id none);
        };
      },
      best,
      try_recv-asked net s w _ _ ready (
          rw ready at (
            apply-asked s.protocol w (act (Action.recv id) w) (receiving id none)
              (record s.protocol.inner { fq = fq }) idle_now
              (rw (e, State.recv, Inner.recv) refl))),
      refl,
    )
