-- ===== src/Proto/Pull/Delivery.antt =====
-- src/proto/pull.rs: where a receive goes, and whom a message is taken from.
use scaproust.Prelude.{ℕ, ◌≡◌, ◌≢◌, ◌⊎◌, refl, inl, inr, ok, arith, ◌==◌, ==_iff, Bool-cases}
use scaproust.Core.Message.{Message}
use scaproust.Core.Context.{World, Action, Reply, Timeout, act, cancel_timeout}
use scaproust.Proto.Priolist.{Priolist}
use scaproust.Proto.Policy.Covered.{fair_recv-Chosen}
use scaproust.Proto.Policy.Upkeep.{activate-IsCovered}
use scaproust.Proto.Policy.Wakeup.{Holds, woken-Chosen}
use scaproust.Proto.Pull.Inner
use scaproust.Proto.Pull.Inner.{Inner}
use scaproust.Proto.Pull.State
use scaproust.Proto.Pull.State.{State, idle, receiving, recv_on_hold, Step}
use scaproust.Proto.Pull.Invariant.{IsSound}

-- A receive that a sound state holds back asks an endpoint of the queue as soon as that endpoint
-- has a message.
pub on_recv_ready-asks :
    (t : Timeout) (eid : ℕ) (inner : Inner) (w : World)
    → IsSound (recv_on_hold t) inner
    → Holds inner.fq eid
    → (fq : Priolist) × (State.on_recv_ready (recv_on_hold t) eid inner w
        ≡ ok (receiving eid t, record inner { fq = fq }, act (Action.recv eid) w))
unfolding State.on_recv_ready Inner.on_recv_ready State.recv Inner.recv
on_recv_ready-asks t eid inner w h held =
    let (fq, e, c, m) = activate-IsCovered inner.fq eid inner.pipes h.covered in
    let (fq', f) =
      woken-Chosen inner.fq fq eid inner.pipes w Action.recv _ h.covered c h.held m held
        (fair_recv-Chosen fq inner.pipes w c) in
    (fq', rw (e, State.on_recv_ready, Inner.on_recv_ready) (rw (f, State.recv, Inner.recv)))

-- A message is handed to the user just if it comes from the pipe that was asked: the timer is
-- cancelled, and the socket is idle. From any other pipe, or with nothing asked, it changes nothing.
pub on_recv_ack-cases :
    (s : State) (eid : ℕ) (msg : Message) (inner : Inner) (w : World)
    → ((t : Timeout) × (s ≡ receiving eid t)
        × (State.on_recv_ack s eid msg inner w
            ≡ ok (idle, inner, cancel_timeout t (act (Action.reply (Reply.recv msg)) w))))
      ⊎ (((t : Timeout) → s ≢ receiving eid t)
          × (State.on_recv_ack s eid msg inner w ≡ ok (s, inner, w)))
unfolding State.on_recv_ack Inner.on_recv_ack
on_recv_ack-cases (receiving id t) eid msg inner w = elim (Bool-cases (id == eid)) [
  | inl same ↦ inl (t, ground (arith, ==_iff id eid), rw same)
  | inr other ↦ inr ((λ u e. ground (arith, ==_iff id eid)), rw other)
]
on_recv_ack-cases idle eid msg inner w = inr ((λ u e. cc), refl)
on_recv_ack-cases (recv_on_hold _) eid msg inner w = inr ((λ u e. cc), refl)
