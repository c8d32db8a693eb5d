-- ===== src/Proto/Rep/Receiving.antt =====
-- src/proto/rep.rs: the transitions of a reply socket that receive, and the loss of a pipe.
use scaproust.Prelude.{
  ℕ, suc, ◌≡◌, refl, ap, inl, inr, Bool, true, false, [], ok, arith, ◌==◌, Bool-cases,
  if◌then◌else◌,
}
use scaproust.Core.Message.{Message}
use scaproust.Core.Context.{World, Action, Reply, Timeout, act}
use scaproust.Core.Log.{replies, replies-cancel_timeout}
use scaproust.Proto.Policy.Covered.{IsCovered}
use scaproust.Proto.Policy.Upkeep.{activate-IsCovered, deactivate-IsCovered}
use scaproust.Proto.Rep.Inner
use scaproust.Proto.Rep.Inner.{Inner}
use scaproust.Proto.Rep.State
use scaproust.Proto.Rep.State.{
  State, idle, receiving, recv_on_hold, active, sending, send_on_hold, Step, send_reply_to,
  send_active, send_held, recv_held,
}
use scaproust.Proto.Rep.Invariant.{waiting, IsSound, Ends, stay-Ends, free, recv-Ends, keep-Held}

-- A request that is handed over makes one reply, and touches neither the list nor the pipes.
handed :
    (inner : Inner) (t : Timeout) (msg : Message) (w : World)
    → (replies (Inner.on_recv_ack inner t msg w).1.log ≡ suc (replies w.log))
      × ((Inner.on_recv_ack inner t msg w).0.fq ≡ inner.fq)
      × ((Inner.on_recv_ack inner t msg w).0.pipes ≡ inner.pipes)
unfolding Inner.on_recv_ack act
handed inner t msg w = go inner.is_device_item refl
  where
    go :
        (b : Bool)
        → inner.is_device_item ≡ b
        → (replies (Inner.on_recv_ack inner t msg w).1.log ≡ suc (replies w.log))
          × ((Inner.on_recv_ack inner t msg w).0.fq ≡ inner.fq)
          × ((Inner.on_recv_ack inner t msg w).0.pipes ≡ inner.pipes)
    go true e = (
      ground (arith, replies-cancel_timeout t (act (Action.reply (Reply.recv msg)) w)),
      ground arith,
      ground arith,
    )
    go false e = (
      ground (
        arith,
        replies-cancel_timeout t (act (Action.reply (Reply.recv (record msg { header = [] }))) w),
      ),
      ground arith,
      ground arith,
    )

pub on_recv_ack-Ends :
    (s : State) (eid : ℕ) (msg : Message) (inner : Inner) (w : World)
    → IsSound s inner
    → Ends w (waiting s) (State.on_recv_ack s eid msg inner w)
unfolding State.on_recv_ack
on_recv_ack-Ends (receiving id t) eid msg inner w h = elim (Bool-cases (id == eid)) [
  | inr other ↦ rw other (stay-Ends (receiving id t) inner w h)
  | inl same ↦ rw same (
      (let (count, same_fq, same_pipes) = handed inner t msg w in
        let c : IsCovered (Inner.on_recv_ack inner t msg w).0.fq
            (Inner.on_recv_ack inner t msg w).0.pipes =
          rw (same_fq, same_pipes) h.covered in
        elim (Bool-cases inner.is_device_item) [
          | inl device ↦ (
            idle,
            (Inner.on_recv_ack inner t msg w).0,
            (Inner.on_recv_ack inner t msg w).1,
            settled inner eid true device,
            free idle _ tt c,
            omega arith,
          )
          | inr own ↦ (
            active eid,
            (Inner.on_recv_ack inner t msg w).0,
            (Inner.on_recv_ack inner t msg w).1,
            settled inner eid false own,
            free (active eid) _ tt c,
            omega arith,
          )
        ]))
]
  where
    settled :
        (i : Inner) (e : ℕ) (b : Bool)
        → i.is_device_item ≡ b
        → ◌≡◌ {A = Step}
            (ok (
              (if i.is_device_item then idle else active e),
              (Inner.on_recv_ack inner t msg w).0,
              (Inner.on_recv_ack inner t msg w).1,
            ))
            (ok (
              (if b then idle else active e),
              (Inner.on_recv_ack inner t msg w).0,
              (Inner.on_recv_ack inner t msg w).1,
            ))
    settled i e b same =
        ap
          (λ (d : Bool). ok (
            (if d then idle else active e),
            (Inner.on_recv_ack inner t msg w).0,
            (Inner.on_recv_ack inner t msg w).1,
          ))
          same
on_recv_ack-Ends idle eid msg inner w h = stay-Ends idle inner w h
on_recv_ack-Ends (active id) eid msg inner w h = stay-Ends (active id) inner w h
on_recv_ack-Ends (recv_on_hold t) eid msg inner w h = stay-Ends (recv_on_hold t) inner w h
on_recv_ack-Ends (sending id m t) eid msg inner w h = stay-Ends (sending id m t) inner w h
on_recv_ack-Ends (send_on_hold id m t) eid msg inner w h = stay-Ends (send_on_hold id m t) inner w h

pub on_recv_timeout-Ends :
    (s : State) (inner : Inner) (w : World)
    → IsSound s inner
    → Ends w 1 (State.on_recv_timeout inner w)
unfolding State.on_recv_timeout Inner.on_recv_timeout act
on_recv_timeout-Ends s inner w h = (idle, inner, _, refl, free idle inner tt h.covered, omega arith)

recv_held-Ends :
    (s : State) (inner : Inner) (w : World)
    → IsCovered inner.fq inner.pipes
    → Ends w (waiting s) (recv_held s inner w)
unfolding recv_held
recv_held-Ends (recv_on_hold t) inner w c = recv-Ends t inner w c
recv_held-Ends idle inner w c = stay-Ends idle inner w (free _ _ tt c)
recv_held-Ends (active id) inner w c = stay-Ends (active id) inner w (free _ _ tt c)
recv_held-Ends (receiving id t) inner w c = stay-Ends (receiving id t) inner w (free _ _ tt c)
recv_held-Ends (sending id msg t) inner w c = stay-Ends (sending id msg t) inner w (free _ _ tt c)
recv_held-Ends (send_on_hold id msg t) inner w c =
    stay-Ends (send_on_hold id msg t) inner w (free _ _ tt c)

pub on_recv_ready-Ends :
    (s : State) (eid : ℕ) (inner : Inner) (w : World)
    → IsSound s inner
    → Ends w (waiting s) (State.on_recv_ready s eid inner w)
unfolding State.on_recv_ready Inner.on_recv_ready
on_recv_ready-Ends s eid inner w h =
    let (fq, e, c, _) = activate-IsCovered inner.fq eid inner.pipes h.covered in
    rw (e, State.on_recv_ready, Inner.on_recv_ready)
      (recv_held-Ends s (record inner { fq = fq }) w c)

pub on_recv_not_ready-Ends :
    (s : State) (eid : ℕ) (inner : Inner) (w : World)
    → IsSound s inner
    → Ends w (waiting s) (State.on_recv_not_ready s eid inner w)
unfolding State.on_recv_not_ready Inner.on_recv_not_ready
on_recv_not_ready-Ends s eid inner w h =
    let (fq, e, c, stays) = deactivate-IsCovered inner.fq eid inner.pipes h.covered in
    rw e (stay-Ends s (record inner { fq = fq }) w (free _ _ (keep-Held s inner _ stays h.held) c))

pub on_pipe_removed-Ends :
    (s : State) (eid : ℕ) (inner : Inner) (w : World)
    → IsSound s inner
    → Ends w (waiting s) (State.on_pipe_removed s eid inner w)
unfolding State.on_pipe_removed
on_pipe_removed-Ends (receiving id t) eid inner w h = elim (Bool-cases (id == eid)) [
  | inl same ↦ rw same (recv-Ends t inner w h.covered)
  | inr other ↦ rw other (stay-Ends (receiving id t) inner w h)
]
on_pipe_removed-Ends idle eid inner w h = stay-Ends idle inner w h
on_pipe_removed-Ends (active id) eid inner w h = stay-Ends (active id) inner w h
on_pipe_removed-Ends (recv_on_hold t) eid inner w h = stay-Ends (recv_on_hold t) inner w h
on_pipe_removed-Ends (sending id m t) eid inner w h = stay-Ends (sending id m t) inner w h
on_pipe_removed-Ends (send_on_hold id m t) eid inner w h = stay-Ends (send_on_hold id m t) inner w h
