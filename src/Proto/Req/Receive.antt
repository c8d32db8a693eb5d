-- ===== src/Proto/Req/Receive.antt =====
-- src/proto/req.rs: starting a receive and taking its reply.
use scaproust.Prelude.{
  ℕ, suc, ◌≡◌, refl, inl, inr, true, false, Option, none, some, Outcome, ok, arith, ◌==◌,
  Bool-cases, Option-cases,
}
use scaproust.Core.Message.{Message}
use scaproust.Core.Context.{World, Action, Timeout, act, cancel_timeout}
use scaproust.Core.Log.{replies, replies-cancel_timeout}
use scaproust.Proto.Priolist.{Priolist}
use scaproust.Proto.Pipes
use scaproust.Proto.Ids
use scaproust.Proto.Ids.{IdSet}
use scaproust.Proto.Policy.{fair_recv}
use scaproust.Proto.Policy.Covered.{Chosen, nothing, chosen, fair_recv-Chosen}
use scaproust.Proto.Req.Inner
use scaproust.Proto.Req.Inner.{Inner, PendingRequest}
use scaproust.Proto.Req.State
use scaproust.Proto.Req.State.{
  State, idle, sending, send_on_hold, active, receiving, recv_on_hold, Step, cancel_active,
  recv_any, recv_active, recv_reply_for, send_held, recv_held,
}
use scaproust.Proto.Req.Invariant.{waiting, IsSound, Ends, free}

recv_any-Ends :
    (s : State) (t : Timeout) (inner : Inner) (w : World)
    → IsSound s inner
    → Ends w 1 (recv_any t inner w)
unfolding recv_any Inner.recv act
recv_any-Ends s t inner w h =
    go (fair_recv inner.fq inner.pipes w) refl
      (fair_recv-Chosen inner.fq inner.pipes w h.fq_covered)
  where
    go :
        (o : Outcome (Option ℕ × Priolist × World))
        → fair_recv inner.fq inner.pipes w ≡ o
        → Chosen inner.fq inner.pipes w Action.recv o
        → Ends w 1 (recv_any t inner w)
    go _ e (nothing off) = (
      recv_on_hold none none t,
      inner,
      w,
      rw (e, recv_any, Inner.recv),
      free s (recv_on_hold none none t) inner h off,
      refl,
    )
    go _ e (chosen id fq best c') = (
      receiving id none t,
      record inner { fq = fq },
      act (Action.recv id) w,
      rw (e, recv_any, Inner.recv),
      record { lb_covered = h.lb_covered; fq_covered = c'; held = tt },
      refl,
    )

recv_reply_for-Ends :
    (s : State) (t : Timeout) (eid : ℕ) (p : PendingRequest) (inner : Inner) (w : World)
    → IsSound s inner
    → Ends w 1 (recv_reply_for t eid p inner w)
unfolding recv_reply_for Inner.recv_reply_from act
recv_reply_for-Ends s t eid p inner w h = elim (Option-cases (Pipes.get inner.pipes eid)) [
  | inl absent ↦ (
    recv_on_hold (some eid) (some p) t,
    record inner { rv = Ids.remove inner.rv eid },
    w,
    rw (absent, recv_reply_for, Inner.recv_reply_from),
    record { lb_covered = h.lb_covered; fq_covered = h.fq_covered; held = tt },
    refl,
  )
  | inr (pipe, found) ↦ (
    receiving eid (some p) t,
    record inner { rv = Ids.remove inner.rv eid },
    act (Action.recv pipe.id) w,
    rw (found, recv_reply_for, Inner.recv_reply_from),
    record { lb_covered = h.lb_covered; fq_covered = h.fq_covered; held = tt },
    refl,
  )
]

refused-Ends :
    (s : State) (t : Timeout) (inner : Inner) (w : World)
    → IsSound s inner
    → Ends w 1 (ok (idle, inner, Inner.recv_when_inactive t w))
unfolding Inner.recv_when_inactive act cancel_timeout
refused-Ends s t inner w h = (
  idle,
  inner,
  _,
  refl,
  free s idle inner h tt,
  omega (arith, replies-cancel_timeout t (Inner.recv_when_inactive none w)),
)

recv_active-Ends :
    (s s' : State) (t : Timeout) (inner : Inner) (w : World)
    → IsSound s' inner
    → Ends w 1 (recv_active s t inner w)
unfolding recv_active
recv_active-Ends (active eid p) s' t inner w h = recv_reply_for-Ends s' t eid p inner w h
recv_active-Ends idle s' t inner w h = refused-Ends s' t inner w h
recv_active-Ends (sending _ _ _ _) s' t inner w h = refused-Ends s' t inner w h
recv_active-Ends (send_on_hold _ _ _) s' t inner w h = refused-Ends s' t inner w h
recv_active-Ends (receiving _ _ _) s' t inner w h = refused-Ends s' t inner w h
recv_active-Ends (recv_on_hold _ _ _) s' t inner w h = refused-Ends s' t inner w h

recv-device :
    (s : State) (t : Timeout) (inner : Inner) (w : World)
    → inner.is_device_item ≡ true
    → State.recv s t inner w ≡ recv_any t inner w
unfolding State.recv
recv-device s t inner w device = simp device

pub recv-own :
    (s : State) (t : Timeout) (inner : Inner) (w : World)
    → inner.is_device_item ≡ false
    → State.recv s t inner w ≡ recv_active s t inner w
unfolding State.recv
recv-own s t inner w own = simp own

pub recv-Ends :
    (s s' : State) (t : Timeout) (inner : Inner) (w : World)
    → IsSound s' inner
    → Ends w 1 (State.recv s t inner w)
recv-Ends s s' t inner w h = elim (Bool-cases inner.is_device_item) [
  | inl device ↦ rw (recv-device s t inner w device) (recv_any-Ends s' t inner w h)
  | inr own ↦ rw (recv-own s t inner w own) (recv_active-Ends s s' t inner w h)
]

-- What a reply that is handed over adds to the log.
replies-on_recv_ack :
    (t r : Timeout) (msg : Message) (w : World)
    → replies (Inner.on_recv_ack t msg r w).log ≡ suc (replies w.log)
unfolding Inner.on_recv_ack act cancel_timeout
replies-on_recv_ack none none msg w = refl
replies-on_recv_ack none (some r) msg w = refl
replies-on_recv_ack (some t) none msg w = refl
replies-on_recv_ack (some t) (some r) msg w = refl

handed-Ends :
    (s : State) (t r : Timeout) (msg : Message) (inner : Inner) (w : World)
    → IsSound s inner
    → Ends w 1 (ok (idle, inner, Inner.on_recv_ack t msg r w))
handed-Ends s t r msg inner w h =
    (idle, inner, _, refl, free s idle inner h tt, omega (arith, replies-on_recv_ack t r msg w))

pub on_recv_ack-Ends :
    (s : State) (eid : ℕ) (msg : Message) (req_id : ℕ) (inner : Inner) (w : World)
    → IsSound s inner
    → Ends w (waiting s) (State.on_recv_ack s eid msg req_id inner w)
unfolding State.on_recv_ack
on_recv_ack-Ends (receiving id none t) eid msg req_id inner w h = elim (Bool-cases (eid == id)) [
  | inl same ↦ rw same (handed-Ends _ t none msg inner w h)
  | inr other ↦ rw other (_, inner, w, refl, h, refl)
]
on_recv_ack-Ends (receiving id (some p) t) eid msg req_id inner w h =
    elim (Bool-cases (eid == id)) [
      | inl same ↦ rw same (elim (Bool-cases (Inner.cur_req_id inner == req_id)) [
        | inl current ↦ rw current (handed-Ends _ t p.retry_timeout msg inner w h)
        | inr stale ↦ rw stale (recv_reply_for-Ends _ t id p inner w h)
      ])
      | inr other ↦ rw other (_, inner, w, refl, h, refl)
    ]
on_recv_ack-Ends idle eid msg req_id inner w h = (_, inner, w, refl, h, refl)
on_recv_ack-Ends (sending _ _ _ _) eid msg req_id inner w h = (_, inner, w, refl, h, refl)
on_recv_ack-Ends (send_on_hold _ _ _) eid msg req_id inner w h = (_, inner, w, refl, h, refl)
on_recv_ack-Ends (active _ _) eid msg req_id inner w h = (_, inner, w, refl, h, refl)
on_recv_ack-Ends (recv_on_hold _ _ _) eid msg req_id inner w h = (_, inner, w, refl, h, refl)
