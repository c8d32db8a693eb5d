-- ===== src/Proto/Rep/Replying.antt =====
-- src/proto/rep.rs: the transitions of a reply socket that send.
use scaproust.Prelude.{
  ℕ, ◌≡◌, refl, inl, inr, true, false, none, ok, arith, ◌==◌, Bool-cases, Option-cases,
  if◌then◌else◌,
}
use scaproust.Core.Message.{Message}
use scaproust.Core.Context.{World, Action, Timeout, act, cancel_timeout}
use scaproust.Core.Log.{replies-cancel_timeout}
use scaproust.Proto.Pipes
use scaproust.Proto.Policy.Covered.{IsCovered}
use scaproust.Proto.Rep.Inner
use scaproust.Proto.Rep.Inner.{Inner}
use scaproust.Proto.Rep.State
use scaproust.Proto.Rep.State.{
  State, idle, receiving, recv_on_hold, active, sending, send_on_hold, Step, send_reply_to,
  send_active, send_held, recv_held,
}
use scaproust.Proto.Rep.Invariant.{waiting, IsSound, Ends, stay-Ends, free, relabel}

send_reply_to-Ends :
    (msg : Message) (timeout : Timeout) (eid : ℕ) (inner : Inner) (w : World)
    → IsCovered inner.fq inner.pipes
    → Ends w 1 (send_reply_to msg timeout eid inner w)
unfolding send_reply_to Inner.send_to Inner.on_send_not_ready act
send_reply_to-Ends msg t eid inner w c = elim (Option-cases (Pipes.get inner.pipes eid)) [
  | inl absent ↦ (
    send_on_hold eid msg t,
    Inner.on_send_not_ready inner eid,
    w,
    rw (absent, Inner.send_to) refl,
    free (send_on_hold eid msg t) _ tt c,
    refl,
  )
  | inr (pipe, found) ↦ (
    sending eid msg t,
    Inner.on_send_not_ready inner eid,
    act (Action.send pipe.id msg) w,
    rw (found, Inner.send_to) refl,
    free (sending eid msg t) _ tt c,
    refl,
  )
]

send_active-Ends :
    (s : State) (msg : Message) (t : Timeout) (eid : ℕ) (inner : Inner) (w : World)
    → IsCovered inner.fq inner.pipes
    → Ends w 1 (send_active s msg t eid inner w)
unfolding send_active Inner.send_when_inactive act cancel_timeout
send_active-Ends (active id) msg t eid inner w c =
    elim (Bool-cases (Inner.is_send_ready_to inner eid)) [
      | inl ready ↦ rw ready (send_reply_to-Ends msg t eid inner w c)
      | inr busy ↦
          rw busy
            (send_on_hold eid msg t, inner, w, refl, free (send_on_hold eid msg t) inner tt c, refl)
    ]
send_active-Ends idle msg t eid inner w c = (
  idle,
  inner,
  _,
  refl,
  free idle inner tt c,
  omega (arith, replies-cancel_timeout t (Inner.send_when_inactive none w)),
)
send_active-Ends (receiving _ _) msg t eid inner w c = (
  idle,
  inner,
  _,
  refl,
  free idle inner tt c,
  omega (arith, replies-cancel_timeout t (Inner.send_when_inactive none w)),
)
send_active-Ends (recv_on_hold _) msg t eid inner w c = (
  idle,
  inner,
  _,
  refl,
  free idle inner tt c,
  omega (arith, replies-cancel_timeout t (Inner.send_when_inactive none w)),
)
send_active-Ends (sending _ _ _) msg t eid inner w c = (
  idle,
  inner,
  _,
  refl,
  free idle inner tt c,
  omega (arith, replies-cancel_timeout t (Inner.send_when_inactive none w)),
)
send_active-Ends (send_on_hold _ _ _) msg t eid inner w c = (
  idle,
  inner,
  _,
  refl,
  free idle inner tt c,
  omega (arith, replies-cancel_timeout t (Inner.send_when_inactive none w)),
)

send-own :
    (s : State) (msg : Message) (t : Timeout) (eid : ℕ) (inner : Inner) (w : World)
    → inner.is_device_item ≡ false
    → State.send s msg t eid inner w ≡ send_active s msg t eid inner w
unfolding State.send
send-own s msg t eid inner w own = ground arith

send-device :
    (s : State) (msg : Message) (t : Timeout) (eid : ℕ) (inner : Inner) (w : World)
    → inner.is_device_item ≡ true
    → State.send s msg t eid inner w ≡ (
        if Inner.is_send_ready_to inner eid
        then send_reply_to msg t eid inner w
        else ok (idle, inner, Inner.on_send_ack t w))
unfolding State.send
send-device s msg t eid inner w device = ground arith

pub send-Ends :
    (s : State) (msg : Message) (t : Timeout) (eid : ℕ) (inner : Inner) (w : World)
    → IsSound s inner
    → Ends w 1 (State.send s msg t eid inner w)
unfolding Inner.on_send_ack act cancel_timeout
send-Ends s msg t eid inner w h = elim (Bool-cases inner.is_device_item) [
  | inr own ↦ rw (send-own s msg t eid inner w own) (send_active-Ends s msg t eid inner w h.covered)
  | inl device ↦
      rw (send-device s msg t eid inner w device)
        (elim (Bool-cases (Inner.is_send_ready_to inner eid)) [
          | inl ready ↦ rw ready (send_reply_to-Ends msg t eid inner w h.covered)
          | inr busy ↦ rw busy (
            idle,
            inner,
            Inner.on_send_ack t w,
            refl,
            free idle inner tt h.covered,
            omega (arith, replies-cancel_timeout t (Inner.on_send_ack none w)),
          )
        ])
]

pub on_send_ack-Ends :
    (s : State) (eid : ℕ) (inner : Inner) (w : World)
    → IsSound s inner
    → Ends w (waiting s) (State.on_send_ack s eid inner w)
unfolding State.on_send_ack Inner.on_send_ack act cancel_timeout
on_send_ack-Ends (sending id msg t) eid inner w h = elim (Bool-cases (id == eid)) [
  | inl same ↦ rw same (
    idle,
    inner,
    Inner.on_send_ack t w,
    refl,
    free idle inner tt h.covered,
    omega (arith, replies-cancel_timeout t (Inner.on_send_ack none w)),
  )
  | inr other ↦ rw other (stay-Ends (sending id msg t) inner w h)
]
on_send_ack-Ends idle eid inner w h = stay-Ends idle inner w h
on_send_ack-Ends (active id) eid inner w h = stay-Ends (active id) inner w h
on_send_ack-Ends (receiving id t) eid inner w h = stay-Ends (receiving id t) inner w h
on_send_ack-Ends (recv_on_hold t) eid inner w h = stay-Ends (recv_on_hold t) inner w h
on_send_ack-Ends (send_on_hold id msg t) eid inner w h = stay-Ends (send_on_hold id msg t) inner w h

pub on_send_timeout-Ends :
    (s : State) (inner : Inner) (w : World)
    → IsSound s inner
    → Ends w 1 (State.on_send_timeout inner w)
unfolding State.on_send_timeout Inner.on_send_timeout act
on_send_timeout-Ends s inner w h = (idle, inner, _, refl, free idle inner tt h.covered, omega arith)

pub on_send_ready-Ends :
    (s : State) (eid : ℕ) (inner : Inner) (w : World)
    → IsSound s inner
    → Ends w (waiting s) (State.on_send_ready s eid inner w)
unfolding State.on_send_ready send_held Inner.on_send_ready
on_send_ready-Ends (send_on_hold id msg t) eid inner w h = elim (Bool-cases (id == eid)) [
  | inl same ↦ rw same (send_reply_to-Ends msg t eid (Inner.on_send_ready inner eid) w h.covered)
  | inr other ↦
      rw other (
        stay-Ends (send_on_hold id msg t) (Inner.on_send_ready inner eid) w (free _ _ tt h.covered))
]
on_send_ready-Ends idle eid inner w h =
    stay-Ends idle (Inner.on_send_ready inner eid) w (free _ _ h.held h.covered)
on_send_ready-Ends (active id) eid inner w h =
    stay-Ends (active id) (Inner.on_send_ready inner eid) w (free _ _ h.held h.covered)
on_send_ready-Ends (receiving id t) eid inner w h =
    stay-Ends (receiving id t) (Inner.on_send_ready inner eid) w (free _ _ h.held h.covered)
on_send_ready-Ends (recv_on_hold t) eid inner w h =
    stay-Ends (recv_on_hold t) (Inner.on_send_ready inner eid) w (free _ _ h.held h.covered)
on_send_ready-Ends (sending id msg t) eid inner w h =
    stay-Ends (sending id msg t) (Inner.on_send_ready inner eid) w (free _ _ h.held h.covered)

pub on_send_not_ready-Ends :
    (s : State) (eid : ℕ) (inner : Inner) (w : World)
    → IsSound s inner
    → Ends w (waiting s) (State.on_send_not_ready s eid inner w)
unfolding State.on_send_not_ready Inner.on_send_not_ready
on_send_not_ready-Ends s eid inner w h =
    stay-Ends s (Inner.on_send_not_ready inner eid) w
      (free _ _ (relabel s inner _ refl h.held) h.covered)
