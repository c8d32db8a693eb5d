-- ===== src/Proto/Req/Matching.antt =====
-- src/proto/req.rs: which reply is handed to the user, and what a malformed one does.
use scaproust.Prelude.{
  ℕ, ◌+◌, ◌≡◌, ◌⊎◌, refl, inl, inr, none, some, ok, arith, ◌==◌, ==_iff, Bool-cases, Option-cases,
}
use scaproust.Core.Message.{Message}
use scaproust.Core.Bytes.{ByteOrder}
use scaproust.Core.Context.{World, Action, Reply, Timeout, act, cancel_timeout}
use scaproust.Core.Log.{replies}
use scaproust.Proto.Pipes
use scaproust.Proto.Ids
use scaproust.Proto.Call.{Call}
use scaproust.Proto.Req.Inner
use scaproust.Proto.Req.Inner.{Inner, PendingRequest}
use scaproust.Proto.Req.State
use scaproust.Proto.Req.State.{
  State, idle, sending, send_on_hold, active, receiving, recv_on_hold, recv_reply_for,
}
use scaproust.Proto.Req.{Req, step, apply, on_recv_ack}
use scaproust.Proto.Req.Settle.{replies-on_recv_timeout}
use scaproust.Core.Log.{replies-check_changes}
use scaproust.Core.Context.{check_changes}

-- The receive of the reply to a request still waits.
abbrev pub StillWaits : ℕ → PendingRequest → Timeout → State → Type 0
StillWaits id p t s = (s ≡ receiving id (some p) t) ⊎ (s ≡ recv_on_hold (some id) (some p) t)

-- Nothing is told to the user, and the receive still waits for the same request.
abbrev pub Ignored : ℕ → PendingRequest → Timeout → World → State.Step → Type 0
Ignored id p t w r =
    (s : State) × (inner : Inner) × (w' : World) × (r ≡ ok (s, inner, w'))
    × (replies w'.log ≡ replies w.log)
    × StillWaits id p t s

recv_reply_for-Ignored :
    (t : Timeout) (id : ℕ) (p : PendingRequest) (inner : Inner) (w : World)
    → Ignored id p t w (recv_reply_for t id p inner w)
unfolding recv_reply_for Inner.recv_reply_from act
recv_reply_for-Ignored t id p inner w = elim (Option-cases (Pipes.get inner.pipes id)) [
  | inl absent ↦ (
    recv_on_hold (some id) (some p) t,
    record inner { rv = Ids.remove inner.rv id },
    w,
    rw (absent, recv_reply_for, Inner.recv_reply_from),
    refl,
    inr refl,
  )
  | inr (pipe, found) ↦ (
    receiving id (some p) t,
    record inner { rv = Ids.remove inner.rv id },
    act (Action.recv pipe.id) w,
    rw (found, recv_reply_for, Inner.recv_reply_from),
    refl,
    inl refl,
  )
]

-- The awaited reply is handed over, and both timers are cancelled.
abbrev pub Delivered : PendingRequest → Timeout → Message → Inner → World → State.Step → Type 0
Delivered p t msg inner w r =
    r
    ≡ ok (
      idle,
      inner,
      cancel_timeout p.retry_timeout (cancel_timeout t (act (Action.reply (Reply.recv msg)) w)),
    )

-- While the reply to a request is awaited, a message is handed to the user just if it comes from
-- the pipe of the request and carries the current identifier; then both timers are cancelled and
-- the socket is idle. Any other message is ignored, and the receive goes on.
pub on_recv_ack-matches :
    (id eid req_id : ℕ) (p : PendingRequest) (t : Timeout) (msg : Message) (inner : Inner)
    (w : World)
    → ((eid ≡ id)
        × (Inner.cur_req_id inner ≡ req_id)
        × Delivered p t msg inner w
            (State.on_recv_ack (receiving id (some p) t) eid msg req_id inner w))
      ⊎ ((¬ ((eid ≡ id) × (Inner.cur_req_id inner ≡ req_id)))
          × Ignored id p t w (State.on_recv_ack (receiving id (some p) t) eid msg req_id inner w))
unfolding State.on_recv_ack Inner.on_recv_ack
on_recv_ack-matches id eid req_id p t msg inner w = elim (Bool-cases (eid == id)) [
  | inr other ↦ inr (
    (λ (same, _). ground (arith, ==_iff eid id)),
    rw other (receiving id (some p) t, inner, w, refl, refl, inl refl),
  )
  | inl same ↦ elim (Bool-cases (Inner.cur_req_id inner == req_id)) [
    | inl current ↦ inl (
      (==_iff eid id).0 same,
      (==_iff (Inner.cur_req_id inner) req_id).0 current,
      rw same (rw current),
    )
    | inr stale ↦ inr (
      (λ (_, current). ground (arith, ==_iff (Inner.cur_req_id inner) req_id)),
      rw same (rw stale (recv_reply_for-Ignored t id p inner w)),
    )
  ]
]

malformed-kept :
    (be : ByteOrder) (p : Req) (eid : ℕ) (raw : Message) (w : World)
    → Inner.raw_msg_to_msg be p.inner raw ≡ none
    → step be p (Call.on_recv_ack eid raw) w ≡ ok (p, Inner.on_recv_ack_malformed w)
unfolding step on_recv_ack
malformed-kept be p eid raw w bad = rw (bad, on_recv_ack)

timed_out-step :
    (be : ByteOrder) (p : Req) (id : ℕ) (q : PendingRequest) (t : Timeout) (w : World)
    → p.state ≡ some (receiving id (some q) t)
    → (p' : Req) × (w' : World) × (step be p Call.on_recv_timeout w ≡ ok (p', w'))
      × (replies w'.log ≡ replies w.log + 1)
unfolding step apply State.on_recv_timeout
timed_out-step be p id q t w e =
    let a = State.is_send_ready (receiving id (some q) t) p.inner in
    let b = State.is_send_ready idle p.inner in
    let c = State.is_recv_ready (receiving id (some q) t) p.inner in
    let d = State.is_recv_ready idle p.inner in
    let w' = Inner.on_recv_timeout q.retry_timeout w in
    (
      record p { state = some idle },
      check_changes a b c d w',
      rw (e, apply),
      omega (arith, replies-check_changes a b c d w', replies-on_recv_timeout q.retry_timeout w),
    )

-- While a receive waits for the reply to a request, a message without an identifier is answered by
-- an error and changes nothing else; when the receive then times out, it is answered a second
-- time.
pub malformed-answered_twice :
    (be : ByteOrder) (p : Req) (id eid : ℕ) (q : PendingRequest) (t : Timeout) (raw : Message)
    (w : World)
    → p.state ≡ some (receiving id (some q) t)
    → Inner.raw_msg_to_msg be p.inner raw ≡ none
    → (w' : World) × (p'' : Req) × (w'' : World) × (step be p (Call.on_recv_ack eid raw) w
        ≡ ok (p, w'))
      × (step be p Call.on_recv_timeout w' ≡ ok (p'', w''))
      × (replies w'.log ≡ replies w.log + 1)
      × (replies w''.log ≡ replies w.log + 2)
unfolding Inner.on_recv_ack_malformed act
malformed-answered_twice be p id eid q t raw w e bad =
    let w' = Inner.on_recv_ack_malformed w in
    let (p'', w'', f, count) = timed_out-step be p id q t w' e in
    (w', p'', w'', malformed-kept be p eid raw w bad, f, omega arith, omega arith)
