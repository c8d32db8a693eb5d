-- ===== src/Proto/Req/Answered.antt =====
-- src/proto/req.rs: a request socket over any sequence of calls, and the answers to its user.
use native.Mathlib.Nat.{add-zero}
use scaproust.Prelude.{
  ℕ, ◌+◌, ◌%◌, ◌^◌, ◌≡◌, ◌≢◌, refl, sym, ◌∙◌, inl, inr, Bool, true, false, Option, none, arith,
  subst, Option-cases, Bool-cases,
}
use scaproust.Core.Message.{Message}
use scaproust.Core.Bytes.{ByteOrder}
use scaproust.Core.Config.{ConfigOption}
use scaproust.Core.Context.{World, Schedulable}
use scaproust.Core.Log.{replies}
use scaproust.Proto.Call.{Call}
use scaproust.Proto.Answering.{Run, Run-answered, requests}
use scaproust.Proto.Req.Inner
use scaproust.Proto.Req.Inner.{Inner}
use scaproust.Proto.Req.State
use scaproust.Proto.Req.State.{
  State, idle, sending, send_on_hold, active, receiving, recv_on_hold, Step,
}
use scaproust.Proto.Req.{Req, step, send, on_recv_ack, on_timer_tick, set_option, or_same}
use scaproust.Proto.Req.Invariant.{
  waiting, IsSound, keep-Held, send-Ends, on_send_ack-Ends, on_send_timeout-Ends,
  on_send_ready-Ends, on_send_not_ready-Ends, on_retry_timeout-Ends,
}
use scaproust.Proto.Req.Receive.{recv-Ends, on_recv_ack-Ends}
use scaproust.Proto.Req.Settle.{
  IsReceiving, on_recv_timeout-Ends, on_recv_ready-Ends, on_recv_not_ready-Ends,
}
use scaproust.Proto.Req.History.{
  IsValid, waiting_in, Admissible, Keeps, waiting-present, through, apply-Keeps, add_pipe-Keeps,
  remove_pipe-Keeps,
}

-- The lists, and what is held back, do not depend on the other fields.
relabel :
    (s : State) (inner : Inner) (seq : ℕ) (device : Bool) (ivl : ℕ)
    → IsSound s inner
    → IsSound s (record inner { req_id_seq = seq; is_device_item = device; resend_ivl = ivl })
relabel s inner seq device ivl h = record {
  lb_covered = h.lb_covered;
  fq_covered = h.fq_covered;
  held =
      keep-Held s inner
        (record inner { req_id_seq = seq; is_device_item = device; resend_ivl = ivl }) (λ off. off)
        (λ off. off) h.held;
}

raw-device :
    (be : ByteOrder) (inner : Inner) (msg : Message)
    → inner.is_device_item ≡ true
    → (Inner.msg_to_raw_msg be inner msg).1 ≡ inner
unfolding Inner.msg_to_raw_msg
raw-device be inner msg device = ground arith

raw-own :
    (be : ByteOrder) (inner : Inner) (msg : Message)
    → inner.is_device_item ≡ false
    → (Inner.msg_to_raw_msg be inner msg).1 ≡ Inner.advance_req_id inner
unfolding Inner.msg_to_raw_msg
raw-own be inner msg own = ground arith

raw-IsSound :
    (be : ByteOrder) (s : State) (inner : Inner) (msg : Message)
    → IsSound s inner
    → IsSound s (Inner.msg_to_raw_msg be inner msg).1
unfolding Inner.advance_req_id
raw-IsSound be s inner msg h = elim (Bool-cases inner.is_device_item) [
  | inl device ↦ subst (IsSound s) (sym (raw-device be inner msg device)) h
  | inr own ↦
      subst (IsSound s) (sym (raw-own be inner msg own))
        (relabel s inner ((inner.req_id_seq + 1) % 2 ^ 32) inner.is_device_item inner.resend_ivl h)
]

send-Keeps :
    (be : ByteOrder) (p : Req) (msg : Message) (t : Option ℕ) (w : World)
    → IsValid p
    → Keeps w 1 (send be p msg t w)
unfolding send
send-Keeps be p msg t w v =
    let raw = Inner.msg_to_raw_msg be p.inner msg in
    let p' : Req = record p { inner = raw.1 } in
    let sound = raw-IsSound be v.state p.inner msg v.sound in
    apply-Keeps p' v.state (λ s. State.send s raw.0 t false) w 1 v.present
      (send-Ends v.state v.state raw.0 t false raw.1 w sound)

on_recv_ack-Keeps :
    (be : ByteOrder) (p : Req) (eid : ℕ) (msg : Message) (w : World)
    → IsValid p
    → Inner.raw_msg_to_msg be p.inner msg ≢ none
    → Keeps w (waiting_in p) (on_recv_ack be p eid msg w)
unfolding on_recv_ack
on_recv_ack-Keeps be p eid msg w v well =
    elim (Option-cases (Inner.raw_msg_to_msg be p.inner msg)) [
      | inl malformed ↦ absurd (well malformed)
      | inr ((m, req_id), e) ↦
          rw (e, on_recv_ack)
            (through p v (λ s. State.on_recv_ack s eid m req_id) w (waiting v.state) _
              (on_recv_ack-Ends v.state eid m req_id p.inner w v.sound)
              (sym (waiting-present p v.state v.present)))
    ]

on_timer_tick-Keeps :
    (p : Req) (task : Schedulable) (w : World)
    → IsValid p
    → Keeps w (waiting_in p) (on_timer_tick p task w)
unfolding on_timer_tick
on_timer_tick-Keeps p Schedulable.req_resend w v =
    through p v State.on_retry_timeout w (waiting v.state) _
      (on_retry_timeout-Ends v.state p.inner w v.sound) (sym (waiting-present p v.state v.present))
on_timer_tick-Keeps p _ w v = (p, w, refl, v, refl)

set_option-IsValid :
    (p : Req) (opt : ConfigOption)
    → IsValid p
    → IsValid (or_same p (set_option p opt))
      × (waiting_in (or_same p (set_option p opt)) ≡ waiting_in p)
unfolding set_option
set_option-IsValid p (ConfigOption.req_resend_ivl ivl) v = (
  record {
    state = v.state;
    present = v.present;
    sound = relabel v.state p.inner p.inner.req_id_seq p.inner.is_device_item ivl v.sound;
  },
  refl,
)
set_option-IsValid p _ v = (v, refl)

-- Every admissible call of a valid request socket returns a valid one, and afterwards the replies
-- and the requests that wait are those before, with one more for a request that the call makes.
Req-step-Keeps :
    (be : ByteOrder) (p : Req) (c : Call) (w : World)
    → IsValid p
    → Admissible be p c
    → Keeps w (waiting_in p + requests c) (step be p c w)
unfolding step
Req-step-Keeps be p (Call.add_pipe eid pipe) w v a =
    rw add-zero (add_pipe-Keeps be p eid pipe w v a)
Req-step-Keeps be p (Call.remove_pipe eid) w v a = rw add-zero (remove_pipe-Keeps be p eid w v a)
Req-step-Keeps be p (Call.send msg t) w v a = rw a (send-Keeps be p msg t w v)
Req-step-Keeps be p (Call.on_send_ack eid) w v a =
    through p v (λ s. State.on_send_ack s eid) w (waiting v.state) _
      (on_send_ack-Ends v.state eid p.inner w v.sound)
      (omega (arith, waiting-present p v.state v.present))
Req-step-Keeps be p Call.on_send_timeout w v a =
    through p v (λ _. State.on_send_timeout) w 1 _ (on_send_timeout-Ends v.state p.inner w v.sound)
      (omega arith)
Req-step-Keeps be p (Call.on_send_ready eid) w v a =
    through p v (λ s. State.on_send_ready s eid) w (waiting v.state) _
      (on_send_ready-Ends v.state eid p.inner w v.sound)
      (omega (arith, waiting-present p v.state v.present))
Req-step-Keeps be p (Call.on_send_not_ready eid) w v a =
    through p v (λ s. State.on_send_not_ready s eid) w (waiting v.state) _
      (on_send_not_ready-Ends v.state eid p.inner w v.sound)
      (omega (arith, waiting-present p v.state v.present))
Req-step-Keeps be p (Call.recv t) w v a =
    through p v (λ s. State.recv s t) w 1 _ (recv-Ends v.state v.state t p.inner w v.sound)
      (omega arith)
Req-step-Keeps be p (Call.on_recv_ack eid msg) w v a =
    rw add-zero (on_recv_ack-Keeps be p eid msg w v a)
Req-step-Keeps be p Call.on_recv_timeout w v (s, e, due) =
    let same : s ≡ v.state = cc (sym e ∙ v.present) in
    through p v State.on_recv_timeout w (waiting v.state) _
      (on_recv_timeout-Ends v.state p.inner w v.sound (subst IsReceiving same due))
      (omega (arith, waiting-present p v.state v.present))
Req-step-Keeps be p (Call.on_recv_ready eid) w v a =
    through p v (λ s. State.on_recv_ready s eid) w (waiting v.state) _
      (on_recv_ready-Ends v.state eid p.inner w v.sound)
      (omega (arith, waiting-present p v.state v.present))
Req-step-Keeps be p (Call.on_recv_not_ready eid) w v a =
    through p v (λ s. State.on_recv_not_ready s eid) w (waiting v.state) _
      (on_recv_not_ready-Ends v.state eid p.inner w v.sound)
      (omega (arith, waiting-present p v.state v.present))
Req-step-Keeps be p (Call.set_option opt) w v a =
    let (v', same) = set_option-IsValid p opt v in
    (or_same p (set_option p opt), w, refl, v', omega arith)
Req-step-Keeps be p (Call.on_timer_tick task) w v a = rw add-zero (on_timer_tick-Keeps p task w v)
Req-step-Keeps be p Call.on_device_plugged w v a = (
  _,
  w,
  refl,
  record {
    state = v.state;
    present = v.present;
    sound = relabel v.state p.inner p.inner.req_id_seq true p.inner.resend_ivl v.sound;
  },
  omega arith,
)
Req-step-Keeps be p Call.close w v a = absurd a

-- Over any history of admissible calls on a valid request socket it stays valid, and the requests
-- made are those answered and the one that waits: each is answered once, and none twice.
pub Req-Run_answered :
    (be : ByteOrder) {p q : Req} {w u : World} {n : ℕ}
    → IsValid p
    → Run (step be) (Admissible be) p w q u n
    → IsValid q × (replies u.log + waiting_in q ≡ replies w.log + waiting_in p + n)
Req-Run_answered be v run =
    Run-answered IsValid waiting_in (step be) (Admissible be) (Req-step-Keeps be) v run
