-- ===== src/Proto/Rep/History.antt =====
-- src/proto/rep.rs: a reply socket over any sequence of calls.
use scaproust.Prelude.{ℕ, ◌+◌, ◌≡◌, refl, arith}
use native.Mathlib.Nat.{add-zero}
use scaproust.Core.Bytes.{ByteOrder}
use scaproust.Core.Context.{World}
use scaproust.Core.Log.{replies}
use scaproust.Proto.Call.{Call}
use scaproust.Proto.Answering
use scaproust.Proto.Answering.{Run, Run-answered, requests}
use scaproust.Proto.Rep.State
use scaproust.Proto.Rep.State.{
  State, idle, receiving, recv_on_hold, active, sending, send_on_hold, Step,
}
use scaproust.Proto.Rep.{Rep, step, send}
use scaproust.Proto.Rep.Invariant.{waiting, recv-Ends}
use scaproust.Proto.Rep.Replying.{on_send_timeout-Ends, on_send_ready-Ends, on_send_not_ready-Ends}
use scaproust.Proto.Rep.Receiving.{on_recv_timeout-Ends, on_recv_ready-Ends, on_recv_not_ready-Ends}
use scaproust.Proto.Rep.Keeping.{
  IsValid, waiting_in, Admissible, Keeps, waiting-present, through, add_pipe-Keeps,
  remove_pipe-Keeps, send-Keeps, on_send_ack-Keeps, on_recv_ack-Keeps, device-Keeps,
}

-- Every admissible call of a valid reply socket returns a valid one, and afterwards the replies and
-- the requests that wait are those before, with one more for a request that the call makes.
Rep-step-Keeps :
    (be : ByteOrder) (p : Rep) (c : Call) (w : World)
    → IsValid p
    → Admissible be p c
    → Keeps w (waiting_in p + requests c) (step be p c w)
unfolding step
Rep-step-Keeps be p (Call.add_pipe eid pipe) w v a =
    rw add-zero (add_pipe-Keeps be p eid pipe w v a)
Rep-step-Keeps be p (Call.remove_pipe eid) w v a = rw add-zero (remove_pipe-Keeps be p eid w v a)
Rep-step-Keeps be p (Call.send msg t) w v a =
    Answering.Keeps-owed IsValid waiting_in w 1 (waiting_in p + 1) (send be p msg t w) (omega arith)
      (send-Keeps be p msg t w v a)
Rep-step-Keeps be p (Call.on_send_ack eid) w v a = rw add-zero (on_send_ack-Keeps p eid w v)
Rep-step-Keeps be p Call.on_send_timeout w v a =
    through p v (λ _. State.on_send_timeout) w 1 _ (on_send_timeout-Ends v.state p.inner w v.sound)
      (omega arith)
Rep-step-Keeps be p (Call.on_send_ready eid) w v a =
    through p v (λ s. State.on_send_ready s eid) w (waiting v.state) _
      (on_send_ready-Ends v.state eid p.inner w v.sound)
      (omega (arith, waiting-present p v.state v.present))
Rep-step-Keeps be p (Call.on_send_not_ready eid) w v a =
    through p v (λ s. State.on_send_not_ready s eid) w (waiting v.state) _
      (on_send_not_ready-Ends v.state eid p.inner w v.sound)
      (omega (arith, waiting-present p v.state v.present))
Rep-step-Keeps be p (Call.recv t) w v a =
    through p v (λ _. State.recv t) w 1 _ (recv-Ends t p.inner w v.sound.covered) (omega arith)
Rep-step-Keeps be p (Call.on_recv_ack eid msg) w v a =
    rw add-zero (on_recv_ack-Keeps be p eid msg w v a)
Rep-step-Keeps be p Call.on_recv_timeout w v a =
    through p v (λ _. State.on_recv_timeout) w 1 _ (on_recv_timeout-Ends v.state p.inner w v.sound)
      (omega arith)
Rep-step-Keeps be p (Call.on_recv_ready eid) w v a =
    through p v (λ s. State.on_recv_ready s eid) w (waiting v.state) _
      (on_recv_ready-Ends v.state eid p.inner w v.sound)
      (omega (arith, waiting-present p v.state v.present))
Rep-step-Keeps be p (Call.on_recv_not_ready eid) w v a =
    through p v (λ s. State.on_recv_not_ready s eid) w (waiting v.state) _
      (on_recv_not_ready-Ends v.state eid p.inner w v.sound)
      (omega (arith, waiting-present p v.state v.present))
Rep-step-Keeps be p (Call.set_option opt) w v a = (p, w, refl, v, omega arith)
Rep-step-Keeps be p (Call.on_timer_tick task) w v a = (p, w, refl, v, omega arith)
Rep-step-Keeps be p Call.on_device_plugged w v a = rw add-zero (device-Keeps be p w v)
Rep-step-Keeps be p Call.close w v a = absurd a

-- Over any history of admissible calls on a valid reply socket, in which every request that arrives
-- can be traced back, it stays valid, and the requests of its user are those answered and the one that
-- waits: each is answered once, and none twice.
pub Rep-Run_answered :
    (be : ByteOrder) {p q : Rep} {w u : World} {n : ℕ}
    → IsValid p
    → Run (step be) (Admissible be) p w q u n
    → IsValid q × (replies u.log + waiting_in q ≡ replies w.log + waiting_in p + n)
Rep-Run_answered be v run =
    Run-answered IsValid waiting_in (step be) (Admissible be) (Rep-step-Keeps be) v run
