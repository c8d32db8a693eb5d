-- ===== src/Proto/Sub/History.antt =====
-- src/proto/sub.rs: a subscriber over any sequence of calls.
use scaproust.Prelude.{ℕ, ◌+◌, ◌≡◌, refl, ap, ◌∙◌, some, List, String, arith}
use native.Mathlib.Nat.{add-zero}
use scaproust.Core.Context.{World}
use scaproust.Core.Log.{replies}
use scaproust.Proto.Call.{Call}
use scaproust.Proto.Answering.{Run, Run-answered, requests}
use scaproust.Proto.Sub.State
use scaproust.Proto.Sub.State.{State, idle, receiving, recv_on_hold, Step, retry}
use scaproust.Proto.Sub.{Sub, stay, step}
use scaproust.Proto.Sub.Invariant.{
  waiting, recv-Ends, on_recv_ack-Ends, on_recv_timeout-Ends, on_recv_ready-Ends,
  on_recv_not_ready-Ends, send-Ends,
}
use scaproust.Proto.Sub.Keeping.{
  IsValid, waiting_in, Admissible, Keeps, waiting-present, waiting-busy, through, add_pipe-Keeps,
  remove_pipe-Keeps, stay-Ends, set_option-Keeps,
}

-- Every admissible call of a valid subscriber returns a valid one, and afterwards the replies and
-- the request still held are those before, with one more for a request that the call makes.
Sub-step-Keeps :
    (into_bytes : String → List ℕ) (p : Sub) (c : Call) (w : World)
    → IsValid p
    → Admissible p c
    → Keeps w (waiting_in p + requests c) (step into_bytes p c w)
unfolding step
Sub-step-Keeps into_bytes p (Call.add_pipe eid pipe) w v a =
    rw add-zero (add_pipe-Keeps into_bytes p eid pipe w v a)
Sub-step-Keeps into_bytes p (Call.remove_pipe eid) w v a =
    rw add-zero (remove_pipe-Keeps into_bytes p eid w v a)
Sub-step-Keeps into_bytes p (Call.recv t) w v a =
    through p v (λ _. State.recv t) w 1 _ (recv-Ends t p.inner w v.sound.covered)
      (omega (arith, waiting-present p idle a))
Sub-step-Keeps into_bytes p (Call.on_recv_ack eid msg) w v a =
    through p v (λ s. State.on_recv_ack s eid msg) w (waiting v.state) _
      (on_recv_ack-Ends v.state eid msg p.inner w v.sound)
      (omega (arith, waiting-present p v.state v.present))
Sub-step-Keeps into_bytes p Call.on_recv_timeout w v a =
    through p v (λ _. State.on_recv_timeout) w 1 _ (on_recv_timeout-Ends v.state p.inner w v.sound)
      (omega (
        arith,
        waiting-present p v.state v.present,
        waiting-busy v.state (λ e. a (v.present ∙ ap some e)),
      ))
Sub-step-Keeps into_bytes p (Call.on_recv_ready eid) w v a =
    through p v (λ s. State.on_recv_ready s eid) w (waiting v.state) _
      (on_recv_ready-Ends v.state eid p.inner w v.sound)
      (omega (arith, waiting-present p v.state v.present))
Sub-step-Keeps into_bytes p (Call.on_recv_not_ready eid) w v a =
    through p v (λ s. State.on_recv_not_ready s eid) w (waiting v.state) _
      (on_recv_not_ready-Ends v.state eid p.inner w v.sound)
      (omega (arith, waiting-present p v.state v.present))
Sub-step-Keeps into_bytes p (Call.send msg t) w v a =
    through p v (λ s. State.send s t) w (waiting v.state + 1) _
      (send-Ends v.state t p.inner w v.sound) (omega (arith, waiting-present p v.state v.present))
Sub-step-Keeps into_bytes p (Call.on_send_ack eid) w v a =
    through p v stay w (waiting v.state) _ (stay-Ends v.state p.inner w v.sound)
      (omega (arith, waiting-present p v.state v.present))
Sub-step-Keeps into_bytes p Call.on_send_timeout w v a =
    through p v stay w (waiting v.state) _ (stay-Ends v.state p.inner w v.sound)
      (omega (arith, waiting-present p v.state v.present))
Sub-step-Keeps into_bytes p (Call.on_send_ready eid) w v a =
    through p v stay w (waiting v.state) _ (stay-Ends v.state p.inner w v.sound)
      (omega (arith, waiting-present p v.state v.present))
Sub-step-Keeps into_bytes p (Call.on_send_not_ready eid) w v a =
    through p v stay w (waiting v.state) _ (stay-Ends v.state p.inner w v.sound)
      (omega (arith, waiting-present p v.state v.present))
Sub-step-Keeps into_bytes p (Call.set_option opt) w v a =
    rw add-zero (set_option-Keeps into_bytes p opt w v)
Sub-step-Keeps into_bytes p (Call.on_timer_tick task) w v a = (p, w, refl, v, omega arith)
Sub-step-Keeps into_bytes p Call.on_device_plugged w v a = (p, w, refl, v, omega arith)
Sub-step-Keeps into_bytes p Call.close w v a = absurd a

-- Over any history of admissible calls on a valid subscriber it stays valid, and the requests
-- made are those answered and the one still held: each is answered once, and none twice.
pub Sub-Run_answered :
    (into_bytes : String → List ℕ) {p q : Sub} {w u : World} {n : ℕ}
    → IsValid p
    → Run (step into_bytes) Admissible p w q u n
    → IsValid q × (replies u.log + waiting_in q ≡ replies w.log + waiting_in p + n)
Sub-Run_answered into_bytes v run =
    Run-answered IsValid waiting_in (step into_bytes) Admissible (Sub-step-Keeps into_bytes) v run
