-- ===== src/Proto/Rep.antt =====
-- src/proto/rep.rs: the reply socket, which takes a request from any pipe and answers it by the same.
pub mod Route
pub mod Inner
pub mod State
pub mod Invariant
pub mod Replying
pub mod Receiving
pub mod Keeping
pub mod History
pub mod Trace
mod Examples
use scaproust.Prelude.{
  ℕ, zero, suc, ◌+◌, ◌*◌, ◌/◌, ◌-◌, ◌%◌, ◌^◌, ◌≡◌, ◌≢◌, ◌≤◌, ◌<◌, ◌↔◌, ◌⊎◌, refl, sym, ap, subst,
  ◌∙◌, inl, inr, Bool, true, false, not, ◌&&◌, ◌||◌, Option, none, some, List, [], ◌∷◌, ◌++◌, map,
  length, take, drop, get_elem?, String, Outcome, ok, panic, ◌>>=◌, arith, ltb, leb, ◌==◌, ==_iff,
  ==_refl, Bool-cases, Option-cases, if◌then◌else◌, length-append,
}
use scaproust.Core.Message.{Message}
use scaproust.Core.Bytes.{ByteOrder}
use scaproust.Core.Endpoint.{Pipe}
use scaproust.Core.Context.{World, Timeout, check_changes}
use scaproust.Proto.Call.{Call}
use State.{idle, Step}

pub record Rep : Type 0 where
  pub inner : Inner.Inner
  pub state : Option State.State

unfoldable pub new : Rep
new = record { inner = Inner.new; state = some idle }

-- `apply`: the state is taken, so that nothing happens where there is none.
unfoldable pub apply :
    Rep → (State.State → Inner.Inner → World → Step) → World → Outcome (Rep × World)
apply p transition w = elim p.state [
  | none ↦ ok (p, w)
  | some old ↦ do
    (s, inner, w') ← transition old p.inner w
    ok (
      record { inner = inner; state = some s },
      check_changes (State.is_send_ready old p.inner) (State.is_send_ready s inner)
          (State.is_recv_ready old p.inner) (State.is_recv_ready s inner) w',
    )
]

unfoldable pub is_send_ready : Rep → Bool
is_send_ready p = elim p.state [ none ↦ false | some s ↦ State.is_send_ready s p.inner ]

unfoldable pub is_recv_ready : Rep → Bool
is_recv_ready p = elim p.state [ none ↦ false | some s ↦ State.is_recv_ready s p.inner ]

-- The flags are read before and after the inner removal, and checked after the transition.
unfoldable pub remove_pipe : Rep → ℕ → World → Outcome (Option Pipe × Rep × World)
remove_pipe p eid w = do
  (pipe, inner) ← Inner.remove_pipe p.inner eid
  let p' = record p { inner = inner }
  let check =
      check_changes (is_send_ready p) (is_send_ready p') (is_recv_ready p) (is_recv_ready p')
  elim pipe [
    | none ↦ ok (none, p', check w)
    | some removed ↦ do
      (p'', w') ← apply p' (λ s. State.on_pipe_removed s eid) w
      ok (some removed, p'', check w')
  ]

unfoldable pub send : ByteOrder → Rep → Message → Timeout → World → Outcome (Rep × World)
send be p msg timeout w = elim (Inner.msg_to_raw_msg be p.inner msg) [
  | none ↦ ok (p, Inner.on_send_malformed timeout w)
  | some (raw_msg, eid) ↦ apply p (λ s. State.send s raw_msg timeout eid) w
]

-- The way back is forgotten first, whatever pipe the acknowledgement comes from.
unfoldable pub on_send_ack : Rep → ℕ → World → Outcome (Rep × World)
on_send_ack p eid w =
    apply (record p { inner = Inner.clear_backtrace p.inner }) (λ s. State.on_send_ack s eid) w

unfoldable pub on_recv_ack : ByteOrder → Rep → ℕ → Message → World → Outcome (Rep × World)
on_recv_ack be p eid raw_msg w = elim (Inner.raw_msg_to_msg be p.inner raw_msg eid) [
  | none ↦ ok (p, Inner.on_recv_ack_malformed w)
  | some msg ↦ apply p (λ s. State.on_recv_ack s eid msg) w
]

unfoldable pub close : Rep → World → Rep × World
close p w = let (inner, w') = Inner.close p.inner w in (record p { inner = inner }, w')

-- A call of the trait; options and timer ticks are the trait's, which do nothing.
unfoldable pub step : ByteOrder → Rep → Call → World → Outcome (Rep × World)
step be p (Call.add_pipe eid pipe) w = ok (record p { inner = Inner.add_pipe p.inner eid pipe }, w)
step be p (Call.remove_pipe eid) w = do (_, p', w') ← remove_pipe p eid w; ok (p', w')
step be p (Call.send msg timeout) w = send be p msg timeout w
step be p (Call.on_send_ack eid) w = on_send_ack p eid w
step be p Call.on_send_timeout w = apply p (λ _. State.on_send_timeout) w
step be p (Call.on_send_ready eid) w = apply p (λ s. State.on_send_ready s eid) w
step be p (Call.on_send_not_ready eid) w = apply p (λ s. State.on_send_not_ready s eid) w
step be p (Call.recv timeout) w = apply p (λ _. State.recv timeout) w
step be p (Call.on_recv_ack eid msg) w = on_recv_ack be p eid msg w
step be p Call.on_recv_timeout w = apply p (λ _. State.on_recv_timeout) w
step be p (Call.on_recv_ready eid) w = apply p (λ s. State.on_recv_ready s eid) w
step be p (Call.on_recv_not_ready eid) w = apply p (λ s. State.on_recv_not_ready s eid) w
step be p (Call.set_option opt) w = ok (p, w)
step be p (Call.on_timer_tick task) w = ok (p, w)
step be p Call.on_device_plugged w =
    ok (record p { inner = let inner = p.inner in record inner { is_device_item = true } }, w)
step be p Call.close w = ok (close p w)
