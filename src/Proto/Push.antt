-- ===== src/Proto/Push.antt =====
-- src/proto/push.rs: the push socket, which balances its messages over the pipes that can send.
pub mod Inner
pub mod State
pub mod Invariant
pub mod History
pub mod Delivery
pub mod Unblocked
mod Connected
mod Examples
use scaproust.Prelude.{ℕ, Bool, false, Option, none, some, [], Outcome, ok, ◌>>=◌}
use scaproust.Core.Message.{Message}
use scaproust.Core.Endpoint.{Pipe}
use scaproust.Core.Context.{World, check_send_ready_change}
use scaproust.Proto.Priolist
use scaproust.Proto.Call.{Call}
use State.{idle, Step}

pub record Push : Type 0 where
  pub inner : Inner.Inner
  pub state : Option State.State

unfoldable pub new : Push
new = record { inner = record { pipes = []; lb = Priolist.new }; state = some idle }

-- `apply`: the state is taken, so that nothing happens where there is none.
unfoldable pub apply :
    Push → (State.State → Inner.Inner → World → Step) → World → Outcome (Push × World)
apply p transition w = elim p.state [
  | none ↦ ok (p, w)
  | some old ↦ do
    (s, inner, w') ← transition old p.inner w
    ok (
      record { inner = inner; state = some s },
      check_send_ready_change (Inner.is_send_ready p.inner) (Inner.is_send_ready inner) w',
    )
]

unfoldable pub remove_pipe : Push → ℕ → World → Outcome (Option Pipe × Push × World)
remove_pipe p eid w = do
  (pipe, inner) ← Inner.remove_pipe p.inner eid
  let w' = check_send_ready_change (Inner.is_send_ready p.inner) (Inner.is_send_ready inner) w
  let p' = record p { inner = inner }
  elim pipe [
    | none ↦ ok (none, p', w')
    | some removed ↦ do
      (p'', w'') ← apply p' (λ s. State.on_pipe_removed s eid) w'
      ok (some removed, p'', w'')
  ]

unfoldable pub close : Push → World → Push × World
close p w = let (inner, w') = Inner.close p.inner w in (record p { inner = inner }, w')

-- A transition that returns `self`.
abbrev pub stay : State.State → Inner.Inner → World → Step
stay s inner w = ok (s, inner, w)

-- A call of the trait. The last three are its default methods, which do nothing here.
unfoldable pub step : Push → Call → World → Outcome (Push × World)
step p (Call.add_pipe eid pipe) w = ok (record p { inner = Inner.add_pipe p.inner eid pipe }, w)
step p (Call.remove_pipe eid) w = do (_, p', w') ← remove_pipe p eid w; ok (p', w')
step p (Call.send msg timeout) w = apply p (λ _. State.send msg timeout) w
step p (Call.on_send_ack eid) w = apply p (λ s. State.on_send_ack s eid) w
step p Call.on_send_timeout w = apply p (λ _. State.on_send_timeout) w
step p (Call.on_send_ready eid) w = apply p (λ s. State.on_send_ready s eid) w
step p (Call.on_send_not_ready eid) w = apply p (λ s. State.on_send_not_ready s eid) w
step p (Call.recv timeout) w = apply p (λ s. State.recv s timeout) w
step p (Call.on_recv_ack eid msg) w = apply p stay w
step p Call.on_recv_timeout w = apply p stay w
step p (Call.on_recv_ready eid) w = apply p stay w
step p (Call.on_recv_not_ready eid) w = apply p stay w
step p Call.close w = ok (close p w)
step p (Call.set_option opt) w = ok (p, w)
step p (Call.on_timer_tick task) w = ok (p, w)
step p Call.on_device_plugged w = ok (p, w)

unfoldable pub is_recv_ready : Push → Bool
is_recv_ready p = false
