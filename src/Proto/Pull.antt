-- ===== src/Proto/Pull.antt =====
-- src/proto/pull.rs: the pull socket, which takes messages in turn from the pipes that have some.
pub mod Inner
pub mod State
pub mod Invariant
pub mod History
pub mod Delivery
pub mod Unblocked
mod Examples
use scaproust.Prelude.{ℕ, Bool, false, Option, none, some, [], Outcome, ok, ◌>>=◌}
use scaproust.Core.Message.{Message}
use scaproust.Core.Endpoint.{Pipe}
use scaproust.Core.Context.{World, check_recv_ready_change}
use scaproust.Proto.Priolist
use scaproust.Proto.Call.{Call}
use State.{idle, Step}

pub record Pull : Type 0 where
  pub inner : Inner.Inner
  pub state : Option State.State

unfoldable pub new : Pull
new = record { inner = record { pipes = []; fq = Priolist.new }; state = some idle }

-- `apply`: the state is taken, so that nothing happens where there is none.
unfoldable pub apply :
    Pull → (State.State → Inner.Inner → World → Step) → World → Outcome (Pull × World)
apply p transition w = elim p.state [
  | none ↦ ok (p, w)
  | some old ↦ do
    (s, inner, w') ← transition old p.inner w
    ok (
      record { inner = inner; state = some s },
      check_recv_ready_change (Inner.is_recv_ready p.inner) (Inner.is_recv_ready inner) w',
    )
]

unfoldable pub remove_pipe : Pull → ℕ → World → Outcome (Option Pipe × Pull × World)
remove_pipe p eid w = do
  (pipe, inner) ← Inner.remove_pipe p.inner eid
  let w' = check_recv_ready_change (Inner.is_recv_ready p.inner) (Inner.is_recv_ready inner) w
  let p' = record p { inner = inner }
  elim pipe [
    | none ↦ ok (none, p', w')
    | some removed ↦ do
      (p'', w'') ← apply p' (λ s. State.on_pipe_removed s eid) w'
      ok (some removed, p'', w'')
  ]

unfoldable pub close : Pull → World → Pull × World
close p w = let (inner, w') = Inner.close p.inner w in (record p { inner = inner }, w')

-- A transition that returns `self`.
abbrev pub stay : State.State → Inner.Inner → World → Step
stay s inner w = ok (s, inner, w)

-- A call of the trait. The last three are its default methods, which do nothing here.
unfoldable pub step : Pull → Call → World → Outcome (Pull × World)
step p (Call.add_pipe eid pipe) w = ok (record p { inner = Inner.add_pipe p.inner eid pipe }, w)
step p (Call.remove_pipe eid) w = do (_, p', w') ← remove_pipe p eid w; ok (p', w')
step p (Call.send msg timeout) w = apply p (λ s. State.send s timeout) w
step p (Call.on_send_ack eid) w = apply p stay w
step p Call.on_send_timeout w = apply p stay w
step p (Call.on_send_ready eid) w = apply p stay w
step p (Call.on_send_not_ready eid) w = apply p stay w
step p (Call.recv timeout) w = apply p (λ _. State.recv timeout) w
step p (Call.on_recv_ack eid msg) w = apply p (λ s. State.on_recv_ack s eid msg) w
step p Call.on_recv_timeout w = apply p (λ _. State.on_recv_timeout) w
step p (Call.on_recv_ready eid) w = apply p (λ s. State.on_recv_ready s eid) w
step p (Call.on_recv_not_ready eid) w = apply p (λ s. State.on_recv_not_ready s eid) w
step p Call.close w = ok (close p w)
step p (Call.set_option opt) w = ok (p, w)
step p (Call.on_timer_tick task) w = ok (p, w)
step p Call.on_device_plugged w = ok (p, w)

unfoldable pub is_send_ready : Pull → Bool
is_send_ready p = false
