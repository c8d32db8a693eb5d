-- ===== src/Proto/Sub.antt =====
-- src/proto/sub.rs: the subscriber, which takes messages in turn from the pipes that have some and
-- hands those of its topics to the user.
pub mod Inner
pub mod State
pub mod Invariant
pub mod Keeping
pub mod History
pub mod Topics
pub mod Subscribing
mod Examples
use scaproust.Prelude.{String, List, ℕ, Bool, false, Option, none, some, [], Outcome, ok, ◌>>=◌}
use scaproust.Core.Message.{Message}
use scaproust.Core.Config.{ConfigOption}
use scaproust.Core.Endpoint.{Pipe}
use scaproust.Core.Context.{World, check_recv_ready_change}
use scaproust.Proto.Priolist
use scaproust.Proto.Call.{Call}
use State.{idle, Step}

pub record Sub : Type 0 where
  pub inner : Inner.Inner
  pub state : Option State.State

unfoldable pub new : Sub
new = record {
  inner = record { pipes = []; fq = Priolist.new; subscriptions = [] };
  state = some idle;
}

-- `apply`: the state is taken, so that nothing happens where there is none.
unfoldable pub apply :
    Sub → (State.State → Inner.Inner → World → Step) → World → Outcome (Sub × World)
apply p transition w = elim p.state [
  | none ↦ ok (p, w)
  | some old ↦ do
    (s, inner, w') ← transition old p.inner w
    ok (
      record { inner = inner; state = some s },
      check_recv_ready_change (Inner.is_recv_ready p.inner) (Inner.is_recv_ready inner) w',
    )
]

unfoldable pub remove_pipe : Sub → ℕ → World → Outcome (Option Pipe × Sub × World)
remove_pipe p eid w = do
  (pipe, inner) ← Inner.remove_pipe p.inner eid
  let w' = check_recv_ready_change (Inner.is_recv_ready p.inner) (Inner.is_recv_ready inner) w
  let p' = record p { inner = inner }
  elim pipe [
    | none ↦ ok (none, p', w')
    | some removed ↦ do
      (p'', w'') ← apply p' (λ s. State.on_pipe_removed s eid) w'
      ok (some removed, p'', w'')
  ]

unfoldable pub close : Sub → World → Sub × World
close p w = let (inner, w') = Inner.close p.inner w in (record p { inner = inner }, w')

-- A transition that returns `self`.
abbrev pub stay : State.State → Inner.Inner → World → Step
stay s inner w = ok (s, inner, w)

-- `String::into_bytes` is a parameter. `none` is the error "option not supported".
unfoldable pub set_option : (String → List ℕ) → Sub → ConfigOption → Option Sub
set_option into_bytes p (ConfigOption.subscribe x) =
    some (record p { inner = Inner.subscribe p.inner (into_bytes x) })
set_option into_bytes p (ConfigOption.unsubscribe x) =
    some (record p { inner = Inner.unsubscribe p.inner (into_bytes x) })
set_option into_bytes p _ = none

-- A refused option leaves the socket as it is.
abbrev pub or_same : Sub → Option Sub → Sub
or_same p none = p
or_same p (some p') = p'

-- A call of the trait. The last two are its default methods, which do nothing here.
unfoldable pub step : (String → List ℕ) → Sub → Call → World → Outcome (Sub × World)
step into_bytes p (Call.add_pipe eid pipe) w =
    ok (record p { inner = Inner.add_pipe p.inner eid pipe }, w)
step into_bytes p (Call.remove_pipe eid) w = do (_, p', w') ← remove_pipe p eid w; ok (p', w')
step into_bytes p (Call.send msg timeout) w = apply p (λ s. State.send s timeout) w
step into_bytes p (Call.on_send_ack eid) w = apply p stay w
step into_bytes p Call.on_send_timeout w = apply p stay w
step into_bytes p (Call.on_send_ready eid) w = apply p stay w
step into_bytes p (Call.on_send_not_ready eid) w = apply p stay w
step into_bytes p (Call.recv timeout) w = apply p (λ _. State.recv timeout) w
step into_bytes p (Call.on_recv_ack eid msg) w = apply p (λ s. State.on_recv_ack s eid msg) w
step into_bytes p Call.on_recv_timeout w = apply p (λ _. State.on_recv_timeout) w
step into_bytes p (Call.on_recv_ready eid) w = apply p (λ s. State.on_recv_ready s eid) w
step into_bytes p (Call.on_recv_not_ready eid) w = apply p (λ s. State.on_recv_not_ready s eid) w
step into_bytes p Call.close w = ok (close p w)
step into_bytes p (Call.set_option opt) w = ok (or_same p (set_option into_bytes p opt), w)
step into_bytes p (Call.on_timer_tick task) w = ok (p, w)
step into_bytes p Call.on_device_plugged w = ok (p, w)

unfoldable pub is_send_ready : Sub → Bool
is_send_ready p = false
