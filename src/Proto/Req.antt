-- ===== src/Proto/Req.antt =====
-- src/proto/req.rs: the request socket, which sends a request to one peer and waits for its reply.
pub mod Frame
pub mod Inner
pub mod State
pub mod Invariant
pub mod Receive
pub mod Settle
pub mod History
pub mod Answered
pub mod RoundTrip
pub mod Matching
pub mod Retry
mod Examples
use scaproust.Prelude.{ℕ, Bool, true, false, Option, none, some, Outcome, ok, ◌>>=◌}
use scaproust.Core.Message.{Message}
use scaproust.Core.Bytes.{ByteOrder}
use scaproust.Core.Config.{ConfigOption}
use scaproust.Core.Endpoint.{Pipe}
use scaproust.Core.Context.{World, Schedulable, Timeout, check_changes}
use scaproust.Proto.Call.{Call}
use State.{idle, Step}

pub record Req : Type 0 where
  pub inner : Inner.Inner
  pub state : Option State.State

unfoldable pub new : ℕ → Req
new nsec = record { inner = Inner.new nsec; state = some idle }

-- `apply`: the state is taken, so that nothing happens where there is none.
unfoldable pub apply :
    Req → (State.State → Inner.Inner → World → Step) → World → Outcome (Req × World)
apply p transition w = elim p.state [
  | none ↦ ok (p, w)
  | some old ↦ do
    (s, inner, w') ← transition old p.inner w
    ok (
      record { inner = inner; state = some s },
      check_changes (State.is_send_ready old p.inner) (State.is_send_ready s inner)
          (State.is_recv_ready old p.inner) (State.is_recv_ready s inner) w',
    )
]

unfoldable pub is_send_ready : Req → Bool
is_send_ready p = elim p.state [ none ↦ false | some s ↦ State.is_send_ready s p.inner ]

unfoldable pub is_recv_ready : Req → Bool
is_recv_ready p = elim p.state [ none ↦ false | some s ↦ State.is_recv_ready s p.inner ]

-- The flags are read before and after the inner removal, and checked after the transition.
unfoldable pub remove_pipe : Req → ℕ → World → Outcome (Option Pipe × Req × World)
remove_pipe p eid w = do
  (pipe, inner) ← Inner.remove_pipe p.inner eid
  let p' = record p { inner = inner }
  let check =
      check_changes (is_send_ready p) (is_send_ready p') (is_recv_ready p) (is_recv_ready p')
  elim pipe [
    | none ↦ ok (none, p', check w)
    | some removed ↦ do
      (p'', w') ← apply p' (λ s. State.on_pipe_removed s eid) w
      ok (some removed, p'', check w')
  ]

unfoldable pub send : ByteOrder → Req → Message → Timeout → World → Outcome (Req × World)
send be p msg timeout w =
    let (raw_msg, inner) = Inner.msg_to_raw_msg be p.inner msg in
    apply (record p { inner = inner }) (λ s. State.send s raw_msg timeout false) w

unfoldable pub on_recv_ack : ByteOrder → Req → ℕ → Message → World → Outcome (Req × World)
on_recv_ack be p eid raw_msg w = elim (Inner.raw_msg_to_msg be p.inner raw_msg) [
  | none ↦ ok (p, Inner.on_recv_ack_malformed w)
  | some (msg, req_id) ↦ apply p (λ s. State.on_recv_ack s eid msg req_id) w
]

-- `none` is the error "option not supported".
unfoldable pub set_option : Req → ConfigOption → Option Req
set_option p (ConfigOption.req_resend_ivl ivl) =
    some (record p { inner = let inner = p.inner in record inner { resend_ivl = ivl } })
set_option p _ = none

unfoldable pub on_timer_tick : Req → Schedulable → World → Outcome (Req × World)
on_timer_tick p Schedulable.req_resend w = apply p State.on_retry_timeout w
on_timer_tick p _ w = ok (p, w)

unfoldable pub close : Req → World → Req × World
close p w = let (inner, w') = Inner.close p.inner w in (record p { inner = inner }, w')

-- `map_or` of an option that was refused: the socket is as it was.
abbrev pub or_same : Req → Option Req → Req
or_same p none = p
or_same p (some q) = q

-- A call of the trait.
unfoldable pub step : ByteOrder → Req → Call → World → Outcome (Req × World)
step be p (Call.add_pipe eid pipe) w = ok (record p { inner = Inner.add_pipe p.inner eid pipe }, w)
step be p (Call.remove_pipe eid) w = do (_, p', w') ← remove_pipe p eid w; ok (p', w')
step be p (Call.send msg timeout) w = send be p msg timeout w
step be p (Call.on_send_ack eid) w = apply p (λ s. State.on_send_ack s eid) w
step be p Call.on_send_timeout w = apply p (λ _. State.on_send_timeout) w
step be p (Call.on_send_ready eid) w = apply p (λ s. State.on_send_ready s eid) w
step be p (Call.on_send_not_ready eid) w = apply p (λ s. State.on_send_not_ready s eid) w
step be p (Call.recv timeout) w = apply p (λ s. State.recv s timeout) w
step be p (Call.on_recv_ack eid msg) w = on_recv_ack be p eid msg w
step be p Call.on_recv_timeout w = apply p State.on_recv_timeout w
step be p (Call.on_recv_ready eid) w = apply p (λ s. State.on_recv_ready s eid) w
step be p (Call.on_recv_not_ready eid) w = apply p (λ s. State.on_recv_not_ready s eid) w
step be p (Call.set_option opt) w = ok (or_same p (set_option p opt), w)
step be p (Call.on_timer_tick task) w = on_timer_tick p task w
step be p Call.on_device_plugged w =
    ok (record p { inner = let inner = p.inner in record inner { is_device_item = true } }, w)
step be p Call.close w = ok (close p w)
