-- ===== src/Proto/Push/State.antt =====
-- src/proto/push.rs, `State`: the transitions of a push socket. Each takes the state, the inner
-- part and the world, and returns the three that follow.
use scaproust.Prelude.{ℕ, none, some, Outcome, ok, ◌>>=◌, ◌==◌, if◌then◌else◌}
use scaproust.Core.Message.{Message}
use scaproust.Core.Context.{World, Timeout}
use scaproust.Proto.Push.Inner
use scaproust.Proto.Push.Inner.{Inner}

pub data State : Type 0 where
  idle : State
  sending : ℕ → Message → Timeout → State
  send_on_hold : Message → Timeout → State

abbrev pub Step : Type 0
Step = Outcome (State × Inner × World)

unfoldable pub send : Message → Timeout → Inner → World → Step
send msg timeout inner w = do
  (sent, inner', w') ← Inner.send inner msg w
  elim sent [
    | none ↦ ok (send_on_hold msg timeout, inner', w')
    | some eid ↦ ok (sending eid msg timeout, inner', w')
  ]

unfoldable pub on_pipe_removed : State → ℕ → Inner → World → Step
on_pipe_removed (sending id msg timeout) eid inner w =
    if id == eid then send msg timeout inner w else ok (sending id msg timeout, inner, w)
on_pipe_removed any eid inner w = ok (any, inner, w)

unfoldable pub on_send_ack : State → ℕ → Inner → World → Step
on_send_ack (sending id msg timeout) eid inner w =
    if id == eid
    then ok (idle, inner, Inner.on_send_ack timeout w)
    else ok (sending id msg timeout, inner, w)
on_send_ack any eid inner w = ok (any, inner, w)

unfoldable pub on_send_timeout : Inner → World → Step
on_send_timeout inner w = ok (idle, inner, Inner.on_send_timeout w)

unfoldable pub resend : State → Inner → World → Step
resend (send_on_hold msg timeout) inner w = send msg timeout inner w
resend any inner w = ok (any, inner, w)

unfoldable pub on_send_ready : State → ℕ → Inner → World → Step
unfolding resend
on_send_ready s eid inner w = do inner' ← Inner.on_send_ready inner eid; resend s inner' w

unfoldable pub on_send_not_ready : State → ℕ → Inner → World → Step
on_send_not_ready s eid inner w = do inner' ← Inner.on_send_not_ready inner eid; ok (s, inner', w)

unfoldable pub recv : State → Timeout → Inner → World → Step
recv s timeout inner w = ok (s, inner, Inner.recv timeout w)
