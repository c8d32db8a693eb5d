-- ===== src/Proto/Sub/State.antt =====
-- src/proto/sub.rs, `State`: the transitions of a subscriber.
use scaproust.Prelude.{ℕ, none, some, Outcome, ok, ◌>>=◌, ◌==◌, if◌then◌else◌}
use scaproust.Core.Message.{Message}
use scaproust.Core.Context.{World, Timeout}
use scaproust.Proto.Sub.Inner
use scaproust.Proto.Sub.Inner.{Inner}

pub data State : Type 0 where
  idle : State
  receiving : ℕ → Timeout → State
  recv_on_hold : Timeout → State

abbrev pub Step : Type 0
Step = Outcome (State × Inner × World)

unfoldable pub recv : Timeout → Inner → World → Step
recv timeout inner w = do
  (from, inner', w') ← Inner.recv inner w
  elim from [
    | none ↦ ok (recv_on_hold timeout, inner', w')
    | some eid ↦ ok (receiving eid timeout, inner', w')
  ]

unfoldable pub on_pipe_removed : State → ℕ → Inner → World → Step
on_pipe_removed (receiving id timeout) eid inner w =
    if id == eid then recv timeout inner w else ok (receiving id timeout, inner, w)
on_pipe_removed any eid inner w = ok (any, inner, w)

unfoldable pub send : State → Timeout → Inner → World → Step
send s timeout inner w = ok (s, inner, Inner.send timeout w)

unfoldable pub on_recv_ack : State → ℕ → Message → Inner → World → Step
on_recv_ack (receiving id timeout) eid msg inner w =
    if id == eid
    then (if Inner.accept inner msg
        then ok (idle, inner, Inner.on_recv_ack timeout msg w)
        else recv timeout inner w)
    else ok (receiving id timeout, inner, w)
on_recv_ack any eid msg inner w = ok (any, inner, w)

unfoldable pub on_recv_timeout : Inner → World → Step
on_recv_timeout inner w = ok (idle, inner, Inner.on_recv_timeout w)

unfoldable pub retry : State → Inner → World → Step
retry (recv_on_hold timeout) inner w = recv timeout inner w
retry any inner w = ok (any, inner, w)

unfoldable pub on_recv_ready : State → ℕ → Inner → World → Step
unfolding retry
on_recv_ready s eid inner w = do inner' ← Inner.on_recv_ready inner eid; retry s inner' w

unfoldable pub on_recv_not_ready : State → ℕ → Inner → World → Step
on_recv_not_ready s eid inner w = do inner' ← Inner.on_recv_not_ready inner eid; ok (s, inner', w)
