-- ===== src/Proto/Rep/State.antt =====
-- src/proto/rep.rs, `State`: the transitions of a reply socket.
use scaproust.Prelude.{ℕ, Bool, false, none, some, Outcome, ok, ◌>>=◌, ◌==◌, if◌then◌else◌}
use scaproust.Core.Message.{Message}
use scaproust.Core.Context.{World, Timeout}
use scaproust.Proto.Rep.Inner
use scaproust.Proto.Rep.Inner.{Inner}

pub data State : Type 0 where
  idle : State
  receiving : ℕ → Timeout → State
  recv_on_hold : Timeout → State
  active : ℕ → State
  sending send_on_hold : ℕ → Message → Timeout → State

abbrev pub Step : Type 0
Step = Outcome (State × Inner × World)

unfoldable pub send_reply_to : Message → Timeout → ℕ → Inner → World → Step
send_reply_to msg timeout eid inner w =
    let (sent, inner', w') = Inner.send_to inner msg eid w in
    ok ((if sent then sending eid msg timeout else send_on_hold eid msg timeout), inner', w')

-- The branch of `send` for a socket of its own.
unfoldable pub send_active : State → Message → Timeout → ℕ → Inner → World → Step
send_active (active _) msg timeout eid inner w =
    if Inner.is_send_ready_to inner eid
    then send_reply_to msg timeout eid inner w
    else ok (send_on_hold eid msg timeout, inner, w)
send_active _ msg timeout eid inner w = ok (idle, inner, Inner.send_when_inactive timeout w)

unfoldable pub send : State → Message → Timeout → ℕ → Inner → World → Step
unfolding send_active
send s msg timeout eid inner w =
    if inner.is_device_item
    then (if Inner.is_send_ready_to inner eid
        then send_reply_to msg timeout eid inner w
        else ok (idle, inner, Inner.on_send_ack timeout w))
    else send_active s msg timeout eid inner w

unfoldable pub on_send_ack : State → ℕ → Inner → World → Step
on_send_ack (sending id msg timeout) eid inner w =
    if id == eid
    then ok (idle, inner, Inner.on_send_ack timeout w)
    else ok (sending id msg timeout, inner, w)
on_send_ack any eid inner w = ok (any, inner, w)

unfoldable pub on_send_timeout : Inner → World → Step
on_send_timeout inner w = ok (idle, inner, Inner.on_send_timeout w)

unfoldable pub send_held : State → ℕ → Inner → World → Step
send_held (send_on_hold id msg timeout) eid inner w =
    if id == eid
    then send_reply_to msg timeout eid inner w
    else ok (send_on_hold id msg timeout, inner, w)
send_held any eid inner w = ok (any, inner, w)

unfoldable pub on_send_ready : State → ℕ → Inner → World → Step
unfolding send_held
on_send_ready s eid inner w = send_held s eid (Inner.on_send_ready inner eid) w

unfoldable pub on_send_not_ready : State → ℕ → Inner → World → Step
on_send_not_ready s eid inner w = ok (s, Inner.on_send_not_ready inner eid, w)

abbrev is_send_ready_active : State → Inner → Bool
is_send_ready_active (active eid) inner = Inner.is_send_ready_to inner eid
is_send_ready_active _ inner = false

unfoldable pub is_send_ready : State → Inner → Bool
is_send_ready s inner =
    if inner.is_device_item then Inner.is_send_ready inner else is_send_ready_active s inner

unfoldable pub recv : Timeout → Inner → World → Step
recv timeout inner w = do
  (from, inner', w') ← Inner.recv inner w
  elim from [
    | none ↦ ok (recv_on_hold timeout, inner', w')
    | some eid ↦ ok (receiving eid timeout, inner', w')
  ]

unfoldable pub on_recv_ack : State → ℕ → Message → Inner → World → Step
on_recv_ack (receiving id timeout) eid msg inner w =
    let (inner', w') = Inner.on_recv_ack inner timeout msg w in
    if id == eid
    then ok ((if inner.is_device_item then idle else active eid), inner', w')
    else ok (receiving id timeout, inner, w)
on_recv_ack any eid msg inner w = ok (any, inner, w)

unfoldable pub on_recv_timeout : Inner → World → Step
on_recv_timeout inner w = ok (idle, inner, Inner.on_recv_timeout w)

unfoldable pub recv_held : State → Inner → World → Step
recv_held (recv_on_hold timeout) inner w = recv timeout inner w
recv_held any inner w = ok (any, inner, w)

unfoldable pub on_recv_ready : State → ℕ → Inner → World → Step
unfolding recv_held
on_recv_ready s eid inner w = do inner' ← Inner.on_recv_ready inner eid; recv_held s inner' w

unfoldable pub on_recv_not_ready : State → ℕ → Inner → World → Step
on_recv_not_ready s eid inner w = do inner' ← Inner.on_recv_not_ready inner eid; ok (s, inner', w)

unfoldable pub is_recv_ready : State → Inner → Bool
is_recv_ready s inner = Inner.is_recv_ready inner

unfoldable pub on_pipe_removed : State → ℕ → Inner → World → Step
on_pipe_removed (receiving id timeout) eid inner w =
    if id == eid then recv timeout inner w else ok (receiving id timeout, inner, w)
on_pipe_removed any eid inner w = ok (any, inner, w)
