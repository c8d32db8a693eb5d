-- ===== src/Proto/Req/State.antt =====
-- src/proto/req.rs, `State`: the transitions of a request socket.
use scaproust.Prelude.{
  ℕ, Bool, true, false, Option, none, some, Outcome, ok, ◌>>=◌, ◌==◌, if◌then◌else◌,
}
use scaproust.Core.Message.{Message}
use scaproust.Core.Context.{World, Timeout}
use scaproust.Proto.Req.Inner
use scaproust.Proto.Req.Inner.{Inner, PendingRequest}

pub data State : Type 0 where
  idle : State
  sending : ℕ → Message → Timeout → Bool → State
  send_on_hold : Message → Timeout → Bool → State
  active : ℕ → PendingRequest → State
  receiving : ℕ → Option PendingRequest → Timeout → State
  recv_on_hold : Option ℕ → Option PendingRequest → Timeout → State

abbrev pub Step : Type 0
Step = Outcome (State × Inner × World)

-- `if let State::Active(_, p) = self { inner.cancel(ctx, p) }`
unfoldable pub cancel_active : State → World → World
cancel_active (active _ p) w = Inner.cancel p w
cancel_active _ w = w

unfoldable pub send : State → Message → Timeout → Bool → Inner → World → Step
send s msg timeout retry inner w = do
  (sent, inner', w') ← Inner.send inner msg (cancel_active s w)
  elim sent [
    | none ↦ ok (send_on_hold msg timeout retry, inner', w')
    | some eid ↦ ok (sending eid msg timeout retry, inner', w')
  ]

unfoldable pub on_send_ack : State → ℕ → Inner → World → Step
on_send_ack (sending id msg timeout retry) eid inner w =
    let (retry_timeout, w') = Inner.on_send_ack inner timeout retry w in
    if id == eid
    then ok (
      (if inner.is_device_item
          then idle
          else active eid (record { req = msg; retry_timeout = retry_timeout })),
      inner,
      w',
    )
    else ok (sending id msg timeout retry, inner, w)
on_send_ack any eid inner w = ok (any, inner, w)

unfoldable pub on_send_timeout : Inner → World → Step
on_send_timeout inner w = ok (idle, inner, Inner.on_send_timeout w)

unfoldable pub send_held : State → Inner → World → Step
send_held (send_on_hold msg timeout retry) inner w = send idle msg timeout retry inner w
send_held any inner w = ok (any, inner, w)

unfoldable pub on_send_ready : State → ℕ → Inner → World → Step
unfolding send_held
on_send_ready s eid inner w = do inner' ← Inner.on_send_ready inner eid; send_held s inner' w

unfoldable pub on_send_not_ready : State → ℕ → Inner → World → Step
on_send_not_ready s eid inner w = do inner' ← Inner.on_send_not_ready inner eid; ok (s, inner', w)

unfoldable pub recv_reply_for : Timeout → ℕ → PendingRequest → Inner → World → Step
recv_reply_for timeout eid p inner w =
    let (found, inner', w') = Inner.recv_reply_from inner eid w in
    if found
    then ok (receiving eid (some p) timeout, inner', w')
    else ok (recv_on_hold (some eid) (some p) timeout, inner', w')

-- The branch of `recv` for a socket of a device.
unfoldable pub recv_any : Timeout → Inner → World → Step
recv_any timeout inner w = do
  (from, inner', w') ← Inner.recv inner w
  elim from [
    | none ↦ ok (recv_on_hold none none timeout, inner', w')
    | some eid ↦ ok (receiving eid none timeout, inner', w')
  ]

-- The branches of `recv` for a socket of its own.
unfoldable pub recv_active : State → Timeout → Inner → World → Step
recv_active (active eid p) timeout inner w = recv_reply_for timeout eid p inner w
recv_active _ timeout inner w = ok (idle, inner, Inner.recv_when_inactive timeout w)

unfoldable pub recv : State → Timeout → Inner → World → Step
unfolding recv_any recv_active
recv s timeout inner w =
    if inner.is_device_item then recv_any timeout inner w else recv_active s timeout inner w

unfoldable pub on_recv_ack : State → ℕ → Message → ℕ → Inner → World → Step
on_recv_ack (receiving id none timeout) eid msg req_id inner w =
    if eid == id
    then ok (idle, inner, Inner.on_recv_ack timeout msg none w)
    else ok (receiving id none timeout, inner, w)
on_recv_ack (receiving id (some p) timeout) eid msg req_id inner w =
    if eid == id
    then (if Inner.cur_req_id inner == req_id
        then ok (idle, inner, Inner.on_recv_ack timeout msg p.retry_timeout w)
        else recv_reply_for timeout id p inner w)
    else ok (receiving id (some p) timeout, inner, w)
on_recv_ack any eid msg req_id inner w = ok (any, inner, w)

unfoldable pub on_recv_timeout : State → Inner → World → Step
on_recv_timeout (receiving _ none _) inner w = ok (idle, inner, Inner.on_recv_timeout none w)
on_recv_timeout (recv_on_hold _ none _) inner w = ok (idle, inner, Inner.on_recv_timeout none w)
on_recv_timeout (receiving _ (some p) _) inner w =
    ok (idle, inner, Inner.on_recv_timeout p.retry_timeout w)
on_recv_timeout (recv_on_hold _ (some p) _) inner w =
    ok (idle, inner, Inner.on_recv_timeout p.retry_timeout w)
on_recv_timeout _ inner w = ok (idle, inner, w)

unfoldable pub recv_held : State → ℕ → Inner → World → Step
recv_held (recv_on_hold none none timeout) eid inner w = recv idle timeout inner w
recv_held (recv_on_hold (some id) (some p) timeout) eid inner w =
    if eid == id
    then recv (active id p) timeout inner w
    else ok (recv_on_hold (some id) (some p) timeout, inner, w)
recv_held any eid inner w = ok (any, inner, w)

unfoldable pub on_recv_ready : State → ℕ → Inner → World → Step
unfolding recv_held
on_recv_ready s eid inner w = do inner' ← Inner.on_recv_ready inner eid; recv_held s eid inner' w

unfoldable pub on_recv_not_ready : State → ℕ → Inner → World → Step
on_recv_not_ready s eid inner w = do inner' ← Inner.on_recv_not_ready inner eid; ok (s, inner', w)

unfoldable pub on_retry_timeout : State → Inner → World → Step
on_retry_timeout (active _ p) inner w = send idle p.req none true inner w
on_retry_timeout any inner w = ok (any, inner, w)

unfoldable pub on_pipe_removed : State → ℕ → Inner → World → Step
on_pipe_removed (sending id msg timeout retry) eid inner w =
    if id == eid
    then send idle msg timeout retry inner w
    else ok (sending id msg timeout retry, inner, w)
on_pipe_removed (receiving id p timeout) eid inner w =
    if eid == id then recv idle timeout inner w else ok (receiving id p timeout, inner, w)
on_pipe_removed any eid inner w = ok (any, inner, w)

unfoldable pub is_send_ready : State → Inner → Bool
is_send_ready s inner = Inner.is_send_ready inner

abbrev is_recv_ready_active : State → Inner → Bool
is_recv_ready_active (active eid _) inner = Inner.is_recv_ready_from inner eid
is_recv_ready_active _ inner = false

unfoldable pub is_recv_ready : State → Inner → Bool
is_recv_ready s inner =
    if inner.is_device_item then Inner.is_recv_ready inner else is_recv_ready_active s inner
