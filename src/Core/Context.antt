-- ===== src/Core/Context.antt =====
-- src/core/context.rs, src/core/network.rs and the replies of src/core/socket.rs: what the code
-- around a protocol does to the outside, as a log of actions, and the timer that answers it.
use scaproust.Prelude.{
  ℕ, Bool, true, Option, none, some, List, ◌∷◌, String, ◌&&◌, ◌||◌, not, if◌then◌else◌,
}
use scaproust.Core.Message.{Message}
use scaproust.Core.Endpoint.{EndpointSpec, EndpointTmpl, Endpoint, closed_spec}

pub data ErrorKind : Type 0 where
  other invalid_data would_block invalid_input timed_out : ErrorKind

pub record IoError : Type 0 where
  pub kind : ErrorKind
  pub text : String

pub data Reply : Type 0 where
  err : IoError → Reply
  connect bind : ℕ → Reply
  send : Reply
  recv : Message → Reply
  set_option : Reply

pub data Event : Type 0 where
  can_send can_recv : Bool → Event
  closed : Event

pub data Schedulable : Type 0 where
  reconnect rebind : ℕ → EndpointSpec → Schedulable
  send_timeout recv_timeout req_resend survey_cancel : Schedulable

-- What leaves the code: a reply to the facade, a call of the network, of the scheduler, an event.
pub data Action : Type 0 where
  reply : Reply → Action
  connect bind : ℕ → EndpointTmpl → Action
  reconnect rebind : ℕ → ℕ → EndpointTmpl → Action
  open_endpoint : ℕ → Bool → Action
  close_endpoint : ℕ → Bool → Action
  send : ℕ → Message → Action
  recv : ℕ → Action
  arm : Schedulable → ℕ → Action
  cancel : ℕ → Action
  raise : Event → Action

-- The log has the latest action first. The timer's answer may depend on all that happened before;
-- `none` is its error.
pub record World : Type 0 where
  pub log : List Action
  pub timer : List Action → Schedulable → ℕ → Option ℕ

unfoldable pub act : Action → World → World
act a w = record w { log = a ∷ w.log }

abbrev pub send_reply : Reply → World → World
send_reply r w = act (Action.reply r) w

abbrev pub fail : ErrorKind → String → World → World
fail k text w = send_reply (Reply.err (record { kind = k; text = text })) w

-- `ctx.schedule(task, delay)`
unfoldable pub schedule : Schedulable → ℕ → World → Option ℕ × World
unfolding act
schedule task delay w = (w.timer w.log task delay, act (Action.arm task delay) w)

abbrev pub Timeout : Type 0
Timeout = Option ℕ

-- `if let Some(sched) = timeout { ctx.cancel(sched) }`
unfoldable pub cancel_timeout : Timeout → World → World
cancel_timeout none w = w
cancel_timeout (some sched) w = act (Action.cancel sched) w

-- Whether two Boolean values differ.
abbrev pub differ : Bool → Bool → Bool
differ a b = (a && not b) || (not a && b)

unfoldable pub check_send_ready_change : Bool → Bool → World → World
check_send_ready_change was_ready is_ready w =
    if differ was_ready is_ready then act (Action.raise (Event.can_send is_ready)) w else w

unfoldable pub check_recv_ready_change : Bool → Bool → World → World
check_recv_ready_change was_ready is_ready w =
    if differ was_ready is_ready then act (Action.raise (Event.can_recv is_ready)) w else w

-- Both checks, as a protocol that sends and receives makes them after a change.
abbrev pub check_changes : Bool → Bool → Bool → Bool → World → World
check_changes was_send_ready is_send_ready was_recv_ready is_recv_ready w =
    check_recv_ready_change was_recv_ready is_recv_ready
      (check_send_ready_change was_send_ready is_send_ready w)

-- `Pipe::close`: the network is told, and the spec of a created pipe is handed back.
unfoldable pub close_pipe : Endpoint → World → Option EndpointSpec × World
close_pipe pipe w = (closed_spec pipe, act (Action.close_endpoint pipe.id true) w)
