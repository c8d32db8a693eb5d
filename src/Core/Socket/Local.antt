-- ===== src/Core/Socket/Local.antt =====
-- src/core/socket.rs: what a socket holds, what it is given, and what it does without its protocol.
use scaproust.Prelude.{
  ℕ, ◌⊎◌, Bool, true, false, Option, none, some, List, [], ◌∷◌, String, Outcome, ok, ◌>>=◌,
}
use scaproust.Core.Endpoint.{
  EndpointDesc, EndpointSpec, EndpointTmpl, Pipe, Acceptor, new_accepted, closed_spec,
  get_send_priority, get_recv_priority,
}
use scaproust.Core.Config
use scaproust.Core.Config.{Config, ConfigOption, is_generic}
use scaproust.Core.Context.{World, Action, IoError, Schedulable, act, schedule}
use scaproust.Proto.Pipes
use scaproust.Proto.Pipes.{PipeCollection}
use scaproust.Proto.Call.{Call}

-- The trait `Protocol`: `step` is every call that answers nothing. An option refused is `none`.
pub record Protocol (P : Type 0) : Type 0 where
  pub id : ℕ
  pub peer_id : ℕ
  pub step : P → Call → World → Outcome (P × World)
  pub remove_pipe : P → ℕ → World → Outcome (Option Pipe × P × World)
  pub set_option : P → ConfigOption → Option P
  pub is_send_ready : P → Bool
  pub is_recv_ready : P → Bool

-- What the network answers, from all that happened before: the identifier of a new endpoint or an
-- error, and whether a known one is back. `timer_error` is the error of a timer refused.
pub record Network : Type 0 where
  pub connect : List Action → EndpointTmpl → IoError ⊎ ℕ
  pub bind : List Action → EndpointTmpl → IoError ⊎ ℕ
  pub reconnect : List Action → ℕ → EndpointTmpl → Bool
  pub rebind : List Action → ℕ → EndpointTmpl → Bool
  pub timer_error : List Action → Schedulable → ℕ → IoError

pub record Socket (P : Type 0) : Type 0 where
  pub id : ℕ
  pub protocol : P
  pub pipes : PipeCollection
  pub acceptors : List (ℕ × Acceptor)
  pub config : Config

-- `Acceptor::close`: as for a pipe, but of the other kind.
unfoldable pub close_endpoint : Acceptor → World → Option EndpointSpec × World
close_endpoint a w = (closed_spec a, act (Action.close_endpoint a.id false) w)

unfoldable pub close_acceptors : List (ℕ × Acceptor) → World → World
close_acceptors [] w = w
close_acceptors ((k, a) ∷ rest) w = close_acceptors rest (close_endpoint a w).1

module _ {P : Type 0} where
  unfoldable pub new : ℕ → P → Socket P
  new id protocol = record {
    id = id;
    protocol = protocol;
    pipes = [];
    acceptors = [];
    config = Config.default;
  }

  unfoldable pub create_endpoint_desc : Socket P → EndpointDesc
  create_endpoint_desc s = record {
    send_priority = s.config.send_priority;
    recv_priority = s.config.recv_priority;
    tcp_no_delay = s.config.tcp_no_delay;
    recv_max_size = s.config.recv_max_size;
  }

  unfoldable pub create_endpoint_spec : Socket P → String → EndpointSpec
  create_endpoint_spec s url = record { url = url; desc = create_endpoint_desc s }

  unfoldable pub insert_pipe : Socket P → ℕ → Pipe → World → Socket P × World
  insert_pipe s eid pipe w = (
    record s { pipes = Pipes.insert s.pipes eid pipe },
    act (Action.open_endpoint pipe.id true) w,
  )

  unfoldable pub insert_acceptor : Socket P → ℕ → Acceptor → World → Socket P × World
  insert_acceptor s eid acceptor w = (
    record s { acceptors = Pipes.insert s.acceptors eid acceptor },
    act (Action.open_endpoint acceptor.id false) w,
  )

  unfoldable pub schedule_reconnect : Socket P → ℕ → EndpointSpec → World → World
  schedule_reconnect s eid spec w =
      (schedule (Schedulable.reconnect eid spec) s.config.retry_ivl w).1

  unfoldable pub schedule_rebind : Socket P → ℕ → EndpointSpec → World → World
  schedule_rebind s eid spec w = (schedule (Schedulable.rebind eid spec) s.config.retry_ivl w).1

  unfoldable pub accept_pipe : Socket P → ℕ → ℕ → Pipe
  accept_pipe s aid eid = elim (Pipes.get s.acceptors aid) [
    | some acceptor ↦ new_accepted eid (record (create_endpoint_desc s) {
      send_priority = get_send_priority acceptor;
      recv_priority = get_recv_priority acceptor;
    })
    | none ↦ new_accepted eid (create_endpoint_desc s)
  ]

  unfoldable pub on_pipe_accepted : Socket P → ℕ → ℕ → World → Socket P × World
  on_pipe_accepted s aid eid w = insert_pipe s eid (accept_pipe s aid eid) w

  unfoldable pub remove_acceptor : Socket P → ℕ → World → Option EndpointSpec × Socket P × World
  remove_acceptor s eid w = elim (Pipes.get s.acceptors eid) [
    | none ↦ (none, s, w)
    | some a ↦
        let (spec, w') = close_endpoint a w in
        (spec, record s { acceptors = Pipes.remove s.acceptors eid }, w')
  ]

  unfoldable pub close_acceptor : Socket P → ℕ → World → Socket P × World
  close_acceptor s eid w = let (_, s', w') = remove_acceptor s eid w in (s', w')

  unfoldable pub on_acceptor_error : Socket P → ℕ → World → Socket P × World
  on_acceptor_error s eid w =
      let (removed, s', w') = remove_acceptor s eid w in
      elim removed [ none ↦ (s', w') | some spec ↦ (s', schedule_rebind s' eid spec w') ]

  -- A call of the protocol, on the socket.
  abbrev pub via : Socket P → Outcome (P × World) → Outcome (Socket P × World)
  via s o = do (p, w) ← o; ok (record s { protocol = p }, w)
