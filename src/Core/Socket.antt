-- ===== src/Core/Socket.antt =====
-- src/core/socket.rs: the socket around a protocol. It keeps the pipes that are not open yet and the
-- acceptors, makes the timers of the user's requests, and hands the rest to the protocol.
pub mod Local
pub mod Endpoints
use scaproust.Prelude.{
  ℕ, zero, suc, ◌+◌, ◌≤◌, ◌<◌, ◌≡◌, ◌≢◌, refl, sym, ap, subst, ◌∙◌, ◌↔◌, ◌⊎◌, inl, inr, Bool, true,
  false, not, ◌&&◌, ◌||◌, Option, none, some, List, [], ◌∷◌, map, length, get_elem?, set,
  length-set, get_elem?-in_range, get_elem?-lt, ◌==◌, if◌then◌else◌, String, Outcome, ok, panic,
  ◌>>=◌, arith, ==_iff, Bool-cases,
}
use scaproust.Core.Message.{Message}
use scaproust.Core.Endpoint.{
  EndpointDesc, EndpointSpec, EndpointTmpl, Endpoint, Pipe, Acceptor, new_accepted, from_spec,
  closed_spec, get_send_priority, get_recv_priority,
}
use scaproust.Core.Config
use scaproust.Core.Config.{Config, ConfigOption, is_generic}
use scaproust.Core.Context.{
  World, Action, Event, Reply, IoError, ErrorKind, other, invalid_input, would_block, Schedulable,
  Timeout, act, send_reply, fail, schedule, close_pipe,
}
use scaproust.Proto.Pipes
use scaproust.Proto.Pipes.{PipeCollection}
use scaproust.Proto.Call.{Call}
use scaproust.Core.Socket.Local.{
  Protocol, Network, Socket, close_endpoint, close_acceptors, create_endpoint_desc,
  create_endpoint_spec, insert_pipe, insert_acceptor, schedule_reconnect, schedule_rebind, via,
}

module _ {P : Type 0} (proto : Protocol P) (net : Network) where
  abbrev pub template : EndpointSpec → EndpointTmpl
  template spec = record { pids = (proto.id, proto.peer_id); spec = spec }

  unfoldable pub create_endpoint_tmpl : Socket P → String → EndpointTmpl
  create_endpoint_tmpl s url = template (create_endpoint_spec s url)

  unfoldable pub poll : Socket P → World → World
  poll s w =
      act (Action.raise (Event.can_send (proto.is_send_ready s.protocol)))
        (act (Action.raise (Event.can_recv (proto.is_recv_ready s.protocol))) w)

  unfoldable pub connect : Socket P → String → World → Socket P × World
  connect s url w =
      let tmpl = create_endpoint_tmpl s url in
      let asked = act (Action.connect s.id tmpl) w in
      elim (net.connect w.log tmpl) [
        | inl e ↦ (s, send_reply (Reply.err e) asked)
        | inr eid ↦
            let (s', w') = insert_pipe s eid (from_spec eid tmpl.spec) asked in
            (s', send_reply (Reply.connect eid) w')
      ]

  unfoldable pub reconnect : Socket P → ℕ → EndpointSpec → World → Socket P × World
  reconnect s eid spec w =
      let tmpl = template spec in
      let asked = act (Action.reconnect s.id eid tmpl) w in
      if net.reconnect w.log eid tmpl
      then insert_pipe s eid (from_spec eid spec) asked
      else (s, schedule_reconnect s eid spec asked)

  unfoldable pub bind : Socket P → String → World → Socket P × World
  bind s url w =
      let tmpl = create_endpoint_tmpl s url in
      let asked = act (Action.bind s.id tmpl) w in
      elim (net.bind w.log tmpl) [
        | inl e ↦ (s, send_reply (Reply.err e) asked)
        | inr eid ↦
            let (s', w') = insert_acceptor s eid (from_spec eid tmpl.spec) asked in
            (s', send_reply (Reply.bind eid) w')
      ]

  unfoldable pub rebind : Socket P → ℕ → EndpointSpec → World → Socket P × World
  rebind s eid spec w =
      let tmpl = template spec in
      let asked = act (Action.rebind s.id eid tmpl) w in
      if net.rebind w.log eid tmpl
      then insert_acceptor s eid (from_spec eid spec) asked
      else (s, schedule_rebind s eid spec asked)

  unfoldable pub on_pipe_opened : Socket P → ℕ → World → Outcome (Socket P × World)
  on_pipe_opened s eid w = elim (Pipes.get s.pipes eid) [
    | none ↦ ok (s, w)
    | some pipe ↦
        via (record s { pipes = Pipes.remove s.pipes eid })
          (proto.step s.protocol (Call.add_pipe eid pipe) w)
  ]

  unfoldable pub remove_pipe :
      Socket P → ℕ → World → Outcome (Option EndpointSpec × Socket P × World)
  remove_pipe s eid w = elim (Pipes.get s.pipes eid) [
    | some pipe ↦
        let (spec, w') = close_pipe pipe w in
        ok (spec, record s { pipes = Pipes.remove s.pipes eid }, w')
    | none ↦ do
      (removed, p, w') ← proto.remove_pipe s.protocol eid w
      elim removed [
        | none ↦ ok (none, record s { protocol = p }, w')
        | some pipe ↦
            let (spec, w'') = close_pipe pipe w' in ok (spec, record s { protocol = p }, w'')
      ]
  ]

  unfoldable pub close_socket_pipe : Socket P → ℕ → World → Outcome (Socket P × World)
  close_socket_pipe s eid w = do (_, s', w') ← remove_pipe s eid w; ok (s', w')

  unfoldable pub on_pipe_error : Socket P → ℕ → World → Outcome (Socket P × World)
  on_pipe_error s eid w = do
    (removed, s', w') ← remove_pipe s eid w
    elim removed [ none ↦ ok (s', w') | some spec ↦ ok (s', schedule_reconnect s' eid spec w') ]

  -- A request of the user, with the timer that its delay asks for.
  abbrev pub timed :
      Socket P → Option ℕ → Schedulable → (Timeout → Call) → World → Outcome (Socket P × World)
  timed s none task call w = via s (proto.step s.protocol (call none) w)
  timed s (some delay) task call w =
      let (granted, w') = schedule task delay w in
      elim granted [
        | none ↦ ok (s, send_reply (Reply.err (net.timer_error w.log task delay)) w')
        | some timeout ↦ via s (proto.step s.protocol (call (some timeout)) w')
      ]

  unfoldable pub send : Socket P → Message → World → Outcome (Socket P × World)
  send s msg w = timed s s.config.send_timeout Schedulable.send_timeout (Call.send msg) w

  unfoldable pub try_send : Socket P → Message → World → Outcome (Socket P × World)
  try_send s msg w =
      if proto.is_send_ready s.protocol
      then via s (proto.step s.protocol (Call.send msg none) w)
      else ok (s, fail would_block "socket is not send ready" w)

  unfoldable pub on_send_ack : Socket P → ℕ → World → Outcome (Socket P × World)
  on_send_ack s eid w = via s (proto.step s.protocol (Call.on_send_ack eid) w)

  unfoldable pub on_send_timeout : Socket P → World → Outcome (Socket P × World)
  on_send_timeout s w = via s (proto.step s.protocol Call.on_send_timeout w)

  unfoldable pub on_send_ready : Socket P → ℕ → Bool → World → Outcome (Socket P × World)
  on_send_ready s eid ready w = via s (
      proto.step s.protocol (if ready then Call.on_send_ready eid else Call.on_send_not_ready eid)
        w)

  unfoldable pub recv : Socket P → World → Outcome (Socket P × World)
  recv s w = timed s s.config.recv_timeout Schedulable.recv_timeout Call.recv w

  unfoldable pub try_recv : Socket P → World → Outcome (Socket P × World)
  try_recv s w =
      if proto.is_recv_ready s.protocol
      then via s (proto.step s.protocol (Call.recv none) w)
      else ok (s, fail would_block "socket is not recv ready" w)

  unfoldable pub on_recv_ack : Socket P → ℕ → Message → World → Outcome (Socket P × World)
  on_recv_ack s eid msg w = via s (proto.step s.protocol (Call.on_recv_ack eid msg) w)

  unfoldable pub on_recv_timeout : Socket P → World → Outcome (Socket P × World)
  on_recv_timeout s w = via s (proto.step s.protocol Call.on_recv_timeout w)

  unfoldable pub on_recv_ready : Socket P → ℕ → Bool → World → Outcome (Socket P × World)
  on_recv_ready s eid ready w = via s (
      proto.step s.protocol (if ready then Call.on_recv_ready eid else Call.on_recv_not_ready eid)
        w)

  unfoldable pub set_option : Socket P → ConfigOption → World → Socket P × World
  set_option s opt w =
      if is_generic opt
      then elim (Config.set s.config opt) [
        | none ↦ (s, fail invalid_input "option not supported" w)
        | some c ↦ (record s { config = c }, send_reply Reply.set_option w)
      ]
      else elim (proto.set_option s.protocol opt) [
        | none ↦ (s, fail invalid_input "option not supported" w)
        | some p ↦ (record s { protocol = p }, send_reply Reply.set_option w)
      ]

  unfoldable pub on_timer_tick : Socket P → Schedulable → World → Outcome (Socket P × World)
  on_timer_tick s task w = via s (proto.step s.protocol (Call.on_timer_tick task) w)

  unfoldable pub on_device_plugged : Socket P → World → Outcome (Socket P × World)
  on_device_plugged s w = via s (proto.step s.protocol Call.on_device_plugged w)

  unfoldable pub close : Socket P → World → Outcome (Socket P × World)
  close s w = do
    let (pipes, w') = Pipes.close_all s.pipes w
    (s', w'') ←
        via (record s { pipes = pipes; acceptors = [] })
          (proto.step s.protocol Call.close (close_acceptors s.acceptors w'))
    ok (s', act (Action.raise Event.closed) w'')
