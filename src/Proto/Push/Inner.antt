-- ===== src/Proto/Push/Inner.antt =====
-- src/proto/push.rs, `Inner`: the pipes and the load balancer of a push socket. Its `reply_tx` is
-- the log of the world.
use scaproust.Prelude.{ℕ, Bool, Option, Outcome, ok, ◌>>=◌}
use scaproust.Core.Message.{Message}
use scaproust.Core.Endpoint.{Pipe, get_send_priority}
use scaproust.Core.Context.{
  World, Reply, timed_out, other, send_reply, fail, Timeout, cancel_timeout,
}
use scaproust.Proto.Priolist
use scaproust.Proto.Priolist.{Priolist}
use scaproust.Proto.Pipes
use scaproust.Proto.Pipes.{PipeCollection}
use scaproust.Proto.Policy.{balanced_send}

pub record Inner : Type 0 where
  pub pipes : PipeCollection
  pub lb : Priolist

unfoldable pub add_pipe : Inner → ℕ → Pipe → Inner
add_pipe inner eid pipe = record {
  pipes = Pipes.insert inner.pipes eid pipe;
  lb = Priolist.insert inner.lb eid (get_send_priority pipe);
}

unfoldable pub remove_pipe : Inner → ℕ → Outcome (Option Pipe × Inner)
remove_pipe inner eid = do
  lb ← Priolist.remove inner.lb eid
  ok (Pipes.get inner.pipes eid, record { pipes = Pipes.remove inner.pipes eid; lb = lb })

unfoldable pub send : Inner → Message → World → Outcome (Option ℕ × Inner × World)
send inner msg w = do
  (sent, lb, w') ← balanced_send inner.lb inner.pipes msg w
  ok (sent, record inner { lb = lb }, w')

unfoldable pub on_send_ready : Inner → ℕ → Outcome Inner
on_send_ready inner eid = do lb ← Priolist.activate inner.lb eid; ok (record inner { lb = lb })

unfoldable pub on_send_not_ready : Inner → ℕ → Outcome Inner
on_send_not_ready inner eid = do
  lb ← Priolist.deactivate inner.lb eid
  ok (record inner { lb = lb })

unfoldable pub on_send_ack : Timeout → World → World
on_send_ack timeout w = cancel_timeout timeout (send_reply Reply.send w)

unfoldable pub on_send_timeout : World → World
on_send_timeout w = fail timed_out "Send timed out" w

unfoldable pub is_send_ready : Inner → Bool
is_send_ready inner = Priolist.peek inner.lb

unfoldable pub recv : Timeout → World → World
recv timeout w = cancel_timeout timeout (fail other "Recv is not supported by push protocol" w)

unfoldable pub close : Inner → World → Inner × World
close inner w =
    let (pipes, w') = Pipes.close_all inner.pipes w in (record inner { pipes = pipes }, w')
