-- ===== src/Proto/Pull/Inner.antt =====
-- src/proto/pull.rs, `Inner`: the pipes and the fair queue of a pull socket. Its `reply_tx` is the
-- log of the world.
use scaproust.Prelude.{ℕ, Bool, Option, Outcome, ok, ◌>>=◌}
use scaproust.Core.Message.{Message}
use scaproust.Core.Endpoint.{Pipe, get_recv_priority}
use scaproust.Core.Context.{
  World, Reply, timed_out, other, send_reply, fail, Timeout, cancel_timeout,
}
use scaproust.Proto.Priolist
use scaproust.Proto.Priolist.{Priolist}
use scaproust.Proto.Pipes
use scaproust.Proto.Pipes.{PipeCollection}
use scaproust.Proto.Policy.{fair_recv}

pub record Inner : Type 0 where
  pub pipes : PipeCollection
  pub fq : Priolist

unfoldable pub add_pipe : Inner → ℕ → Pipe → Inner
add_pipe inner eid pipe = record {
  pipes = Pipes.insert inner.pipes eid pipe;
  fq = Priolist.insert inner.fq eid (get_recv_priority pipe);
}

unfoldable pub remove_pipe : Inner → ℕ → Outcome (Option Pipe × Inner)
remove_pipe inner eid = do
  fq ← Priolist.remove inner.fq eid
  ok (Pipes.get inner.pipes eid, record { pipes = Pipes.remove inner.pipes eid; fq = fq })

unfoldable pub send : Timeout → World → World
send timeout w = cancel_timeout timeout (fail other "Send is not supported by pull protocol" w)

unfoldable pub recv : Inner → World → Outcome (Option ℕ × Inner × World)
recv inner w = do
  (eid, fq, w') ← fair_recv inner.fq inner.pipes w
  ok (eid, record inner { fq = fq }, w')

unfoldable pub on_recv_ready : Inner → ℕ → Outcome Inner
on_recv_ready inner eid = do fq ← Priolist.activate inner.fq eid; ok (record inner { fq = fq })

unfoldable pub on_recv_not_ready : Inner → ℕ → Outcome Inner
on_recv_not_ready inner eid = do
  fq ← Priolist.deactivate inner.fq eid
  ok (record inner { fq = fq })

unfoldable pub on_recv_ack : Timeout → Message → World → World
on_recv_ack timeout msg w = cancel_timeout timeout (send_reply (Reply.recv msg) w)

unfoldable pub on_recv_timeout : World → World
on_recv_timeout w = fail timed_out "Recv timed out" w

unfoldable pub is_recv_ready : Inner → Bool
is_recv_ready inner = Priolist.peek inner.fq

unfoldable pub close : Inner → World → Inner × World
close inner w =
    let (pipes, w') = Pipes.close_all inner.pipes w in (record inner { pipes = pipes }, w')
