-- ===== src/Proto/Rep/Inner.antt =====
-- src/proto/rep.rs, `Inner`: the pipes and the fair queue of a reply socket, the pipes that can send,
-- and the way back of the request that is being answered. `ttl` is a u8.
use scaproust.Prelude.{
  ℕ, ◌%◌, ◌^◌, Bool, true, false, Option, none, some, List, [], ◌∷◌, ◌++◌, Outcome, ok, ◌>>=◌,
  if◌then◌else◌,
}
use scaproust.Core.Message.{Message}
use scaproust.Core.Bytes.{ByteOrder}
use scaproust.Core.Endpoint.{Pipe, get_recv_priority}
use scaproust.Core.Context.{
  World, Reply, Action, timed_out, other, invalid_data, act, send_reply, fail, Timeout,
  cancel_timeout,
}
use scaproust.Proto.Priolist
use scaproust.Proto.Priolist.{Priolist}
use scaproust.Proto.Pipes
use scaproust.Proto.Pipes.{PipeCollection}
use scaproust.Proto.Ids
use scaproust.Proto.Ids.{IdSet}
use scaproust.Proto.Policy.{fair_recv}
use scaproust.Proto.Rep.Route.{trace, next_hop}

pub record Inner : Type 0 where
  pub pipes : PipeCollection
  pub fq : Priolist
  pub sd : IdSet
  pub ttl : ℕ
  pub backtrace : List ℕ
  pub is_device_item : Bool

unfoldable pub new : Inner
new = record {
  pipes = [];
  fq = Priolist.new;
  sd = [];
  ttl = 8;
  backtrace = [];
  is_device_item = false;
}

unfoldable pub add_pipe : Inner → ℕ → Pipe → Inner
add_pipe inner eid pipe = record inner {
  fq = Priolist.insert inner.fq eid (get_recv_priority pipe);
  pipes = Pipes.insert inner.pipes eid pipe;
}

unfoldable pub remove_pipe : Inner → ℕ → Outcome (Option Pipe × Inner)
remove_pipe inner eid = do
  fq ← Priolist.remove inner.fq eid
  ok (
    Pipes.get inner.pipes eid,
    record inner { fq = fq; sd = Ids.remove inner.sd eid; pipes = Pipes.remove inner.pipes eid },
  )

unfoldable pub on_send_malformed : Timeout → World → World
on_send_malformed timeout w = cancel_timeout timeout (fail invalid_data "Sending without eid" w)

unfoldable pub send_to : Inner → Message → ℕ → World → Bool × Inner × World
send_to inner msg eid w =
    let inner' = record inner { sd = Ids.remove inner.sd eid } in
    elim (Pipes.get inner.pipes eid) [
      | none ↦ (false, inner', w)
      | some pipe ↦ (true, inner', act (Action.send pipe.id msg) w)
    ]

unfoldable pub on_send_ack : Timeout → World → World
on_send_ack timeout w = cancel_timeout timeout (send_reply Reply.send w)

unfoldable pub send_when_inactive : Timeout → World → World
send_when_inactive timeout w = cancel_timeout timeout (fail other "Can't send: no active request" w)

unfoldable pub on_send_timeout : World → World
on_send_timeout w = fail timed_out "Send timed out" w

unfoldable pub on_send_ready : Inner → ℕ → Inner
on_send_ready inner eid = record inner { sd = Ids.insert inner.sd eid }

unfoldable pub on_send_not_ready : Inner → ℕ → Inner
on_send_not_ready inner eid = record inner { sd = Ids.remove inner.sd eid }

unfoldable pub is_send_ready : Inner → Bool
is_send_ready inner = elim inner.sd [ [] ↦ false | _ ∷ _ ↦ true ]

unfoldable pub is_send_ready_to : Inner → ℕ → Bool
is_send_ready_to inner eid = Ids.contains inner.sd eid

unfoldable pub recv : Inner → World → Outcome (Option ℕ × Inner × World)
recv inner w = do
  (from, fq, w') ← fair_recv inner.fq inner.pipes w
  ok (from, record inner { fq = fq }, w')

unfoldable pub on_recv_ready : Inner → ℕ → Outcome Inner
on_recv_ready inner eid = do fq ← Priolist.activate inner.fq eid; ok (record inner { fq = fq })

unfoldable pub on_recv_not_ready : Inner → ℕ → Outcome Inner
on_recv_not_ready inner eid = do
  fq ← Priolist.deactivate inner.fq eid
  ok (record inner { fq = fq })

-- On a socket of its own the header is kept as the way back, and the user gets the body alone.
unfoldable pub on_recv_ack : Inner → Timeout → Message → World → Inner × World
on_recv_ack inner timeout msg w =
    if inner.is_device_item
    then (inner, cancel_timeout timeout (send_reply (Reply.recv msg) w))
    else (
      record inner { backtrace = msg.header },
      cancel_timeout timeout (send_reply (Reply.recv (record msg { header = [] })) w),
    )

unfoldable pub on_recv_timeout : World → World
on_recv_timeout w = fail timed_out "Recv timed out" w

unfoldable pub on_recv_ack_malformed : World → World
on_recv_ack_malformed w = fail invalid_data "Received request without id" w

unfoldable pub is_recv_ready : Inner → Bool
is_recv_ready inner = Priolist.peek inner.fq

-- The identifier of the pipe is a usize that is written as a u32.
unfoldable pub raw_msg_to_msg : ByteOrder → Inner → Message → ℕ → Option Message
raw_msg_to_msg be inner raw_msg eid =
    trace inner.ttl (raw_msg.header ++ be.write_u32 (eid % 2 ^ 32)) raw_msg.body

unfoldable pub msg_to_raw_msg : ByteOrder → Inner → Message → Option (Message × ℕ)
msg_to_raw_msg be inner msg =
    next_hop be (if inner.is_device_item then msg.header else inner.backtrace) msg.body

unfoldable pub clear_backtrace : Inner → Inner
clear_backtrace inner = record inner { backtrace = [] }

unfoldable pub close : Inner → World → Inner × World
close inner w =
    let (pipes, w') = Pipes.close_all inner.pipes w in (record inner { pipes = pipes }, w')
