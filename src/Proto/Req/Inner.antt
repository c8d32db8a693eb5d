-- ===== src/Proto/Req/Inner.antt =====
-- src/proto/req.rs, `Inner`: the pipes, the load balancer and the fair queue of a request socket,
-- the pipes that have something to receive, and the sequence of request identifiers (a u32).
use Prim.Native.Nat.{bit_or}
use scaproust.Prelude.{
  ℕ, ◌+◌, ◌%◌, ◌^◌, Bool, true, false, Option, none, some, [], Outcome, ok, ◌>>=◌, if◌then◌else◌,
}
use scaproust.Core.Message.{Message}
use scaproust.Core.Bytes.{ByteOrder}
use scaproust.Core.Endpoint.{Pipe, get_send_priority, get_recv_priority}
use scaproust.Core.Context.{
  World, Reply, Action, Schedulable, timed_out, other, invalid_data, act, send_reply, fail, Timeout,
  cancel_timeout, schedule,
}
use scaproust.Proto.Priolist
use scaproust.Proto.Priolist.{Priolist}
use scaproust.Proto.Pipes
use scaproust.Proto.Pipes.{PipeCollection}
use scaproust.Proto.Ids
use scaproust.Proto.Ids.{IdSet}
use scaproust.Proto.Policy.{balanced_send, fair_recv}
use scaproust.Proto.Req.Frame.{encode, decode}

pub record PendingRequest : Type 0 where
  pub req : Message
  pub retry_timeout : Timeout

pub record Inner : Type 0 where
  pub pipes : PipeCollection
  pub lb : Priolist
  pub fq : Priolist
  pub rv : IdSet
  pub req_id_seq : ℕ
  pub is_device_item : Bool
  pub resend_ivl : ℕ

-- The sequence starts from the clock.
unfoldable pub new : ℕ → Inner
new nsec = record {
  pipes = [];
  lb = Priolist.new;
  fq = Priolist.new;
  rv = [];
  req_id_seq = nsec;
  is_device_item = false;
  resend_ivl = 60_000;
}

unfoldable pub add_pipe : Inner → ℕ → Pipe → Inner
add_pipe inner eid pipe = record inner {
  lb = Priolist.insert inner.lb eid (get_send_priority pipe);
  fq = Priolist.insert inner.fq eid (get_recv_priority pipe);
  pipes = Pipes.insert inner.pipes eid pipe;
}

unfoldable pub remove_pipe : Inner → ℕ → Outcome (Option Pipe × Inner)
remove_pipe inner eid = do
  lb ← Priolist.remove inner.lb eid
  fq ← Priolist.remove inner.fq eid
  ok (
    Pipes.get inner.pipes eid,
    record inner {
      lb = lb;
      fq = fq;
      rv = Ids.remove inner.rv eid;
      pipes = Pipes.remove inner.pipes eid;
    },
  )

unfoldable pub send : Inner → Message → World → Outcome (Option ℕ × Inner × World)
send inner msg w = do
  (sent, lb, w') ← balanced_send inner.lb inner.pipes msg w
  ok (sent, record inner { lb = lb }, w')

unfoldable pub on_send_ready : Inner → ℕ → Outcome Inner
on_send_ready inner eid = do lb ← Priolist.activate inner.lb eid; ok (record inner { lb = lb })

unfoldable pub on_send_not_ready : Inner → ℕ → Outcome Inner
on_send_not_ready inner eid = do
  lb ← Priolist.deactivate inner.lb eid
  ok (record inner { lb = lb })

-- `let _ = self.reply_tx.send(Reply::Send)` unless the message is sent again.
abbrev pub reply_sent : Bool → World → World
reply_sent true w = w
reply_sent false w = send_reply Reply.send w

unfoldable pub on_send_ack : Inner → Timeout → Bool → World → Timeout × World
on_send_ack inner timeout retry w =
    let w' = cancel_timeout timeout (reply_sent retry w) in
    if inner.is_device_item then (none, w') else schedule Schedulable.req_resend inner.resend_ivl w'

unfoldable pub on_send_timeout : World → World
on_send_timeout w = fail timed_out "Send timed out" w

unfoldable pub is_send_ready : Inner → Bool
is_send_ready inner = Priolist.peek inner.lb

unfoldable pub cancel : PendingRequest → World → World
cancel p w = cancel_timeout p.retry_timeout w

unfoldable pub recv : Inner → World → Outcome (Option ℕ × Inner × World)
recv inner w = do
  (from, fq, w') ← fair_recv inner.fq inner.pipes w
  ok (from, record inner { fq = fq }, w')

unfoldable pub recv_reply_from : Inner → ℕ → World → Bool × Inner × World
recv_reply_from inner eid w =
    let inner' = record inner { rv = Ids.remove inner.rv eid } in
    elim (Pipes.get inner.pipes eid) [
      | none ↦ (false, inner', w)
      | some pipe ↦ (true, inner', act (Action.recv pipe.id) w)
    ]

unfoldable pub recv_when_inactive : Timeout → World → World
recv_when_inactive timeout w = cancel_timeout timeout (fail other "Can't recv: no active request" w)

unfoldable pub on_recv_ack : Timeout → Message → Timeout → World → World
on_recv_ack timeout msg retry_timeout w =
    cancel_timeout retry_timeout (cancel_timeout timeout (send_reply (Reply.recv msg) w))

unfoldable pub on_recv_timeout : Timeout → World → World
on_recv_timeout retry_timeout w = cancel_timeout retry_timeout (fail timed_out "Recv timed out" w)

unfoldable pub on_recv_ack_malformed : World → World
on_recv_ack_malformed w = fail invalid_data "Received reply without req id" w

unfoldable pub on_recv_ready : Inner → ℕ → Outcome Inner
on_recv_ready inner eid = do
  fq ← Priolist.activate inner.fq eid
  ok (record inner { fq = fq; rv = Ids.insert inner.rv eid })

unfoldable pub on_recv_not_ready : Inner → ℕ → Outcome Inner
on_recv_not_ready inner eid = do
  fq ← Priolist.deactivate inner.fq eid
  ok (record inner { fq = fq; rv = Ids.remove inner.rv eid })

unfoldable pub is_recv_ready_from : Inner → ℕ → Bool
is_recv_ready_from inner eid = Ids.contains inner.rv eid

unfoldable pub is_recv_ready : Inner → Bool
is_recv_ready inner = Priolist.peek inner.fq

unfoldable pub cur_req_id : Inner → ℕ
cur_req_id inner = bit_or inner.req_id_seq 0x80000000

-- The sequence after `next_req_id`, whose result is then the current identifier.
unfoldable pub advance_req_id : Inner → Inner
advance_req_id inner = record inner { req_id_seq = (inner.req_id_seq + 1) % 2 ^ 32 }

unfoldable pub msg_to_raw_msg : ByteOrder → Inner → Message → Message × Inner
msg_to_raw_msg be inner msg =
    let inner' = advance_req_id inner in
    if inner.is_device_item then (msg, inner) else (encode be msg (cur_req_id inner'), inner')

unfoldable pub raw_msg_to_msg : ByteOrder → Inner → Message → Option (Message × ℕ)
raw_msg_to_msg be inner raw_msg =
    if inner.is_device_item
    then elim (decode be raw_msg) [ none ↦ none | some (msg, _) ↦ some (msg, cur_req_id inner) ]
    else decode be raw_msg

unfoldable pub close : Inner → World → Inner × World
close inner w =
    let (pipes, w') = Pipes.close_all inner.pipes w in (record inner { pipes = pipes }, w')
