-- ===== src/Proto/RequestReply/Examples.antt =====
-- A request socket and a reply socket of which endpoint 2 leads to the other.
use scaproust.Prelude.{◌≡◌, refl, false, none, some, [], ◌∷◌, arith}
use scaproust.Core.Message.{Message, from_body}
use scaproust.Proto.Req.Inner as Req
use scaproust.Proto.Rep.Inner as Rep
use scaproust.Proto.RequestReply.{wire, request_answered}
use scaproust.Proto.Fixtures.{
  ready_list, ready_pipes, hello, world, big_endian, big_endian-IsByteOrder,
}

abbrev client : Req.Inner
client = record {
  pipes = ready_pipes;
  lb = ready_list;
  fq = ready_list;
  rv = [];
  req_id_seq = 4294967295;
  is_device_item = false;
  resend_ivl = 60_000;
}

abbrev server : Rep.Inner
server = record {
  pipes = ready_pipes;
  fq = ready_list;
  sd = 2 ∷ [];
  ttl = 8;
  backtrace = [];
  is_device_item = false;
}

abbrev answer : Message
answer = from_body (111 ∷ 107 ∷ [])

request_answered_example :
    (asked : Message) × (reply : Message) × (got : Message) × (Rep.raw_msg_to_msg big_endian server
        (wire (Req.msg_to_raw_msg big_endian client hello).0)
        2
      ≡ some asked)
    × (asked.body ≡ hello.body)
    × (Rep.msg_to_raw_msg big_endian (Rep.on_recv_ack server none asked world).0 answer
        ≡ some (reply, 2))
    × (Req.raw_msg_to_msg big_endian (Req.msg_to_raw_msg big_endian client hello).1 (wire reply)
        ≡ some (got, Req.cur_req_id (Req.msg_to_raw_msg big_endian client hello).1))
    × (got.body ≡ answer.body)
request_answered_example =
    request_answered big_endian client server hello answer 2 none world big_endian-IsByteOrder refl
      refl (omega arith) (omega arith) (λ e. omega (arith, e)) refl
