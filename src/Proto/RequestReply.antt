-- ===== src/Proto/RequestReply.antt =====
-- src/proto/req.rs with src/proto/rep.rs: the frames that a request socket and a reply socket exchange.
-- A frame goes over the wire as its header and its body, and arrives as a body.
mod Examples
use scaproust.Prelude.{
  ℕ, zero, suc, ◌+◌, ◌*◌, ◌/◌, ◌-◌, ◌%◌, ◌^◌, ◌≡◌, ◌≢◌, ◌≤◌, ◌<◌, ◌↔◌, ◌⊎◌, refl, sym, ap, subst,
  ◌∙◌, inl, inr, Bool, true, false, not, ◌&&◌, ◌||◌, Option, none, some, List, [], ◌∷◌, ◌++◌, map,
  length, take, drop, get_elem?, String, Outcome, ok, panic, ◌>>=◌, arith, ltb, leb, ◌==◌, ==_iff,
  ==_refl, Bool-cases, Option-cases, if◌then◌else◌, length-append,
}
use scaproust.Core.Message.{Message, from_body, from_header_and_body}
use scaproust.Core.Bytes.{ByteOrder, IsByteOrder}
use scaproust.Core.Bits.{bit_or-top, top_bit_set}
use scaproust.Core.Context.{World, Timeout}
use scaproust.Proto.Req.Frame.{encode, decode}
use scaproust.Proto.Req.RoundTrip.{decode-body, take-append_four, drop-append_four}
use scaproust.Proto.Req.Inner as Req
use scaproust.Proto.Rep.Route.{ends_route, trace, next_hop}
use scaproust.Proto.Rep.Inner as Rep

abbrev pub wire : Message → Message
wire msg = from_body (msg.header ++ msg.body)

-- The identifier of a request, from a sequence of 32 bits, has 32 bits of which the top one is set.
pub cur_req_id_bounds :
    (inner : Req.Inner)
    → inner.req_id_seq < 2 ^ 32
    → (2 ^ 31 ≤ Req.cur_req_id inner) × (Req.cur_req_id inner < 2 ^ 32)
unfolding Req.cur_req_id
cur_req_id_bounds inner h = bit_or-top 31 inner.req_id_seq h

ends_route-top : (n : ℕ) → 2 ^ 31 ≤ n → n < 2 ^ 32 → ends_route (n / 2 ^ 24) ≡ true
unfolding ends_route
ends_route-top n lo hi = top_bit_set (n / 2 ^ 24) (omega arith) (omega arith)

-- A body that starts with the identifier of a request is traced in one hop.
trace-request :
    (be : ByteOrder) (hops : ℕ) (header tail : List ℕ) (id : ℕ)
    → IsByteOrder be
    → hops ≢ 0
    → 2 ^ 31 ≤ id
    → id < 2 ^ 32
    → trace hops header (be.write_u32 id ++ tail)
      ≡ some (from_header_and_body (header ++ be.write_u32 id) tail)
unfolding trace
trace-request be zero header tail id laws some_hop lo hi = absurd (some_hop refl)
trace-request be (suc hops) header tail id laws some_hop lo hi =
    rw (laws.bytes-write_u32 id hi, ends_route-top id lo hi) refl

-- The frame that `encode` makes of a request without a header.
encode-wire :
    (be : ByteOrder) (msg : Message) (id : ℕ)
    → msg.header ≡ []
    → wire (encode be msg id) ≡ from_body (be.write_u32 id ++ msg.body)
unfolding encode
encode-wire be msg id empty = rw empty refl

-- What a reply socket keeps of a request that came by an endpoint, and sends its answer with.
next_hop-request :
    (be : ByteOrder) (eid : ℕ) (way body : List ℕ)
    → IsByteOrder be
    → eid < 2 ^ 32
    → next_hop be (be.write_u32 eid ++ way) body ≡ some (from_header_and_body way body, eid)
unfolding next_hop
next_hop-request be eid way body laws bound =
    let four = laws.length-write_u32 eid in
    elim (Bool-cases (ltb (length (be.write_u32 eid ++ way)) 4)) [
      | inl short ↦ absurd (ground (arith, length-append (be.write_u32 eid) way))
      | inr long ↦
          rw
            (
              long,
              take-append_four (be.write_u32 eid) way four,
              drop-append_four (be.write_u32 eid) way four,
              laws.read_u32-write_u32 eid bound,
            )
            refl
    ]

traced :
    (be : ByteOrder) (server : Rep.Inner) (eid id : ℕ) (body : List ℕ)
    → IsByteOrder be
    → server.ttl ≢ 0
    → eid < 2 ^ 32
    → 2 ^ 31 ≤ id
    → id < 2 ^ 32
    → Rep.raw_msg_to_msg be server (from_body (be.write_u32 id ++ body)) eid
      ≡ some (from_header_and_body (be.write_u32 eid ++ be.write_u32 id) body)
unfolding Rep.raw_msg_to_msg from_body
traced be server eid id body laws some_hop small lo hi =
    let e : eid % 2 ^ 32 ≡ eid = omega arith in
    rw e (trace-request be server.ttl (be.write_u32 eid) body id laws some_hop lo hi)

answered :
    (be : ByteOrder) (server : Rep.Inner) (eid id : ℕ) (t : Timeout) (body : List ℕ)
    (answer : Message) (w : World)
    → IsByteOrder be
    → server.is_device_item ≡ false
    → eid < 2 ^ 32
    → Rep.msg_to_raw_msg be
        (Rep.on_recv_ack server t
          (from_header_and_body (be.write_u32 eid ++ be.write_u32 id) body)
          w).0
        answer
      ≡ some (from_header_and_body (be.write_u32 id) answer.body, eid)
unfolding Rep.msg_to_raw_msg Rep.on_recv_ack
answered be server eid id t body answer w laws own small =
    ground (arith, own, next_hop-request be eid (be.write_u32 id) answer.body laws small)

-- Where the sequence has 32 bits, the endpoint's number too, the time to live is not 0, neither
-- socket is plugged into a device and the user's request has no header: the frame of a request is accepted by
-- the reply socket with the request's body; once it is acknowledged there, the frame of any
-- answer goes to the endpoint the request came by; and the requesting socket reads that frame with the
-- answer's body, under the identifier that its request has.
pub request_answered :
    (be : ByteOrder) (client : Req.Inner) (server : Rep.Inner) (request answer : Message) (eid : ℕ)
    (t : Timeout) (w : World)
    → IsByteOrder be
    → client.is_device_item ≡ false
    → server.is_device_item ≡ false
    → client.req_id_seq < 2 ^ 32
    → eid < 2 ^ 32
    → server.ttl ≢ 0
    → request.header ≡ []
    → (asked : Message) × (reply : Message) × (got : Message) × (Rep.raw_msg_to_msg be server
          (wire (Req.msg_to_raw_msg be client request).0)
          eid
        ≡ some asked)
      × (asked.body ≡ request.body)
      × (Rep.msg_to_raw_msg be (Rep.on_recv_ack server t asked w).0 answer ≡ some (reply, eid))
      × (Req.raw_msg_to_msg be (Req.msg_to_raw_msg be client request).1 (wire reply)
          ≡ some (got, Req.cur_req_id (Req.msg_to_raw_msg be client request).1))
      × (got.body ≡ answer.body)
unfolding Req.msg_to_raw_msg Req.raw_msg_to_msg Req.advance_req_id
request_answered be client server request answer eid t w laws c_own s_own seq small hops empty =
    let client' = Req.advance_req_id client in
    let id = Req.cur_req_id client' in
    let (lo, hi) = cur_req_id_bounds client' (omega arith) in
    let asked = from_header_and_body (be.write_u32 eid ++ be.write_u32 id) request.body in
    let reply = from_header_and_body (be.write_u32 id) answer.body in
    let got = from_header_and_body (be.write_u32 id) answer.body in
    (
      asked,
      reply,
      got,
      ground (
        arith,
        c_own,
        encode-wire be request id empty,
        traced be server eid id request.body laws hops small lo hi,
      ),
      refl,
      answered be server eid id t request.body answer w laws s_own small,
      ground (
        arith,
        c_own,
        decode-body be (be.write_u32 id) answer.body (laws.length-write_u32 id),
        laws.read_u32-write_u32 id hi,
      ),
      refl,
    )
