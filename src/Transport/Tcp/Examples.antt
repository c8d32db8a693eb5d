-- ===== src/Transport/Tcp/Examples.antt =====
-- Streams that take and give at most six bytes at a time, and a message of one byte of header and one
-- of body that goes over them.
use scaproust.Prelude.{
  ℕ, ◌^◌, ◌≡◌, ◌≤◌, ◌<◌, ◌⊎◌, refl, sym, inr, true, false, Option, none, some, List, [], ◌∷◌, ◌++◌,
  length, take, drop, arith, length-take,
}
use Prim.Native.Nat.{min}
use scaproust.Core.Message.{Message, len, from_body}
use scaproust.Core.Context.{IoError, invalid_data}
use scaproust.Transport.Slices.{take-drop}
use scaproust.Transport.Io.{
  success, failure, panicked, WriteStream, IsWriteStream, took, concat, ReadStream, IsReadStream,
  gave, slice_from,
}
use scaproust.Transport.Tcp.Send as Send
use scaproust.Transport.Tcp.Send.{transport_hdr}
use scaproust.Transport.Tcp.Recv as Recv
use scaproust.Transport.Tcp.Recv.{header, payload, after_header}
use scaproust.Transport.Tcp.Received.{Fits}
use scaproust.Transport.Tcp.Remaining.{frame}
use scaproust.Transport.Tcp.Stub.{
  TcpPipeStub, start_send, resume_send, run_send_operation, keep_send, start_recv, resume_recv,
  run_recv_operation, keep_recv, has_pending_recv,
}
use scaproust.Transport.Tcp.Delivery.{Sends}
use scaproust.Transport.Tcp.Framing.{Sends-frame}
use scaproust.Transport.Tcp.Reception.{Receives}
use scaproust.Transport.Tcp.RoundTrip.{
  Receives-frame, resume_recv_returns, Sends-Receives, after_header-cases,
}
use scaproust.Proto.Fixtures.{big_endian, big_endian-IsByteOrder}

abbrev out : WriteStream (List ℕ)
out = record {
  write = λ buffer s. success (min 6 (length buffer)) (s ++ take (min 6 (length buffer)) buffer);
  write_bufs = λ buffers s.
      success (min 6 (length (concat buffers)))
        (s ++ take (min 6 (length (concat buffers))) (concat buffers));
  sent = λ s. s;
}

out-IsWriteStream : IsWriteStream out
out-IsWriteStream = record {
  write-Took = λ buffer s. took (min 6 (length buffer)) _ (omega arith) refl;
  write_bufs-Took = λ buffers s. took (min 6 (length (concat buffers))) _ (omega arith) refl;
}

abbrev input : ReadStream (List ℕ)
input = record {
  read = λ room s. success (take (min 6 room) s) (drop (min 6 room) s);
  pending = λ s. s;
}

input-IsReadStream : IsReadStream input
input-IsReadStream = record {
  read-Gave = λ room s.
      gave (take (min 6 room) s) (drop (min 6 room) s) (omega (arith, length-take (min 6 room) s))
        (sym (take-drop (min 6 room) s));
}

abbrev msg : Message
msg = record { header = 7 ∷ []; body = 9 ∷ [] }

abbrev fresh : TcpPipeStub (List ℕ)
fresh = record { stream = []; recv_max_size = 0; send_operation = none; recv_operation = none }

-- Six bytes of the length have been taken.
abbrev begun : TcpPipeStub (List ℕ)
begun = record fresh {
  stream = 0 ∷ 0 ∷ 0 ∷ 0 ∷ 0 ∷ 0 ∷ [];
  send_operation = some (record { step = some (transport_hdr msg 6) });
}

abbrev wire : List ℕ
wire = 0 ∷ 0 ∷ 0 ∷ 0 ∷ 0 ∷ 0 ∷ 0 ∷ 2 ∷ 7 ∷ 9 ∷ []

abbrev over : TcpPipeStub (List ℕ)
over = record fresh { stream = wire }

starts : start_send out big_endian msg fresh ≡ success false begun
unfolding start_send run_send_operation keep_send Send.new Send.run Send.resume_at Send.next_round
    Send.advance Send.write_transport_hdr slice_from Send.write_frame Send.write_buffers
    Send.flatten_would_block Send.after_transport_hdr Send.is_terminal len
starts = refl

ends : resume_send out big_endian begun ≡ success true over
unfolding resume_send run_send_operation keep_send Send.run Send.resume_at Send.next_round
    Send.advance Send.write_transport_hdr slice_from Send.write_frame Send.write_buffers
    Send.flatten_would_block Send.after_transport_hdr Send.is_terminal len
ends = refl

under_way : Sends out big_endian msg fresh 0 false begun
under_way = Sends.started false begun starts

sends : Sends out big_endian msg fresh 1 true over
sends = Sends.resumed 0 true begun over under_way ends (omega arith)

abbrev idle : TcpPipeStub (List ℕ)
idle = record fresh { stream = wire; recv_max_size = 16 }

abbrev half : TcpPipeStub (List ℕ)
half = record idle {
  stream = 0 ∷ 2 ∷ 7 ∷ 9 ∷ [];
  recv_operation = some (record { step = some (header (0 ∷ 0 ∷ 0 ∷ 0 ∷ 0 ∷ 0 ∷ 0 ∷ 0 ∷ []) 6 16) });
}

abbrev got : TcpPipeStub (List ℕ)
got = record idle { stream = [] }

waits : start_recv input big_endian idle ≡ success none half
unfolding start_recv run_recv_operation keep_recv Recv.new Recv.run Recv.resume_at Recv.next_round
    Recv.advance Recv.read_header Recv.read_into Recv.nothing_yet Recv.after_header
waits = refl

arrives : resume_recv input big_endian half ≡ success (some (from_body (7 ∷ 9 ∷ []))) got
unfolding resume_recv run_recv_operation keep_recv Recv.run Recv.resume_at Recv.next_round
    Recv.advance Recv.read_header Recv.read_into Recv.nothing_yet Recv.after_header Recv.allocate
    Recv.read_payload Recv.after_payload
arrives = refl

receiving : Receives input big_endian idle none half
receiving = Receives.started none half waits

receives : Receives input big_endian idle (some (from_body (7 ∷ 9 ∷ []))) got
receives = Receives.resumed _ half got receiving arrives

fits : Fits 16 (len msg)
unfolding len
fits = record { allowed = inr (omega arith); small = omega arith }

Sends-frame_example :
    ((true ≡ true) × (over.stream ≡ fresh.stream ++ frame big_endian msg))
    ⊎ ((true ≡ false)
        × ((n : ℕ) × (n < length (frame big_endian msg))
            × (over.stream ≡ fresh.stream ++ take n (frame big_endian msg))))
Sends-frame_example =
    Sends-frame big_endian out big_endian-IsByteOrder out-IsWriteStream msg fresh 1 true over sends

Receives-frame_example :
    ((some (from_body (7 ∷ 9 ∷ [])) ≡ some (from_body (msg.header ++ msg.body)))
      × (got.stream ≡ []))
    ⊎ ((some (from_body (7 ∷ 9 ∷ [])) ≡ none) × (has_pending_recv got ≡ true))
unfolding len
Receives-frame_example =
    Receives-frame big_endian input big_endian-IsByteOrder input-IsReadStream msg [] idle
      (some (from_body (7 ∷ 9 ∷ []))) got refl fits refl receives

resume_recv_returns_example :
    ((m : Option Message) × (r : TcpPipeStub (List ℕ)) × (resume_recv input big_endian half
        ≡ success m r))
    ⊎ ((e : IoError) × (r : TcpPipeStub (List ℕ)) × (resume_recv input big_endian half
          ≡ failure e r)
        × (r.recv_operation ≡ none))
unfolding len
resume_recv_returns_example =
    resume_recv_returns big_endian input big_endian-IsByteOrder input-IsReadStream msg [] idle half
      refl fits refl receiving

Sends-Receives_example :
    (from_body (7 ∷ 9 ∷ []) ≡ from_body (msg.header ++ msg.body)) × (got.stream ≡ [])
Sends-Receives_example =
    Sends-Receives big_endian out input big_endian-IsByteOrder out-IsWriteStream input-IsReadStream
      msg (from_body (7 ∷ 9 ∷ [])) fresh over idle got 1 [] sends refl fits refl receives

-- A length with its top bit set, and a limit.
abbrev long : List ℕ
long = 128 ∷ 0 ∷ 0 ∷ 0 ∷ 0 ∷ 0 ∷ 0 ∷ 0 ∷ []

abbrev limit : ℕ
limit = 16

after_header-cases_example :
    ((0 < limit)
      × (limit < big_endian.read_u64 long)
      × (after_header big_endian long 8 limit idle
          ≡ failure (record { kind = invalid_data; text = "message is too long" }) idle))
    ⊎ (((limit ≡ 0) ⊎ (big_endian.read_u64 long ≤ limit))
        × (((2 ^ 63 ≤ big_endian.read_u64 long)
              × (after_header big_endian long 8 limit idle ≡ panicked))
            ⊎ ((big_endian.read_u64 long < 2 ^ 63)
                × ((body : List ℕ) × (length body ≡ big_endian.read_u64 long)
                    × (after_header big_endian long 8 limit idle
                        ≡ success (true, payload body 0) idle)))))
after_header-cases_example = after_header-cases big_endian long limit idle
