-- ===== src/Transport/Tcp/Reception.antt =====
-- src/transport/tcp/stub.rs: a message is received by a start and the resumptions that follow it.
use scaproust.Prelude.{
  ℕ, ◌≡◌, refl, sym, ap, subst, ◌∙◌, Option, none, some, List, ◌++◌, length, arith, length-append,
}
use scaproust.Core.Message.{Message, len, from_body}
use scaproust.Core.Bytes.{ByteOrder, IsByteOrder}
use scaproust.Transport.Slices.{append_assoc}
use scaproust.Transport.Io.{Ran, success, failure, ReadStream, IsReadStream}
use scaproust.Transport.Tcp.Recv as Recv
use scaproust.Transport.Tcp.Recv.{RecvOperation, header, zeroes}
use scaproust.Transport.Tcp.Received.{Fits, length-zeroes}
use scaproust.Transport.Tcp.Arrival.{IsAwaiting, Arrival, whole, partial, broken, run-Arrival}
use scaproust.Transport.Tcp.Remaining.{frame}
use scaproust.Transport.Tcp.Stub.{
  TcpPipeStub, start_recv, resume_recv, run_recv_operation, keep_recv,
}

-- From one state of a pipe to another, a message is received, to its end or in part. Between two
-- runs the pipe may do all else.
pub data Receives {S : Type 0} (stream : ReadStream S) (be : ByteOrder) (p : TcpPipeStub S)
    : Option Message → TcpPipeStub S → Type 0 where
  started :
      (m : Option Message) (q : TcpPipeStub S)
      → start_recv stream be p ≡ success m q
      → Receives stream be p m q
  resumed :
      (m : Option Message) (q r : TcpPipeStub S)
      → Receives stream be p none q
      → resume_recv stream be q ≡ success m r
      → Receives stream be p m r
  meanwhile :
      (q r : TcpPipeStub S)
      → Receives stream be p none q
      → stream.pending r.stream ≡ stream.pending q.stream
      → r.recv_operation ≡ q.recv_operation
      → Receives stream be p none r

-- The whole message, or an operation that waits for the rest of it.
pub data Got {S : Type 0} (be : ByteOrder) (stream : ReadStream S) (bs rest : List ℕ)
    : Option Message → TcpPipeStub S → Type 0 where
  all :
      (q : TcpPipeStub S)
      → stream.pending q.stream ≡ rest
      → Got be stream bs rest (some (from_body bs)) q
  part :
      (operation : RecvOperation) (q : TcpPipeStub S)
      → q.recv_operation ≡ some operation
      → IsAwaiting be bs rest (stream.pending q.stream) operation
      → Got be stream bs rest none q

-- The frame of a message, as the receiver sees it.
pub seen :
    (be : ByteOrder) (msg : Message) (rest : List ℕ)
    → frame be msg ++ rest
      ≡ be.write_u64 (length (msg.header ++ msg.body)) ++ ((msg.header ++ msg.body) ++ rest)
unfolding len
seen be msg rest =
    ap (λ n. (be.write_u64 n ++ (msg.header ++ msg.body)) ++ rest)
      (sym (length-append msg.header msg.body))
    ∙ append_assoc (be.write_u64 (length (msg.header ++ msg.body))) (msg.header ++ msg.body) rest

module _ {S : Type 0} (be : ByteOrder) (stream : ReadStream S) (bs rest : List ℕ) where
  -- A result, of which `Got` says what it is, or an error after which nothing is pending.
  unfoldable pub GotOrNot : Ran (TcpPipeStub S) (Option Message) → Type 0
  GotOrNot (success m q) = Got be stream bs rest m q
  GotOrNot (failure e q) = q.recv_operation ≡ none
  GotOrNot _ = ⊥

  keep_recv-Got :
      (q : TcpPipeStub S) (x : Ran (RecvOperation × S) (Option Message))
      → q.recv_operation ≡ none
      → Arrival be stream bs rest x
      → GotOrNot (keep_recv q x)
  unfolding keep_recv GotOrNot
  keep_recv-Got q _ idle (whole operation s end e) = all (record q { stream = s }) e
  keep_recv-Got q _ idle (partial operation s v) =
      part operation (record q { stream = s; recv_operation = some operation }) refl v
  keep_recv-Got q _ idle (broken e operation s end) = idle

  module _ (order : IsByteOrder be) (laws : IsReadStream stream) where
    pub resume_recv-Got :
        (q : TcpPipeStub S) → Got be stream bs rest none q → GotOrNot (resume_recv stream be q)
    unfolding resume_recv run_recv_operation
    resume_recv-Got _ (part operation q e v) =
        rw (e, resume_recv)
          (keep_recv-Got (record q { recv_operation = none }) _ refl
            (run-Arrival be stream bs rest order laws operation q.stream v))

    new-IsAwaiting :
        (p : TcpPipeStub S)
        → Fits p.recv_max_size (length bs)
        → stream.pending p.stream ≡ be.write_u64 (length bs) ++ (bs ++ rest)
        → IsAwaiting be bs rest (stream.pending p.stream) (Recv.new p.recv_max_size)
    unfolding Recv.new
    new-IsAwaiting p fits e = record {
      at = header (zeroes 8) 0 p.recv_max_size;
      there = refl;
      open_still = tt;
      has_read = (length-zeroes 8, omega arith, fits, e);
    }

    start_recv-Got :
        (p : TcpPipeStub S)
        → p.recv_operation ≡ none
        → Fits p.recv_max_size (length bs)
        → stream.pending p.stream ≡ be.write_u64 (length bs) ++ (bs ++ rest)
        → GotOrNot (start_recv stream be p)
    unfolding start_recv run_recv_operation
    start_recv-Got p idle fits e = keep_recv-Got p _ idle (
        run-Arrival be stream bs rest order laws (Recv.new p.recv_max_size) p.stream
          (new-IsAwaiting p fits e))

    pub Receives-Got :
        (p : TcpPipeStub S) (m : Option Message) (q : TcpPipeStub S)
        → p.recv_operation ≡ none
        → Fits p.recv_max_size (length bs)
        → stream.pending p.stream ≡ be.write_u64 (length bs) ++ (bs ++ rest)
        → Receives stream be p m q
        → Got be stream bs rest m q
    unfolding GotOrNot
    Receives-Got p _ _ idle fits e (started m q f) = subst GotOrNot f (start_recv-Got p idle fits e)
    Receives-Got p _ _ idle fits e (resumed m q r before f) =
        subst GotOrNot f (resume_recv-Got q (Receives-Got p none q idle fits e before))
    Receives-Got p _ _ idle fits e (meanwhile q r before same kept) =
        again q r (Receives-Got p none q idle fits e before) same kept
      where
        again :
            (q r : TcpPipeStub S)
            → Got be stream bs rest none q
            → stream.pending r.stream ≡ stream.pending q.stream
            → r.recv_operation ≡ q.recv_operation
            → Got be stream bs rest none r
        again _ r (part operation q f v) same kept =
            part operation r (kept ∙ f)
              (subst (λ bytes. IsAwaiting be bs rest bytes operation) (sym same) v)
