-- ===== src/Transport/Tcp/RoundTrip.antt =====
-- src/transport/tcp: what is sent over one stream and received from another.
use scaproust.Prelude.{
  ℕ, ◌^◌, ◌≡◌, ◌≤◌, ◌<◌, ◌⊎◌, refl, sym, subst, ◌∙◌, inl, inr, true, ◌&&◌, Option, none, some, List,
  ◌++◌, length, drop, arith, ltb, leb, Bool-cases, length-append, drop-append,
}
use scaproust.Core.Message.{Message, len, from_body}
use scaproust.Core.Bytes.{ByteOrder, IsByteOrder}
use scaproust.Core.Context.{IoError, invalid_data}
use scaproust.Transport.Io.{
  Ran, success, failure, panicked, out_of_fuel, WriteStream, IsWriteStream, ReadStream,
  IsReadStream,
}
use scaproust.Transport.Tcp.Recv.{payload, zeroes, allocate, after_header}
use scaproust.Transport.Tcp.Received.{Fits, length-zeroes}
use scaproust.Transport.Tcp.Remaining.{frame}
use scaproust.Transport.Tcp.Stub.{TcpPipeStub, resume_recv, has_pending_recv}
use scaproust.Transport.Tcp.Delivery.{Sends}
use scaproust.Transport.Tcp.Framing.{Sends-frame}
use scaproust.Transport.Tcp.Reception.{
  Receives, Got, all, part, seen, GotOrNot, resume_recv-Got, Receives-Got,
}

module _ {S : Type 0} (be : ByteOrder) (stream : ReadStream S) (order : IsByteOrder be)
    (laws : IsReadStream stream) where
  received :
      (msg : Message) (rest : List ℕ) (p : TcpPipeStub S) (m : Option Message) (q : TcpPipeStub S)
      → p.recv_operation ≡ none
      → Fits p.recv_max_size (len msg)
      → stream.pending p.stream ≡ frame be msg ++ rest
      → Receives stream be p m q
      → Got be stream (msg.header ++ msg.body) rest m q
  unfolding len
  received msg rest p m q idle fits e h =
      let size = length-append msg.header msg.body in
      Receives-Got be stream (msg.header ++ msg.body) rest order laws p m q idle
        (subst (Fits p.recv_max_size) (sym size) fits) (e ∙ seen be msg rest) h

  -- Where a frame of a length that fits comes first on the stream and nothing is being received, at each
  -- point of the receiving there is the message whose body is the frame's header and body, all of its
  -- frame taken from the stream and no more, or none yet, and the operation is pending.
  pub Receives-frame :
      (msg : Message) (rest : List ℕ) (p : TcpPipeStub S) (m : Option Message) (q : TcpPipeStub S)
      → p.recv_operation ≡ none
      → Fits p.recv_max_size (len msg)
      → stream.pending p.stream ≡ frame be msg ++ rest
      → Receives stream be p m q
      → ((m ≡ some (from_body (msg.header ++ msg.body))) × (stream.pending q.stream ≡ rest))
        ⊎ ((m ≡ none) × (has_pending_recv q ≡ true))
  unfolding has_pending_recv
  Receives-frame msg rest p m q idle fits e h = go m q (received msg rest p m q idle fits e h)
    where
      go :
          (m : Option Message) (q : TcpPipeStub S)
          → Got be stream (msg.header ++ msg.body) rest m q
          → ((m ≡ some (from_body (msg.header ++ msg.body))) × (stream.pending q.stream ≡ rest))
            ⊎ ((m ≡ none) × (has_pending_recv q ≡ true))
      go _ _ (all q f) = inl (refl, f)
      go _ _ (part operation q f v) = inr (refl, rw f refl)

  -- While such a frame is being received, a resumption returns: it gives a result, or an error after
  -- which nothing is pending.
  pub resume_recv_returns :
      (msg : Message) (rest : List ℕ) (p q : TcpPipeStub S)
      → p.recv_operation ≡ none
      → Fits p.recv_max_size (len msg)
      → stream.pending p.stream ≡ frame be msg ++ rest
      → Receives stream be p none q
      → ((m : Option Message) × (r : TcpPipeStub S) × (resume_recv stream be q ≡ success m r))
        ⊎ ((e : IoError) × (r : TcpPipeStub S) × (resume_recv stream be q ≡ failure e r)
            × (r.recv_operation ≡ none))
  unfolding GotOrNot
  resume_recv_returns msg rest p q idle fits e h = go (resume_recv stream be q) refl (
      resume_recv-Got be stream (msg.header ++ msg.body) rest order laws q
        (received msg rest p none q idle fits e h))
    where
      go :
          (x : Ran (TcpPipeStub S) (Option Message))
          → resume_recv stream be q ≡ x
          → GotOrNot be stream (msg.header ++ msg.body) rest x
          → ((m : Option Message) × (r : TcpPipeStub S) × (resume_recv stream be q ≡ success m r))
            ⊎ ((e : IoError) × (r : TcpPipeStub S) × (resume_recv stream be q ≡ failure e r)
                × (r.recv_operation ≡ none))
      go (success m r) f got = inl (m, r, f)
      go (failure err r) f none_left = inr (err, r, f, none_left)
      go panicked f got = elim got [ ]
      go out_of_fuel f got = elim got [ ]

-- A message that has been sent is received: where what the sender's stream has taken since the sending began
-- comes first on the receiver's stream, the message's length fits there and nothing is being
-- received, a message that is received has the header and the body that were sent as its
-- body, and what follows is left on the stream.
pub Sends-Receives :
    {S T : Type 0} (be : ByteOrder) (out : WriteStream S) (input : ReadStream T)
    → IsByteOrder be
    → IsWriteStream out
    → IsReadStream input
    → (msg got : Message) (p q : TcpPipeStub S) (u v : TcpPipeStub T) (takes : ℕ) (rest : List ℕ)
    → Sends out be msg p takes true q
    → u.recv_operation ≡ none
    → Fits u.recv_max_size (len msg)
    → input.pending u.stream ≡ drop (length (out.sent p.stream)) (out.sent q.stream) ++ rest
    → Receives input be u (some got) v
    → (got ≡ from_body (msg.header ++ msg.body)) × (input.pending v.stream ≡ rest)
Sends-Receives be out input order w_laws r_laws msg got p q u v takes rest sends idle fits e
      receives =
    let onto : out.sent q.stream ≡ out.sent p.stream ++ frame be msg =
      elim (Sends-frame be out order w_laws msg p takes true q sends) [
        | inl (_, f) ↦ f
        | inr (f, _) ↦ absurd (cc f)
      ] in
    let left : drop (length (out.sent p.stream)) (out.sent q.stream) ≡ frame be msg =
      rw onto (drop-append (out.sent p.stream) (frame be msg)) in
    elim (Receives-frame be input order r_laws msg rest u (some got) v idle fits (rw left at e)
      receives) [ inl (same, f) ↦ (some_inj same, f) | inr (f, _) ↦ absurd (cc f) ]
  where
    some_inj : {a b : Message} → some a ≡ some b → a ≡ b
    some_inj q = cc q

-- When the eight bytes of a length are there: above the limit, where there is one, the operation
-- fails; else a payload of that length is awaited, but the code panics where the length is above the
-- greatest that a vector can have.
pub after_header-cases :
    {S : Type 0} (be : ByteOrder) (buffer : List ℕ) (max_size : ℕ) (s : S)
    → ((0 < max_size)
        × (max_size < be.read_u64 buffer)
        × (after_header be buffer 8 max_size s
            ≡ failure (record { kind = invalid_data; text = "message is too long" }) s))
      ⊎ (((max_size ≡ 0) ⊎ (be.read_u64 buffer ≤ max_size))
          × (((2 ^ 63 ≤ be.read_u64 buffer) × (after_header be buffer 8 max_size s ≡ panicked))
              ⊎ ((be.read_u64 buffer < 2 ^ 63)
                  × ((body : List ℕ) × (length body ≡ be.read_u64 buffer)
                      × (after_header be buffer 8 max_size s ≡ success (true, payload body 0) s)))))
unfolding after_header allocate
after_header-cases be buffer max_size s =
    elim (Bool-cases (ltb 0 max_size && ltb max_size (be.read_u64 buffer))) [
      | inl over ↦ inl (ground arith, ground arith, rw over refl)
      | inr under ↦ inr (
        ground arith,
        elim (Bool-cases (leb (2 ^ 63) (be.read_u64 buffer))) [
          | inl huge ↦ inl (ground arith, rw (under, huge) refl)
          | inr fine ↦ inr (
            ground arith,
            (
              zeroes (be.read_u64 buffer),
              length-zeroes (be.read_u64 buffer),
              rw (under, fine) refl,
            ),
          )
        ],
      )
    ]
