-- ===== src/Transport/Tcp/Framing.antt =====
-- src/transport/tcp/stub.rs: what the stream has taken of a message at each point of its sending.
use scaproust.Prelude.{
  ℕ, ◌≡◌, ◌≤◌, ◌<◌, ◌⊎◌, refl, inl, inr, Bool, true, false, not, none, ◌++◌, length, take,
}
use scaproust.Core.Message.{Message}
use scaproust.Core.Bytes.{ByteOrder, IsByteOrder}
use scaproust.Core.Context.{IoError}
use scaproust.Transport.Io.{Ran, success, failure, WriteStream, IsWriteStream, Failed}
use scaproust.Transport.Tcp.Remaining.{frame}
use scaproust.Transport.Tcp.Progress.{Progress}
use scaproust.Transport.Tcp.Stub.{TcpPipeStub, has_pending_send}
use scaproust.Transport.Tcp.Delivery.{Sends, Far, over, under_way, Sends-Far}

-- A result, with an operation that is pending where it is not final, or an error with which the stream
-- has failed in this run, other than that it would block: then it has taken nothing, and nothing is
-- pending any more.
abbrev pub Returns :
    {S : Type 0} → WriteStream S → TcpPipeStub S → Ran (TcpPipeStub S) Bool → Type 0
Returns stream q x =
    ((done : Bool) × (r : _) × (x ≡ success done r) × (has_pending_send r ≡ not done))
    ⊎ ((e : IoError) × (r : _) × (x ≡ failure e r)
        × Failed stream q.stream e r.stream
        × (stream.sent r.stream ≡ stream.sent q.stream)
        × (r.send_operation ≡ none))

module _ {S : Type 0} (be : ByteOrder) (stream : WriteStream S) (order : IsByteOrder be)
    (laws : IsWriteStream stream) (msg : Message) (p : TcpPipeStub S) where
  -- At each point of the sending of a message the stream has taken a prefix of its frame after what it
  -- had taken before: the whole frame where the message has been sent, a part of it before.
  pub Sends-frame :
      (takes : ℕ) (done : Bool) (q : TcpPipeStub S)
      → Sends stream be msg p takes done q
      → ((done ≡ true) × (stream.sent q.stream ≡ stream.sent p.stream ++ frame be msg))
        ⊎ ((done ≡ false)
            × ((n : ℕ) × (n < length (frame be msg))
                × (stream.sent q.stream ≡ stream.sent p.stream ++ take n (frame be msg))))
  Sends-frame takes done q h = go takes done q (Sends-Far be stream order laws msg p takes done q h)
    where
      go :
          (takes : ℕ) (done : Bool) (q : TcpPipeStub S)
          → (n : ℕ) × (takes ≤ n) × Far be stream p (frame be msg) n done q
          → ((done ≡ true) × (stream.sent q.stream ≡ stream.sent p.stream ++ frame be msg))
            ⊎ ((done ≡ false)
                × ((n : ℕ) × (n < length (frame be msg))
                    × (stream.sent q.stream ≡ stream.sent p.stream ++ take n (frame be msg))))
      go takes _ _ (_, h, over q e) = inl (refl, e)
      go takes _ _ (_, h, under_way n operation q room e f v) = inr (refl, (n, room, e))
