-- ===== src/Transport/Tcp/Ending.antt =====
-- src/transport/tcp/stub.rs: a message that is resumed on a stream that is ready is sent in the end.
use scaproust.Prelude.{ℕ, zero, suc, ◌≡◌, ◌<◌, Bool, true, false, length}
use scaproust.Core.Message.{Message}
use scaproust.Core.Bytes.{ByteOrder}
use scaproust.Transport.Io.{Ran, success, and_then, Io, WriteStream}
use scaproust.Transport.Tcp.Send as Send
use scaproust.Transport.Tcp.Progress.{Progress}
use scaproust.Transport.Tcp.Stub.{TcpPipeStub, resume_send}

-- A run on a ready stream gives a result, and the stream has more afterwards.
abbrev Grew : {S : Type 0} → WriteStream S → TcpPipeStub S → Ran (TcpPipeStub S) Bool → Type 0
Grew stream q x =
    (done : Bool) × (r : _) × (x ≡ success done r)
    × (length (stream.sent q.stream) < length (stream.sent r.stream))

-- A send that is resumed until it is done, `n` times at most.
unfoldable pub resume_until_done :
    {S : Type 0} → WriteStream S → ByteOrder → ℕ → Bool → Io (TcpPipeStub S) Bool
resume_until_done stream be n true q = success true q
resume_until_done stream be zero false q = success false q
resume_until_done stream be (suc n) false q =
    and_then (resume_send stream be q) (resume_until_done stream be n)
