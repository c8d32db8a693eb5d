-- ===== src/Transport/Tcp/Pipe.antt =====
-- src/transport/tcp/stub.rs as an AsyncPipeStub, the interface that the asynchronous pipe works on.
use scaproust.Prelude.{
  ℕ, ◌≡◌, refl, subst, inl, inr, Bool, true, false, not, Option, none, some, Option-cases,
}
use scaproust.Core.Message.{Message}
use scaproust.Core.Bytes.{ByteOrder}
use scaproust.Transport.Io.{
  Ran, success, failure, panicked, out_of_fuel, Io, WriteStream, ReadStream,
}
use scaproust.Transport.Tcp.Send as Send
use scaproust.Transport.Tcp.Send.{SendOperation}
use scaproust.Transport.Tcp.Recv as Recv
use scaproust.Transport.Tcp.Recv.{RecvOperation}
use scaproust.Transport.Tcp.Stub as Stub
use scaproust.Transport.Tcp.Stub.{
  TcpPipeStub, keep_send, keep_recv, run_send_operation, run_recv_operation,
}
use scaproust.Transport.Async.Stub.{
  AsyncPipeStub, send_and_check_handshake, recv_and_check_handshake,
}
use scaproust.Transport.Async.History.{IsAsyncPipeStub}

-- `&mut self.stream`
unfoldable pub on_stream : {S A : Type 0} → TcpPipeStub S → Ran S A → Ran (TcpPipeStub S) A
on_stream p (success x s) = success x (record p { stream = s })
on_stream p (failure e s) = failure e (record p { stream = s })
on_stream p panicked = panicked
on_stream p out_of_fuel = out_of_fuel

module _ {S : Type 0} (out : WriteStream S) (input : ReadStream S) (be : ByteOrder) where
  unfoldable pub send_handshake : ℕ × ℕ → Io (TcpPipeStub S) (Unit {0})
  send_handshake pids p = on_stream p (send_and_check_handshake out be pids p.stream)

  unfoldable pub recv_handshake : ℕ × ℕ → Io (TcpPipeStub S) (Unit {0})
  recv_handshake pids p = on_stream p (recv_and_check_handshake input be pids p.stream)

  abbrev pub tcp_pipe : AsyncPipeStub (TcpPipeStub S)
  tcp_pipe = record {
    start_send = Stub.start_send out be;
    resume_send = Stub.resume_send out be;
    has_pending_send = Stub.has_pending_send;
    start_recv = Stub.start_recv input be;
    resume_recv = Stub.resume_recv input be;
    has_pending_recv = Stub.has_pending_recv;
    send_handshake = send_handshake;
    recv_handshake = recv_handshake;
  }

-- What the results say of the operation that is kept.
module _ {S : Type 0} where
  PendingIs : (Bool → Bool) → Ran (TcpPipeStub S) Bool → Type 0
  PendingIs f (success done p) = Stub.has_pending_send p ≡ f done
  PendingIs f _ = Unit {0}

  PendingStays : {A : Type 0} → Bool → Ran (TcpPipeStub S) A → Type 0
  PendingStays b (success _ p) = Stub.has_pending_send p ≡ b
  PendingStays b _ = Unit {0}

  keep_send-PendingIs :
      (p : TcpPipeStub S) (r : Ran (SendOperation × S) Bool)
      → Stub.has_pending_send p ≡ false
      → PendingIs not (keep_send p r)
  unfolding keep_send PendingIs Stub.has_pending_send
  keep_send-PendingIs p (success true (operation, s)) idle = idle
  keep_send-PendingIs p (success false (operation, s)) idle = refl
  keep_send-PendingIs p (failure e (operation, s)) idle = tt
  keep_send-PendingIs p panicked idle = tt
  keep_send-PendingIs p out_of_fuel idle = tt

  keep_recv-PendingStays :
      (p : TcpPipeStub S) (r : Ran (RecvOperation × S) (Option Message))
      → PendingStays (Stub.has_pending_send p) (keep_recv p r)
  unfolding keep_recv PendingStays Stub.has_pending_send
  keep_recv-PendingStays p (success (some msg) (operation, s)) = refl
  keep_recv-PendingStays p (success none (operation, s)) = refl
  keep_recv-PendingStays p (failure e (operation, s)) = tt
  keep_recv-PendingStays p panicked = tt
  keep_recv-PendingStays p out_of_fuel = tt

  on_stream-PendingStays :
      {A : Type 0} (p : TcpPipeStub S) (r : Ran S A)
      → PendingStays (Stub.has_pending_send p) (on_stream p r)
  unfolding on_stream PendingStays Stub.has_pending_send
  on_stream-PendingStays p (success x s) = refl
  on_stream-PendingStays p (failure e s) = tt
  on_stream-PendingStays p panicked = tt
  on_stream-PendingStays p out_of_fuel = tt

  resume_send-PendingIs :
      (out : WriteStream S) (be : ByteOrder) (p : TcpPipeStub S)
      → PendingIs not (Stub.resume_send out be p)
  unfolding Stub.resume_send run_send_operation PendingIs Stub.has_pending_send
  resume_send-PendingIs out be p = elim (Option-cases p.send_operation) [
    | inl empty ↦ rw (empty, Stub.resume_send) tt
    | inr (operation, there) ↦
        rw (there, Stub.resume_send)
          (keep_send-PendingIs (record p { send_operation = none })
            (Send.run out be (operation, p.stream)) refl)
  ]

  resume_recv-PendingStays :
      (input : ReadStream S) (be : ByteOrder) (p : TcpPipeStub S)
      → PendingStays (Stub.has_pending_send p) (Stub.resume_recv input be p)
  unfolding Stub.resume_recv run_recv_operation PendingStays Stub.has_pending_send
  resume_recv-PendingStays input be p = elim (Option-cases p.recv_operation) [
    | inl empty ↦ rw (empty, Stub.resume_recv) tt
    | inr (operation, there) ↦
        rw (there, Stub.resume_recv)
          (keep_recv-PendingStays (record p { recv_operation = none })
            (Recv.run input be (operation, p.stream)))
  ]

-- A TCP pipe keeps the contract of the asynchronous pipe, whatever its streams do: a message is pending
-- just if the last run of its operation has not ended it, and receiving and the handshake do not change
-- that.
pub tcp_pipe-IsAsyncPipeStub :
    {S : Type 0} (out : WriteStream S) (input : ReadStream S) (be : ByteOrder)
    → IsAsyncPipeStub (tcp_pipe out input be)
unfolding PendingIs PendingStays Stub.start_send run_send_operation Stub.start_recv
    run_recv_operation send_handshake recv_handshake
tcp_pipe-IsAsyncPipeStub out input be = record {
  start_send-pending = λ msg p p' done idle e.
      subst (PendingIs not) e
        (keep_send-PendingIs p (Send.run out be (Send.new msg, p.stream)) idle);
  resume_send-pending = λ p p' done e. subst (PendingIs not) e (resume_send-PendingIs out be p);
  start_recv-pending = λ p p' m e.
      subst (PendingStays (Stub.has_pending_send p)) e
        (keep_recv-PendingStays p (Recv.run input be (Recv.new p.recv_max_size, p.stream)));
  resume_recv-pending = λ p p' m e.
      subst (PendingStays (Stub.has_pending_send p)) e (resume_recv-PendingStays input be p);
  send_handshake-pending = λ pids p p' e.
      subst (PendingStays (Stub.has_pending_send p)) e
        (on_stream-PendingStays p (send_and_check_handshake out be pids p.stream));
  recv_handshake-pending = λ pids p p' e.
      subst (PendingStays (Stub.has_pending_send p)) e
        (on_stream-PendingStays p (recv_and_check_handshake input be pids p.stream));
}
