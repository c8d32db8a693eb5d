-- ===== src/Transport/Tcp/Stub.antt =====
-- src/transport/tcp/stub.rs: one message at a time is sent, and one received, over the stream of a
-- pipe.
use scaproust.Prelude.{ℕ, Bool, true, false, Option, none, some}
use scaproust.Core.Message.{Message}
use scaproust.Core.Bytes.{ByteOrder}
use scaproust.Core.Context.{other}
use scaproust.Transport.Io.{
  Ran, success, failure, panicked, out_of_fuel, Io, WriteStream, ReadStream,
}
use scaproust.Transport.Tcp.Send as Send
use scaproust.Transport.Tcp.Send.{SendOperation}
use scaproust.Transport.Tcp.Recv as Recv
use scaproust.Transport.Tcp.Recv.{RecvOperation}

pub record TcpPipeStub (S : Type 0) : Type 0 where
  pub stream : S
  pub recv_max_size : ℕ
  pub send_operation : Option SendOperation
  pub recv_operation : Option RecvOperation

unfoldable pub new : {S : Type 0} → S → ℕ → TcpPipeStub S
new stream recv_max_size = record {
  stream = stream;
  recv_max_size = recv_max_size;
  send_operation = none;
  recv_operation = none;
}

-- What is kept of a run: an operation that is over, or has failed, is dropped.
unfoldable pub keep_send :
    {S : Type 0} → TcpPipeStub S → Ran (SendOperation × S) Bool → Ran (TcpPipeStub S) Bool
keep_send stub (success true (operation, s)) = success true (record stub { stream = s })
keep_send stub (success false (operation, s)) =
    success false (record stub { stream = s; send_operation = some operation })
keep_send stub (failure e (operation, s)) = failure e (record stub { stream = s })
keep_send stub panicked = panicked
keep_send stub out_of_fuel = out_of_fuel

unfoldable pub keep_recv :
    {S : Type 0}
    → TcpPipeStub S
    → Ran (RecvOperation × S) (Option Message)
    → Ran (TcpPipeStub S) (Option Message)
keep_recv stub (success (some msg) (operation, s)) = success (some msg) (record stub { stream = s })
keep_recv stub (success none (operation, s)) =
    success none (record stub { stream = s; recv_operation = some operation })
keep_recv stub (failure e (operation, s)) = failure e (record stub { stream = s })
keep_recv stub panicked = panicked
keep_recv stub out_of_fuel = out_of_fuel

module _ {S : Type 0} (stream : WriteStream S) (be : ByteOrder) where
  unfoldable pub run_send_operation : SendOperation → Io (TcpPipeStub S) Bool
  run_send_operation operation stub = keep_send stub (Send.run stream be (operation, stub.stream))

  unfoldable pub start_send : Message → Io (TcpPipeStub S) Bool
  start_send msg = run_send_operation (Send.new msg)

  unfoldable pub resume_send : Io (TcpPipeStub S) Bool
  resume_send stub = elim stub.send_operation [
    | none ↦
        failure (record { kind = other; text = "Cannot resume send: no pending operation" }) stub
    | some operation ↦ run_send_operation operation (record stub { send_operation = none })
  ]

unfoldable pub has_pending_send : {S : Type 0} → TcpPipeStub S → Bool
has_pending_send stub = elim stub.send_operation [ none ↦ false | some _ ↦ true ]

module _ {S : Type 0} (stream : ReadStream S) (be : ByteOrder) where
  unfoldable pub run_recv_operation : RecvOperation → Io (TcpPipeStub S) (Option Message)
  run_recv_operation operation stub = keep_recv stub (Recv.run stream be (operation, stub.stream))

  unfoldable pub start_recv : Io (TcpPipeStub S) (Option Message)
  start_recv stub = run_recv_operation (Recv.new stub.recv_max_size) stub

  unfoldable pub resume_recv : Io (TcpPipeStub S) (Option Message)
  resume_recv stub = elim stub.recv_operation [
    | none ↦
        failure (record { kind = other; text = "Cannot resume recv: no pending operation" }) stub
    | some operation ↦ run_recv_operation operation (record stub { recv_operation = none })
  ]

unfoldable pub has_pending_recv : {S : Type 0} → TcpPipeStub S → Bool
has_pending_recv stub = elim stub.recv_operation [ none ↦ false | some _ ↦ true ]
