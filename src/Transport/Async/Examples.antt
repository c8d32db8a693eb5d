-- ===== src/Transport/Async/Examples.antt =====
-- A TCP pipe over a stream that takes and gives all it can, to a peer of protocol 17.
use scaproust.Prelude.{
  ℕ, suc, ◌≡◌, ◌≢◌, ◌⊎◌, refl, true, false, none, List, [], ◌∷◌, ◌++◌, length, take, drop, arith,
}
use scaproust.Core.Message.{Message, len}
use scaproust.Core.Context.{invalid_data}
use scaproust.Transport.Io.{success, failure, WriteStream, ReadStream, concat, slice_from}
use scaproust.Transport.Tcp.Send as Send
use scaproust.Transport.Tcp.Stub.{
  TcpPipeStub, start_send, has_pending_send, run_send_operation, keep_send,
}
use scaproust.Transport.Tcp.Pipe.{
  tcp_pipe, tcp_pipe-IsAsyncPipeStub, send_handshake, recv_handshake, on_stream,
}
use scaproust.Transport.Async.Stub.{
  opened, sent, Ready, raise, register_writable, reregister_readable, reregister_all, Log,
  create_handshake, check_handshake, send_and_check_handshake, recv_and_check_handshake,
}
use scaproust.Transport.Async.Active as Active
use scaproust.Transport.Async.State as State
use scaproust.Transport.Async.State.{PipeState, initial, handshake_tx, handshake_rx, active}
use scaproust.Transport.Async.History.{Call, step, Run, IsAsyncPipeStub}
use scaproust.Transport.Async.Phases.{IsSound}
use scaproust.Transport.Async.Lifecycle.{Run-IsSound}
use scaproust.Transport.Async.Handshake.{recv_handshake-cases, recv_handshake-short}
use scaproust.Proto.Fixtures.{big_endian, big_endian-IsByteOrder}

-- What has been sent, and what is to be read.
abbrev Wire : Type 0
Wire = List ℕ × List ℕ

abbrev out : WriteStream Wire
out = record {
  write = λ buffer s. success (length buffer) (s.0 ++ buffer, s.1);
  write_bufs = λ buffers s. success (length (concat buffers)) (s.0 ++ concat buffers, s.1);
  sent = λ s. s.0;
}

abbrev input : ReadStream Wire
input = record { read = λ room s. success (take room s.1) (s.0, drop room s.1); pending = λ s. s.1 }

abbrev peer_shake : List ℕ
peer_shake = 0 ∷ 83 ∷ 80 ∷ 0 ∷ 0 ∷ 17 ∷ 0 ∷ 0 ∷ []

abbrev own_shake : List ℕ
own_shake = 0 ∷ 83 ∷ 80 ∷ 0 ∷ 0 ∷ 16 ∷ 0 ∷ 0 ∷ []

abbrev fresh : TcpPipeStub Wire
fresh = record {
  stream = ([], peer_shake);
  recv_max_size = 0;
  send_operation = none;
  recv_operation = none;
}

abbrev greeted : TcpPipeStub Wire
greeted = record fresh { stream = (own_shake, peer_shake) }

abbrev met : TcpPipeStub Wire
met = record fresh { stream = (own_shake, []) }

abbrev done : TcpPipeStub Wire
done = record fresh { stream = (own_shake ++ (0 ∷ 0 ∷ 0 ∷ 0 ∷ 0 ∷ 0 ∷ 0 ∷ 1 ∷ 9 ∷ []), []) }

abbrev msg : Message
msg = record { header = []; body = 9 ∷ [] }

abbrev writable : Ready
writable = record { readable = false; writable = true; hup = false }

abbrev readable : Ready
readable = record { readable = true; writable = false; hup = false }

abbrev open_log : Log
open_log = raise opened ∷ reregister_all ∷ reregister_readable ∷ register_writable ∷ []

abbrev open_state : PipeState (TcpPipeStub Wire)
open_state = active (record { stub = met; can_send_msg = false; can_recv_msg = false })

abbrev sent_state : PipeState (TcpPipeStub Wire)
sent_state = active (record { stub = done; can_send_msg = false; can_recv_msg = false })

abbrev PipeRun : PipeState (TcpPipeStub Wire) → Log → ℕ → Type 0
PipeRun = Run (tcp_pipe out input big_endian) fresh (16, 17)

opens :
    step (tcp_pipe out input big_endian) (initial fresh (16, 17)) Call.open_pipe []
    ≡ success (handshake_tx fresh (16, 17)) (register_writable ∷ [])
unfolding step State.open_pipe State.enter_tx
opens = refl

greets :
    step
      (tcp_pipe out input big_endian)
      (handshake_tx fresh (16, 17))
      (Call.ready writable)
      (register_writable ∷ [])
    ≡ success (handshake_rx greeted (16, 17)) (reregister_readable ∷ register_writable ∷ [])
unfolding step State.ready State.transition_if_ok State.enter_rx send_handshake on_stream
    send_and_check_handshake create_handshake
greets = refl

meets :
    step
      (tcp_pipe out input big_endian)
      (handshake_rx greeted (16, 17))
      (Call.ready readable)
      (reregister_readable ∷ register_writable ∷ [])
    ≡ success open_state open_log
unfolding step State.ready State.transition_if_ok State.enter_active Active.enter Active.new
    recv_handshake on_stream recv_and_check_handshake check_handshake create_handshake
meets = refl

sends :
    step (tcp_pipe out input big_endian) open_state (Call.send msg) open_log
    ≡ success sent_state (raise sent ∷ open_log)
unfolding step State.send State.no_transition_if_ok Active.send Active.start_send Active.on_stub
    Active.on_send_progress start_send run_send_operation keep_send Send.new Send.run Send.resume_at
    Send.next_round Send.advance Send.write_transport_hdr slice_from Send.write_frame
    Send.write_buffers Send.flatten_would_block Send.after_transport_hdr Send.is_terminal len
sends = refl

run : PipeRun sent_state (raise sent ∷ open_log) 1
unfolding has_pending_send
run =
    Run.next open_state sent_state open_log _ 0 (Call.send msg)
      (Run.next (handshake_rx greeted (16, 17)) open_state _ open_log 0 (Call.ready readable)
        (Run.next (handshake_tx fresh (16, 17)) (handshake_rx greeted (16, 17)) _ _ 0
          (Call.ready writable)
          (Run.next (initial fresh (16, 17)) (handshake_tx fresh (16, 17)) [] _ 0 Call.open_pipe
            Run.start tt opens)
          tt greets)
        tt meets)
      refl sends

Run-IsSound_example : IsSound (tcp_pipe out input big_endian) 1 sent_state (raise sent ∷ open_log)
unfolding has_pending_send
Run-IsSound_example =
    Run-IsSound (tcp_pipe out input big_endian) (tcp_pipe-IsAsyncPipeStub out input big_endian)
      fresh (16, 17) sent_state (raise sent ∷ open_log) 1 refl run

tcp_pipe-IsAsyncPipeStub_example : IsAsyncPipeStub (tcp_pipe out input big_endian)
tcp_pipe-IsAsyncPipeStub_example = tcp_pipe-IsAsyncPipeStub out input big_endian

recv_handshake-cases_example :
    ((17 ≡ suc 16)
      × (recv_and_check_handshake input big_endian (16, 17) ([], peer_shake) ≡ success tt ([], [])))
    ⊎ ((17 ≢ suc 16)
        × (recv_and_check_handshake input big_endian (16, 17) ([], peer_shake)
            ≡ failure (record { kind = invalid_data; text = "received bad handshake" }) ([], [])))
unfolding create_handshake
recv_handshake-cases_example =
    recv_handshake-cases big_endian input (16, 17) 17 ([], peer_shake) ([], [])
      big_endian-IsByteOrder (omega arith) (omega arith) refl

recv_handshake-short_example :
    recv_and_check_handshake input big_endian (16, 17) ([], 0 ∷ 83 ∷ 80 ∷ 0 ∷ 0 ∷ 17 ∷ [])
    ≡ success tt ([], [])
unfolding create_handshake
recv_handshake-short_example =
    recv_handshake-short big_endian input (16, 17) ([], 0 ∷ 83 ∷ 80 ∷ 0 ∷ 0 ∷ 17 ∷ []) ([], [])
      big_endian-IsByteOrder refl
