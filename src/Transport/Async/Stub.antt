-- ===== src/Transport/Async/Stub.antt =====
-- The interface AsyncPipeStub of src/transport/async/stub.rs, and the handshake that it brings: eight
-- bytes that name the protocol of each side. What mio is told and what the pipe raises is a log.
use scaproust.Prelude.{ℕ, Bool, Option, List, [], ◌∷◌, ◌++◌, ◌==◌, if◌then◌else◌}
use scaproust.Core.Message.{Message}
use scaproust.Core.Bytes.{ByteOrder, same_bytes}
use scaproust.Core.Context.{IoError, invalid_data, would_block}
use scaproust.Transport.Slices.{fill}
use scaproust.Transport.Io.{success, failure, Io, ◌>>=◌, WriteStream, ReadStream}

pub record AsyncPipeStub (S : Type 0) : Type 0 where
  pub start_send : Message → Io S Bool
  pub resume_send : Io S Bool
  pub has_pending_send : S → Bool
  pub start_recv : Io S (Option Message)
  pub resume_recv : Io S (Option Message)
  pub has_pending_recv : S → Bool
  pub send_handshake : ℕ × ℕ → Io S (Unit {0})
  pub recv_handshake : ℕ × ℕ → Io S (Unit {0})

-- Zero, `S`, `P`, the version, the protocol and two bytes in reserve.
unfoldable pub create_handshake : ByteOrder → ℕ → List ℕ
create_handshake be protocol_id = 0 ∷ 83 ∷ 80 ∷ 0 ∷ (be.write_u16 protocol_id ++ (0 ∷ 0 ∷ []))

unfoldable pub check_handshake : {S : Type 0} → ByteOrder → ℕ × ℕ → List ℕ → Io S (Unit {0})
check_handshake be pids handshake =
    if same_bytes handshake (create_handshake be pids.1)
    then success tt
    else failure (record { kind = invalid_data; text = "received bad handshake" })

-- A write that takes less than the whole is an error.
unfoldable pub send_and_check_handshake :
    {S : Type 0} → WriteStream S → ByteOrder → ℕ × ℕ → Io S (Unit {0})
send_and_check_handshake stream be pids = do
  n ← stream.write (create_handshake be pids.0)
  if n == 8
      then success tt
      else failure (record { kind = would_block; text = "failed to send handshake" })

-- What a single read gives is compared, whatever its length.
unfoldable pub recv_and_check_handshake :
    {S : Type 0} → ReadStream S → ByteOrder → ℕ × ℕ → Io S (Unit {0})
recv_and_check_handshake stream be pids = do
  bytes ← stream.read 8
  check_handshake be pids (fill (0 ∷ 0 ∷ 0 ∷ 0 ∷ 0 ∷ 0 ∷ 0 ∷ 0 ∷ []) 0 bytes)

pub data Event : Type 0 where
  opened closed sent : Event
  can_send can_recv : Bool → Event
  received : Message → Event
  error : IoError → Event

pub record Ready : Type 0 where
  pub readable : Bool
  pub writable : Bool
  pub hup : Bool

pub data Action : Type 0 where
  raise : Event → Action
  register_writable reregister_readable reregister_all deregister : Action

-- The latest action first.
abbrev pub Log : Type 0
Log = List Action
