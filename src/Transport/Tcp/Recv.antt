-- ===== src/Transport/Tcp/Recv.antt =====
-- src/transport/tcp/recv.rs: the frame of a message is read in as many pieces as the stream gives. The
-- capacity of the buffer of a payload is its length.
use scaproust.Prelude.{
  ℕ, zero, suc, ◌+◌, ◌-◌, ◌^◌, Bool, true, false, ◌&&◌, Option, none, some, List, [], ◌∷◌, length,
  ltb, leb, ◌==◌, if◌then◌else◌,
}
use scaproust.Core.Message.{Message, from_body}
use scaproust.Core.Bytes.{ByteOrder}
use scaproust.Core.Context.{other, invalid_data}
use scaproust.Transport.Slices.{fill}
use scaproust.Transport.Io.{
  Ran, success, failure, panicked, out_of_fuel, Io, ◌>>=◌, is_would_block, ReadStream,
}

pub data RecvOperationStep : Type 0 where
  header : List ℕ → ℕ → ℕ → RecvOperationStep
  payload : List ℕ → ℕ → RecvOperationStep
  terminal : Message → RecvOperationStep

pub record RecvOperation : Type 0 where
  pub step : Option RecvOperationStep

abbrev pub zeroes : ℕ → List ℕ
zeroes zero = []
zeroes (suc n) = 0 ∷ zeroes n

unfoldable pub new : ℕ → RecvOperation
new recv_max_size = record { step = some (header (zeroes 8) 0 recv_max_size) }

-- `read_buffer` of src/transport/async/stub.rs.
unfoldable pub nothing_yet : {S : Type 0} → Ran S (List ℕ) → Ran S (List ℕ)
nothing_yet (failure e s) = if is_would_block e.kind then success [] s else failure e s
nothing_yet r = r

-- A length above `isize::MAX` is more than a vector can have, and `vec![0u8; msg_len]` panics.
unfoldable pub allocate : {S : Type 0} → ℕ → Io S (List ℕ)
allocate msg_len s = if leb (2 ^ 63) msg_len then panicked else success (zeroes msg_len) s

unfoldable pub after_header :
    {S : Type 0} → ByteOrder → List ℕ → ℕ → ℕ → Io S (Bool × RecvOperationStep)
after_header be buffer read max_size =
    let msg_len = be.read_u64 buffer in
    if read == 8
    then (if ltb 0 max_size && ltb max_size msg_len
        then failure (record { kind = invalid_data; text = "message is too long" })
        else do buffer ← allocate msg_len; success (true, payload buffer 0))
    else success (false, header buffer read max_size)

unfoldable pub after_payload : List ℕ → ℕ → Bool × RecvOperationStep
after_payload buffer read =
    if read == length buffer
    then (true, terminal (from_body buffer))
    else (false, payload buffer read)

-- What the loop does with the result of an advance.
unfoldable pub next_round :
    {S : Type 0}
    → Ran S (Bool × RecvOperationStep)
    → (RecvOperationStep → S → Ran (RecvOperation × S) (Option Message))
    → Ran (RecvOperation × S) (Option Message)
next_round (success (false, next) s) again = success none (record { step = some next }, s)
next_round (success (true, terminal msg) s) again = success (some msg) (record { step = none }, s)
next_round (success (true, next) s) again = again next s
next_round (failure e s) again = failure e (record { step = none }, s)
next_round panicked again = panicked
next_round out_of_fuel again = out_of_fuel

module _ {S : Type 0} (stream : ReadStream S) where
  -- `stream.read_buffer(&mut buffer[read..])`, which panics where the buffer ends before.
  unfoldable pub read_into : List ℕ → ℕ → Io S (List ℕ)
  read_into buffer read s =
      if leb read (length buffer)
      then nothing_yet (stream.read (length buffer - read) s)
      else panicked

  unfoldable pub read_header : ByteOrder → List ℕ → ℕ → ℕ → Io S (Bool × RecvOperationStep)
  read_header be buffer read max_size = do
    bytes ← read_into buffer read
    after_header be (fill buffer read bytes) (read + length bytes) max_size

  unfoldable pub read_payload : List ℕ → ℕ → Io S (Bool × RecvOperationStep)
  read_payload buffer read = do
    bytes ← read_into buffer read
    success (after_payload (fill buffer read bytes) (read + length bytes))

  unfoldable pub advance : ByteOrder → RecvOperationStep → Io S (Bool × RecvOperationStep)
  advance be (header buffer read max_size) = read_header be buffer read max_size
  advance be (payload buffer read) = read_payload buffer read
  advance be (terminal msg) =
      failure (record { kind = other; text = "Cannot advance terminal step of recv operation" })

  -- The loop, on fuel.
  unfoldable pub resume_at :
      ByteOrder → ℕ → RecvOperationStep → S → Ran (RecvOperation × S) (Option Message)
  resume_at be zero step s = out_of_fuel
  resume_at be (suc fuel) step s = next_round (advance be step s) (resume_at be fuel)

  -- The header is followed by the payload and that by the end, so that two rounds are enough.
  unfoldable pub run : ByteOrder → Io (RecvOperation × S) (Option Message)
  run be (operation, s) = elim operation.step [
    | none ↦
        failure (record { kind = other; text = "Cannot resume already finished recv operation" })
          (operation, s)
    | some step ↦ resume_at be 2 step s
  ]
