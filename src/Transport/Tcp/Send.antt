-- ===== src/Transport/Tcp/Send.antt =====
-- src/transport/tcp/send.rs: the frame of a message, its length on eight bytes, its header and its
-- body, is written in as many pieces as the stream takes.
use scaproust.Prelude.{
  ℕ, zero, suc, ◌+◌, ◌-◌, Bool, true, false, Option, none, some, List, [], ◌∷◌, length, ltb,
  if◌then◌else◌,
}
use scaproust.Core.Message.{Message, len}
use scaproust.Core.Bytes.{ByteOrder}
use scaproust.Core.Context.{other}
use scaproust.Transport.Io.{
  Ran, success, failure, panicked, out_of_fuel, Io, ◌>>=◌, slice_from, is_would_block, WriteStream,
}

pub data SendOperationStep : Type 0 where
  transport_hdr protocol_hdr usr_payload : Message → ℕ → SendOperationStep
  terminal : SendOperationStep

pub record SendOperation : Type 0 where
  pub step : Option SendOperationStep

unfoldable pub new : Message → SendOperation
new msg = record { step = some (transport_hdr msg 0) }

unfoldable pub is_terminal : SendOperationStep → Bool
is_terminal terminal = true
is_terminal _ = false

unfoldable pub flatten_would_block : {S : Type 0} → Ran S ℕ → Ran S ℕ
flatten_would_block (failure e s) = if is_would_block e.kind then success 0 s else failure e s
flatten_would_block r = r

unfoldable pub after_transport_hdr : Message → ℕ → Bool × SendOperationStep
after_transport_hdr msg written =
    let proto_hdr_limit = 8 + length msg.header in
    let payload_limit = proto_hdr_limit + length msg.body in
    if ltb written 8
    then (false, transport_hdr msg written)
    else if ltb written proto_hdr_limit
    then (false, protocol_hdr msg (written - 8))
    else if ltb written payload_limit
    then (false, usr_payload msg (written - proto_hdr_limit))
    else (true, terminal)

unfoldable pub after_protocol_hdr : Message → ℕ → Bool × SendOperationStep
after_protocol_hdr msg written =
    let proto_hdr_limit = length msg.header in
    let payload_limit = proto_hdr_limit + length msg.body in
    if ltb written proto_hdr_limit
    then (false, protocol_hdr msg written)
    else if ltb written payload_limit
    then (false, usr_payload msg (written - proto_hdr_limit))
    else (true, terminal)

unfoldable pub after_usr_payload : Message → ℕ → Bool × SendOperationStep
after_usr_payload msg written =
    if ltb written (length msg.body) then (false, usr_payload msg written) else (true, terminal)

-- What the loop does with the result of an advance. The operation keeps a step just where it is to be
-- resumed.
unfoldable pub next_round :
    {S : Type 0}
    → Ran S (Bool × SendOperationStep)
    → (SendOperationStep → S → Ran (SendOperation × S) Bool)
    → Ran (SendOperation × S) Bool
next_round (success (passed, next) s) again =
    if is_terminal next
    then success true (record { step = none }, s)
    else if passed
    then again next s
    else success false (record { step = some next }, s)
next_round (failure e s) again = failure e (record { step = none }, s)
next_round panicked again = panicked
next_round out_of_fuel again = out_of_fuel

module _ {S : Type 0} (stream : WriteStream S) where
  unfoldable pub write_buffer : List ℕ → Io S ℕ
  write_buffer buffer s = flatten_would_block (stream.write buffer s)

  unfoldable pub write_buffers : List (List ℕ) → Io S ℕ
  write_buffers buffers s = flatten_would_block (stream.write_bufs buffers s)

  -- The buffers that are handed over with what is left of the length: those that are not empty.
  unfoldable pub write_frame : List ℕ → List ℕ → List ℕ → Io S ℕ
  write_frame hdr [] [] = write_buffer hdr
  write_frame hdr [] (b ∷ body) = write_buffers (hdr ∷ (b ∷ body) ∷ [])
  write_frame hdr (h ∷ header) [] = write_buffers (hdr ∷ (h ∷ header) ∷ [])
  write_frame hdr (h ∷ header) (b ∷ body) = write_buffers (hdr ∷ (h ∷ header) ∷ (b ∷ body) ∷ [])

  unfoldable pub write_transport_hdr : ByteOrder → Message → ℕ → Io S (Bool × SendOperationStep)
  write_transport_hdr be msg written = do
    hdr ← slice_from (be.write_u64 (len msg)) written
    n ← write_frame hdr msg.header msg.body
    success (after_transport_hdr msg (written + n))

  unfoldable pub write_protocol_hdr : Message → ℕ → Io S (Bool × SendOperationStep)
  write_protocol_hdr msg written = do
    hdr ← slice_from msg.header written
    n ← write_buffers (hdr ∷ msg.body ∷ [])
    success (after_protocol_hdr msg (written + n))

  unfoldable pub write_usr_payload : Message → ℕ → Io S (Bool × SendOperationStep)
  write_usr_payload msg written = do
    payload ← slice_from msg.body written
    n ← write_buffer payload
    success (after_usr_payload msg (written + n))

  unfoldable pub advance : ByteOrder → SendOperationStep → Io S (Bool × SendOperationStep)
  advance be (transport_hdr msg written) = write_transport_hdr be msg written
  advance be (protocol_hdr msg written) = write_protocol_hdr msg written
  advance be (usr_payload msg written) = write_usr_payload msg written
  advance be terminal =
      failure (record { kind = other; text = "Cannot advance terminal step of send operation" })

  -- The loop, on fuel.
  unfoldable pub resume_at : ByteOrder → ℕ → SendOperationStep → S → Ran (SendOperation × S) Bool
  resume_at be zero step s = out_of_fuel
  resume_at be (suc fuel) step s = next_round (advance be step s) (resume_at be fuel)

  -- A step that passes is followed by a later one, so that four rounds are enough.
  unfoldable pub run : ByteOrder → Io (SendOperation × S) Bool
  run be (operation, s) = elim operation.step [
    | none ↦
        failure (record { kind = other; text = "Cannot resume already finished send operation" })
          (operation, s)
    | some step ↦ resume_at be 4 step s
  ]
