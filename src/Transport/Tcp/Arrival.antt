-- ===== src/Transport/Tcp/Arrival.antt =====
-- src/transport/tcp/recv.rs: the runs of a receive operation.
use scaproust.Prelude.{ℕ, suc, ◌≡◌, refl, Bool, true, false, Option, none, some, List}
use scaproust.Core.Message.{Message, from_body}
use scaproust.Core.Bytes.{ByteOrder, IsByteOrder}
use scaproust.Core.Context.{IoError}
use scaproust.Transport.Io.{Ran, success, failure, ReadStream, IsReadStream}
use scaproust.Transport.Tcp.Recv.{
  RecvOperationStep, header, payload, terminal, RecvOperation, advance, next_round, resume_at, run,
}
use scaproust.Transport.Tcp.Received.{
  HasRead, IsOpen, Advanced, waiting, opened, ended, stopped, read_header-Advanced,
  read_payload-Advanced,
}

-- An operation that waits for the rest of a message, where the stream still has `pending`.
pub record IsAwaiting (be : ByteOrder) (bs rest pending : List ℕ) (operation : RecvOperation)
    : Type 0 where
  pub at : RecvOperationStep
  pub there : operation.step ≡ some at
  pub open_still : IsOpen at
  pub has_read : HasRead be bs rest pending at

-- What a run comes to: the whole message, a part of it, or an error of the stream.
pub data Arrival {S : Type 0} (be : ByteOrder) (stream : ReadStream S) (bs rest : List ℕ)
    : Ran (RecvOperation × S) (Option Message) → Type 0 where
  whole :
      (operation : RecvOperation) (s' : S)
      → operation.step ≡ none
      → stream.pending s' ≡ rest
      → Arrival be stream bs rest (success (some (from_body bs)) (operation, s'))
  partial :
      (operation : RecvOperation) (s' : S)
      → IsAwaiting be bs rest (stream.pending s') operation
      → Arrival be stream bs rest (success none (operation, s'))
  broken :
      (e : IoError) (operation : RecvOperation) (s' : S)
      → operation.step ≡ none
      → Arrival be stream bs rest (failure e (operation, s'))

next_round-Arrival :
    {S : Type 0} (be : ByteOrder) (stream : ReadStream S) (bs rest : List ℕ) (opens : Bool)
    (r : Ran S (Bool × RecvOperationStep))
    (again : RecvOperationStep → S → Ran (RecvOperation × S) (Option Message))
    → Advanced be stream bs rest opens r
    → ((buffer : List ℕ) (s : S)
        → opens ≡ true
        → HasRead be bs rest (stream.pending s) (payload buffer 0)
        → Arrival be stream bs rest (again (payload buffer 0) s))
    → Arrival be stream bs rest (next_round r again)
unfolding next_round
next_round-Arrival be stream bs rest opens _ again (waiting next s' o h) f =
    partial (record { step = some next }) s'
      (record { at = next; there = refl; open_still = o; has_read = h })
next_round-Arrival be stream bs rest opens _ again (opened buffer s' on h) f = f buffer s' on h
next_round-Arrival be stream bs rest opens _ again (ended s' e) f =
    whole (record { step = none }) s' refl e
next_round-Arrival be stream bs rest opens _ again (stopped err s') f =
    broken err (record { step = none }) s' refl

module _ {S : Type 0} (be : ByteOrder) (stream : ReadStream S) (bs rest : List ℕ)
    (order : IsByteOrder be) (laws : IsReadStream stream) where
  payload-Arrival :
      (fuel : ℕ) (buffer : List ℕ) (read : ℕ) (s : S)
      → HasRead be bs rest (stream.pending s) (payload buffer read)
      → Arrival be stream bs rest (resume_at stream be (suc fuel) (payload buffer read) s)
  unfolding resume_at advance
  payload-Arrival fuel buffer read s h =
      next_round-Arrival be stream bs rest false _ (resume_at stream be fuel)
        (read_payload-Advanced be stream bs rest laws buffer read s h) (λ _ _ on _. absurd (cc))

  header-Arrival :
      (fuel : ℕ) (buffer : List ℕ) (read max_size : ℕ) (s : S)
      → HasRead be bs rest (stream.pending s) (header buffer read max_size)
      → Arrival be stream bs rest
          (resume_at stream be (suc (suc fuel)) (header buffer read max_size) s)
  unfolding resume_at advance
  header-Arrival fuel buffer read max_size s h =
      next_round-Arrival be stream bs rest true _ (resume_at stream be (suc fuel))
        (read_header-Advanced be stream bs rest laws buffer read max_size s order h)
        (λ buffer s' _ g. payload-Arrival fuel buffer 0 s' g)

  at-Arrival :
      (at : RecvOperationStep) (s : S)
      → IsOpen at
      → HasRead be bs rest (stream.pending s) at
      → Arrival be stream bs rest (resume_at stream be 2 at s)
  at-Arrival (header buffer read max_size) s o h = header-Arrival 0 buffer read max_size s h
  at-Arrival (payload buffer read) s o h = payload-Arrival 1 buffer read s h
  at-Arrival (terminal msg) s o h = absurd o

  -- A run of an operation that waits gives the whole message, or waits for what is left of it, or
  -- meets an error of the stream.
  pub run-Arrival :
      (operation : RecvOperation) (s : S)
      → IsAwaiting be bs rest (stream.pending s) operation
      → Arrival be stream bs rest (run stream be (operation, s))
  unfolding run
  run-Arrival operation s v = rw (v.there, run) (at-Arrival v.at s v.open_still v.has_read)
