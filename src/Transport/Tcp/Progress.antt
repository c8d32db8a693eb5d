-- ===== src/Transport/Tcp/Progress.antt =====
-- src/transport/tcp/send.rs: the runs of a send operation.
use scaproust.Prelude.{
  ℕ, ◌≡◌, ◌<◌, ◌≤◌, refl, sym, ap, subst, ◌∙◌, inl, inr, Bool, true, false, none, some, List, [],
  ◌++◌, length, take, drop, arith,
}
use scaproust.Core.Message.{len}
use scaproust.Core.Bytes.{ByteOrder, IsByteOrder}
use scaproust.Core.Context.{IoError}
use scaproust.Transport.Slices.{append_nil, take-drop, length-drop}
use scaproust.Transport.Io.{Ran, success, failure, WriteStream, IsWriteStream, Failed, IsReady}
use scaproust.Transport.Tcp.Send.{
  SendOperationStep, transport_hdr, protocol_hdr, usr_payload, terminal, SendOperation, is_terminal,
  advance, next_round, resume_at, run,
}
use scaproust.Transport.Tcp.Remaining.{remaining, InRange}
use scaproust.Transport.Tcp.Sent.{
  Advanced, moved, stopped, write_transport_hdr-Advanced, write_protocol_hdr-Advanced,
  write_usr_payload-Advanced,
}

-- An operation that is to be resumed, with `rest` to write.
pub record IsPending (be : ByteOrder) (rest : List ℕ) (operation : SendOperation) : Type 0 where
  pub at : SendOperationStep
  pub there : operation.step ≡ some at
  pub in_range : InRange at
  pub going : is_terminal at ≡ false
  pub left : remaining be at ≡ rest

-- What a run comes to, where `rest` was to be written.
pub data Progress {S : Type 0} (be : ByteOrder) (stream : WriteStream S) (s : S) (rest : List ℕ)
    : Ran (SendOperation × S) Bool → Type 0 where
  complete :
      (operation : SendOperation) (s' : S)
      → operation.step ≡ none
      → stream.sent s' ≡ stream.sent s ++ rest
      → Progress be stream s rest (success true (operation, s'))
  partial :
      (n : ℕ) (operation : SendOperation) (s' : S)
      → n < length rest
      → stream.sent s' ≡ stream.sent s ++ take n rest
      → IsPending be (drop n rest) operation
      → (IsReady stream s → 1 ≤ n)
      → Progress be stream s rest (success false (operation, s'))
  broken :
      (e : IoError) (operation : SendOperation) (s' : S)
      → operation.step ≡ none
      → stream.sent s' ≡ stream.sent s
      → Failed stream s e s'
      → (IsReady stream s → 1 ≤ length rest → ⊥)
      → Progress be stream s rest (failure e (operation, s'))

take-whole : (n : ℕ) (xs : List ℕ) → drop n xs ≡ [] → take n xs ≡ xs
take-whole n xs none_left = sym (append_nil (take n xs)) ∙ (rw none_left at (take-drop n xs))

next_round-Progress :
    {S : Type 0} (be : ByteOrder) (stream : WriteStream S) (s : S) (rest : List ℕ)
    (r : Ran S (Bool × SendOperationStep))
    (again : SendOperationStep → S → Ran (SendOperation × S) Bool)
    → Advanced be stream s rest r
    → Progress be stream s rest (next_round r again)
unfolding next_round
next_round-Progress be stream s rest _ again (stopped err s' same why ready) =
    broken err (record { step = none }) s' refl same why ready
next_round-Progress be stream s rest _ again (moved n (passed, next) s' h sent f grows) =
    elim f.over [
      | inl (p, t, done) ↦ rw t (
          complete (record { step = none }) s' refl
            (sent ∙ ap (λ xs. stream.sent s ++ xs) (take-whole n rest done)))
      | inr (p, t, more) ↦
          rw (t, p)
            (partial n (record { step = some next }) s' (omega (arith, more, length-drop n rest))
              sent
              (record { at = next; there = refl; in_range = f.in_range; going = t; left = f.left })
              (λ ready. grows ready (omega (arith, more, length-drop n rest))))
    ]

module _ {S : Type 0} (be : ByteOrder) (stream : WriteStream S) (order : IsByteOrder be)
    (laws : IsWriteStream stream) where
  advance-Advanced :
      (step : SendOperationStep) (s : S)
      → InRange step
      → is_terminal step ≡ false
      → Advanced be stream s (remaining be step) (advance stream be step s)
  unfolding advance is_terminal
  advance-Advanced (transport_hdr msg w) s h going =
      write_transport_hdr-Advanced be stream laws msg w s (order.length-write_u64 (len msg)) h
  advance-Advanced (protocol_hdr msg w) s h going =
      write_protocol_hdr-Advanced be stream laws msg w s h
  advance-Advanced (usr_payload msg w) s h going =
      write_usr_payload-Advanced be stream laws msg w s h
  advance-Advanced terminal s h going = absurd (cc)

  -- A run of a pending operation writes a prefix of what is left, all of it just where the run
  -- ends the operation; a run that fails has written nothing.
  pub run-Progress :
      (operation : SendOperation) (rest : List ℕ) (s : S)
      → IsPending be rest operation
      → Progress be stream s rest (run stream be (operation, s))
  unfolding run resume_at
  run-Progress operation rest s v =
      rw (v.there, run)
        (next_round-Progress be stream s rest (advance stream be v.at s) (resume_at stream be 3) (
          subst (λ left. Advanced be stream s left (advance stream be v.at s)) v.left
            (advance-Advanced v.at s v.in_range v.going)))
