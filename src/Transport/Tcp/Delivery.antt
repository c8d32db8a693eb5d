-- ===== src/Transport/Tcp/Delivery.antt =====
-- src/transport/tcp/stub.rs: a message is sent by a start and the resumptions that follow it.
use scaproust.Prelude.{
  ℕ, suc, ◌+◌, ◌≡◌, ◌≤◌, ◌<◌, refl, sym, ap, subst, ◌∙◌, Bool, true, false, none, some, List, ◌++◌,
  length, take, drop, arith, length-append, length-take,
}
use scaproust.Core.Message.{Message}
use scaproust.Core.Bytes.{ByteOrder, IsByteOrder}
use scaproust.Transport.Slices.{
  append_assoc, append_nil, take-drop, take-split, drop-drop, length-drop,
}
use scaproust.Transport.Io.{Ran, success, WriteStream, IsWriteStream}
use scaproust.Transport.Tcp.Send as Send
use scaproust.Transport.Tcp.Send.{SendOperation, transport_hdr, is_terminal}
use scaproust.Transport.Tcp.Remaining.{frame}
use scaproust.Transport.Tcp.Progress.{IsPending, Progress, complete, partial, broken, run-Progress}
use scaproust.Transport.Tcp.Stub.{
  TcpPipeStub, start_send, resume_send, run_send_operation, keep_send,
}

-- From one state of a pipe to another, `msg` is sent, to its end or in part. `takes` counts the
-- runs in which the stream takes something. Between two runs the pipe may do all else: it receives,
-- say, or waits.
pub data Sends {S : Type 0} (stream : WriteStream S) (be : ByteOrder) (msg : Message)
    (p : TcpPipeStub S) : ℕ → Bool → TcpPipeStub S → Type 0 where
  started :
      (done : Bool) (q : TcpPipeStub S)
      → start_send stream be msg p ≡ success done q
      → Sends stream be msg p 0 done q
  resumed :
      (takes : ℕ) (done : Bool) (q r : TcpPipeStub S)
      → Sends stream be msg p takes false q
      → resume_send stream be q ≡ success done r
      → length (stream.sent q.stream) < length (stream.sent r.stream)
      → Sends stream be msg p (suc takes) done r
  stalled :
      (takes : ℕ) (q r : TcpPipeStub S)
      → Sends stream be msg p takes false q
      → resume_send stream be q ≡ success false r
      → stream.sent r.stream ≡ stream.sent q.stream
      → Sends stream be msg p takes false r
  meanwhile :
      (takes : ℕ) (q r : TcpPipeStub S)
      → Sends stream be msg p takes false q
      → stream.sent r.stream ≡ stream.sent q.stream
      → r.send_operation ≡ q.send_operation
      → Sends stream be msg p takes false r

-- How far the sending of `rest` has come: all of it, or a prefix of `n` bytes.
pub data Far {S : Type 0} (be : ByteOrder) (stream : WriteStream S) (p : TcpPipeStub S)
    (rest : List ℕ) : ℕ → Bool → TcpPipeStub S → Type 0 where
  over :
      (q : TcpPipeStub S)
      → stream.sent q.stream ≡ stream.sent p.stream ++ rest
      → Far be stream p rest (length rest) true q
  under_way :
      (n : ℕ) (operation : SendOperation) (q : TcpPipeStub S)
      → n < length rest
      → stream.sent q.stream ≡ stream.sent p.stream ++ take n rest
      → q.send_operation ≡ some operation
      → IsPending be (drop n rest) operation
      → Far be stream p rest n false q

pub new-IsPending : (be : ByteOrder) (msg : Message) → IsPending be (frame be msg) (Send.new msg)
unfolding Send.new is_terminal
new-IsPending be msg = record {
  at = transport_hdr msg 0;
  there = refl;
  in_range = omega arith;
  going = refl;
  left = refl;
}

module _ {S : Type 0} (be : ByteOrder) (stream : WriteStream S) where
  unfoldable pub FarOrNot : TcpPipeStub S → List ℕ → Ran (TcpPipeStub S) Bool → Type 0
  FarOrNot p rest (success done q) = (m : ℕ) × Far be stream p rest m done q
  FarOrNot p rest _ = Unit {0}

  pub length-Far :
      (p : TcpPipeStub S) (rest : List ℕ) (m : ℕ) (done : Bool) (q : TcpPipeStub S)
      → Far be stream p rest m done q
      → (m ≤ length rest) × (length (stream.sent q.stream) ≡ length (stream.sent p.stream) + m)
  length-Far p rest _ _ _ (over q e) =
      (omega arith, rw e (length-append (stream.sent p.stream) rest))
  length-Far p rest _ _ _ (under_way n operation q h e f v) = (
    omega arith,
    rw e (omega (arith, length-append (stream.sent p.stream) (take n rest), length-take n rest)),
  )

  -- A run that goes on where `n` bytes have been written.
  run-Far :
      (order : IsByteOrder be) (laws : IsWriteStream stream) (p q : TcpPipeStub S) (rest : List ℕ)
      (n : ℕ) (operation : SendOperation)
      → n ≤ length rest
      → stream.sent q.stream ≡ stream.sent p.stream ++ take n rest
      → IsPending be (drop n rest) operation
      → FarOrNot p rest (run_send_operation stream be operation q)
  unfolding run_send_operation keep_send FarOrNot
  run-Far order laws p q rest n operation h e v =
      go (Send.run stream be (operation, q.stream))
        (run-Progress be stream order laws operation (drop n rest) q.stream v)
    where
      before : List ℕ
      before = stream.sent p.stream

      whole :
          (s' : S)
          → stream.sent s' ≡ stream.sent q.stream ++ drop n rest
          → stream.sent s' ≡ before ++ rest
      whole s' sent =
          sent
          ∙ ap (λ xs. xs ++ drop n rest) e
          ∙ append_assoc before (take n rest) (drop n rest)
          ∙ ap (λ xs. before ++ xs) (take-drop n rest)

      further :
          (k : ℕ) (s' : S)
          → stream.sent s' ≡ stream.sent q.stream ++ take k (drop n rest)
          → stream.sent s' ≡ before ++ take (n + k) rest
      further k s' sent =
          sent
          ∙ ap (λ xs. xs ++ take k (drop n rest)) e
          ∙ append_assoc before (take n rest) (take k (drop n rest))
          ∙ ap (λ xs. before ++ xs) (take-split n k rest)

      go :
          (r : Ran (SendOperation × S) Bool)
          → Progress be stream q.stream (drop n rest) r
          → FarOrNot p rest (keep_send q r)
      go _ (complete operation' s' end sent) =
          (length rest, over (record q { stream = s' }) (whole s' sent))
      go _ (partial k operation' s' room sent v' grows) = (
        n + k,
        under_way (n + k) operation' (record q { stream = s'; send_operation = some operation' })
            (omega (arith, room, length-drop n rest)) (further k s' sent) refl
            (subst (λ xs. IsPending be xs operation') (drop-drop n k rest) v'),
      )
      go _ (broken err operation' s' end same why ready) = tt

  -- Resuming where a prefix has been written.
  pub resume-Far :
      (order : IsByteOrder be) (laws : IsWriteStream stream) (p q : TcpPipeStub S) (rest : List ℕ)
      (n : ℕ)
      → Far be stream p rest n false q
      → FarOrNot p rest (resume_send stream be q)
  unfolding resume_send
  resume-Far order laws p _ rest _ (under_way n operation q h e f v) =
      rw (f, resume_send)
        (run-Far order laws p (record q { send_operation = none }) rest n operation (omega arith) e
          v)

  pub start-Far :
      (order : IsByteOrder be) (laws : IsWriteStream stream) (p : TcpPipeStub S) (msg : Message)
      → FarOrNot p (frame be msg) (start_send stream be msg p)
  unfolding start_send
  start-Far order laws p msg =
      run-Far order laws p p (frame be msg) 0 (Send.new msg) (omega arith)
        (sym (append_nil (stream.sent p.stream))) (new-IsPending be msg)

  far_again :
      (p q r : TcpPipeStub S) (rest : List ℕ) (n : ℕ)
      → Far be stream p rest n false q
      → stream.sent r.stream ≡ stream.sent q.stream
      → r.send_operation ≡ q.send_operation
      → Far be stream p rest n false r
  far_again p _ r rest _ (under_way n operation q h e f v) same kept =
      under_way n operation r h (same ∙ e) (kept ∙ f) v

  pub Sends-Far :
      (order : IsByteOrder be) (laws : IsWriteStream stream) (msg : Message) (p : TcpPipeStub S)
      (takes : ℕ) (done : Bool) (q : TcpPipeStub S)
      → Sends stream be msg p takes done q
      → (n : ℕ) × (takes ≤ n) × Far be stream p (frame be msg) n done q
  unfolding FarOrNot
  Sends-Far order laws msg p _ _ _ (started done q e) =
      let (n, far) = subst (FarOrNot p (frame be msg)) e (start-Far order laws p msg) in
      (n, omega arith, far)
  Sends-Far order laws msg p _ _ _ (resumed takes done q r before e grew) =
      let (n, h, far) = Sends-Far order laws msg p takes false q before in
      let (m, far') =
        subst (FarOrNot p (frame be msg)) e (resume-Far order laws p q (frame be msg) n far) in
      let (_, old) = length-Far p (frame be msg) n false q far in
      let (_, size) = length-Far p (frame be msg) m done r far' in (m, omega arith, far')
  Sends-Far order laws msg p _ _ _ (stalled takes q r before e same) =
      let (n, h, far) = Sends-Far order laws msg p takes false q before in
      let (m, far') =
        subst (FarOrNot p (frame be msg)) e (resume-Far order laws p q (frame be msg) n far) in
      let (_, old) = length-Far p (frame be msg) n false q far in
      let (_, size) = length-Far p (frame be msg) m false r far' in
      let equal : length (stream.sent r.stream) ≡ length (stream.sent q.stream) = ap length same in
      (m, omega arith, far')
  Sends-Far order laws msg p _ _ _ (meanwhile takes q r before same kept) =
      let (n, h, far) = Sends-Far order laws msg p takes false q before in
      (n, h, far_again p q r (frame be msg) n far same kept)
