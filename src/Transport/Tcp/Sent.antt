-- ===== src/Transport/Tcp/Sent.antt =====
-- src/transport/tcp/send.rs: what a run of a send operation leaves on the stream.
use scaproust.Prelude.{
  ℕ, ◌+◌, ◌≡◌, ◌≤◌, ◌⊎◌, refl, inl, inr, sym, subst, ◌∙◌, Bool, List, [], ◌∷◌, ◌++◌, length, take,
  drop, arith, Bool-cases,
}
use scaproust.Core.Message.{Message, len}
use scaproust.Core.Bytes.{ByteOrder}
use scaproust.Core.Context.{IoError}
use scaproust.Transport.Slices.{append_nil, drop-drop, drop-append_in}
use scaproust.Transport.Io.{
  Ran, success, failure, slice_from, slice_from-in_range, and_then, ◌>>=◌, concat, is_would_block,
  WriteStream, IsWriteStream, Took, took, refused, Failed, IsReady,
}
use scaproust.Transport.Tcp.Send.{
  SendOperationStep, transport_hdr, protocol_hdr, usr_payload, flatten_would_block, write_buffer,
  write_buffers, write_frame, after_transport_hdr, write_transport_hdr, after_protocol_hdr,
  write_protocol_hdr, after_usr_payload, write_usr_payload,
}
use scaproust.Transport.Tcp.Remaining.{
  frame, remaining, Follows, payload_left, header_left, frame_left,
}

-- What a write of the code comes to: a prefix of the buffer has been taken, not an empty one where the
-- stream is ready, or the stream has failed.
data Wrote {S : Type 0} (stream : WriteStream S) (s : S) (buffer : List ℕ) : Ran S ℕ → Type 0 where
  wrote :
      (n : ℕ) (s' : S)
      → n ≤ length buffer
      → stream.sent s' ≡ stream.sent s ++ take n buffer
      → (IsReady stream s → 1 ≤ length buffer → 1 ≤ n)
      → Wrote stream s buffer (success n s')
  failed :
      (e : IoError) (s' : S)
      → stream.sent s' ≡ stream.sent s
      → Failed stream s e s'
      → (IsReady stream s → 1 ≤ length buffer → ⊥)
      → Wrote stream s buffer (failure e s')

-- `r` is what the stream answers to a write of `buffer`.
record IsAnswer {S : Type 0} (stream : WriteStream S) (s : S) (buffer : List ℕ) (r : Ran S ℕ)
    : Type 0 where
  took_some : Took stream s buffer r
  fails :
      (e : IoError) (s' : S)
      → r ≡ failure e s'
      → ((buffer : List ℕ) × (stream.write buffer s ≡ failure e s'))
        ⊎ ((buffers : List (List ℕ)) × (stream.write_bufs buffers s ≡ failure e s'))
  takes : IsReady stream s → 1 ≤ length buffer → (n : ℕ) × (s' : S) × (r ≡ success n s') × (1 ≤ n)

flatten-Wrote :
    {S : Type 0} (stream : WriteStream S) (s : S) (buffer : List ℕ) (r : Ran S ℕ)
    → IsAnswer stream s buffer r
    → Wrote stream s buffer (flatten_would_block r)
unfolding flatten_would_block
flatten-Wrote stream s buffer r answer = go r answer.took_some answer.fails answer.takes
  where
    go :
        (r : Ran _ ℕ)
        → Took stream s buffer r
        → ((e : IoError) (s' : _)
            → r ≡ failure e s'
            → ((buffer : List ℕ) × (stream.write buffer s ≡ failure e s'))
              ⊎ ((buffers : List (List ℕ)) × (stream.write_bufs buffers s ≡ failure e s')))
        → (IsReady stream s → 1 ≤ length buffer → (n : ℕ) × (s' : _) × (r ≡ success n s') × (1 ≤ n))
        → Wrote stream s buffer (flatten_would_block r)
    go _ (took n s' h e) fails takes = wrote n s' h e (λ ready some_left.
        let (m, s'', same, positive) = takes ready some_left in
        let equal : n ≡ m = cc same in omega (arith, positive, equal))
    go _ (refused e s' same) fails takes = elim (Bool-cases (is_would_block e.kind)) [
      | inl blocks ↦ rw blocks (
          wrote 0 s' (omega arith) (same ∙ sym (append_nil (stream.sent s))) (λ ready some_left.
            let (m, s'', differs, positive) = takes ready some_left in absurd (cc differs)))
      | inr other_error ↦ rw other_error (
          failed e s' same (other_error, fails e s' refl)
            (λ ready some_left.
              let (m, s'', differs, positive) = takes ready some_left in absurd (cc differs)))
    ]

-- What an advance comes to, where `rest` was to be written: a prefix of it has been, or the stream
-- has failed and taken nothing.
pub data Advanced {S : Type 0} (be : ByteOrder) (stream : WriteStream S) (s : S) (rest : List ℕ)
    : Ran S (Bool × SendOperationStep) → Type 0 where
  moved :
      (n : ℕ) (p : Bool × SendOperationStep) (s' : S)
      → n ≤ length rest
      → stream.sent s' ≡ stream.sent s ++ take n rest
      → Follows be (drop n rest) p
      → (IsReady stream s → 1 ≤ length rest → 1 ≤ n)
      → Advanced be stream s rest (success p s')
  stopped :
      (e : IoError) (s' : S)
      → stream.sent s' ≡ stream.sent s
      → Failed stream s e s'
      → (IsReady stream s → 1 ≤ length rest → ⊥)
      → Advanced be stream s rest (failure e s')

module _ {S : Type 0} (be : ByteOrder) (stream : WriteStream S) where
  -- A write, and what the code makes of its count.
  then-Advanced :
      (s : S) (rest : List ℕ) (r : Ran S ℕ) (after : ℕ → Bool × SendOperationStep)
      → Wrote stream s rest r
      → ((n : ℕ) → Follows be (drop n rest) (after n))
      → Advanced be stream s rest (and_then r (λ n. success (after n)))
  then-Advanced s rest _ after (wrote n s' h e some_taken) f =
      moved n (after n) s' h e (f n) some_taken
  then-Advanced s rest _ after (failed e s' same why ready) f = stopped e s' same why ready

  module _ (laws : IsWriteStream stream) where
    write_buffer-Wrote :
        (buffer : List ℕ) (s : S) → Wrote stream s buffer (write_buffer stream buffer s)
    unfolding write_buffer
    write_buffer-Wrote buffer s = flatten-Wrote stream s buffer _ (record {
      took_some = laws.write-Took buffer s;
      fails = λ e s' h. inl (buffer, h);
      takes = λ ready. ready.write-takes buffer;
    })

    write_buffers-Wrote :
        (buffers : List (List ℕ)) (s : S)
        → Wrote stream s (concat buffers) (write_buffers stream buffers s)
    unfolding write_buffers
    write_buffers-Wrote buffers s = flatten-Wrote stream s (concat buffers) _ (record {
      took_some = laws.write_bufs-Took buffers s;
      fails = λ e s' h. inr (buffers, h);
      takes = λ ready. ready.write_bufs-takes buffers;
    })

    write_frame-Wrote :
        (hdr header body : List ℕ) (s : S)
        → Wrote stream s (hdr ++ (header ++ body)) (write_frame stream hdr header body s)
    unfolding write_frame
    write_frame-Wrote hdr [] [] s = rw (append_nil hdr) (write_buffer-Wrote hdr s)
    write_frame-Wrote hdr [] (b ∷ body) s =
        rw (append_nil body) at (write_buffers-Wrote (hdr ∷ (b ∷ body) ∷ []) s)
    write_frame-Wrote hdr (h ∷ header) [] s = write_buffers-Wrote (hdr ∷ (h ∷ header) ∷ []) s
    write_frame-Wrote hdr (h ∷ header) (b ∷ body) s =
        rw (append_nil body) at (write_buffers-Wrote (hdr ∷ (h ∷ header) ∷ (b ∷ body) ∷ []) s)

    pub write_transport_hdr-Advanced :
        (msg : Message) (w : ℕ) (s : S)
        → length (be.write_u64 (len msg)) ≡ 8
        → w ≤ 8
        → Advanced be stream s
            (remaining be (transport_hdr msg w))
            (write_transport_hdr stream be msg w s)
    unfolding write_transport_hdr slice_from
    write_transport_hdr-Advanced msg w s eight h =
        let hdr = be.write_u64 (len msg) in
        let joined = drop-append_in w hdr (msg.header ++ msg.body) (omega arith) in
        subst (Advanced be stream s (remaining be (transport_hdr msg w)))
          (sym (
            slice_from-in_range hdr w
              (λ left. write_frame stream left msg.header msg.body >>= λ n.
                success (after_transport_hdr msg (w + n)))
              s (omega arith)))
          (then-Advanced s (remaining be (transport_hdr msg w))
            (write_frame stream (drop w hdr) msg.header msg.body s)
            (λ n. after_transport_hdr msg (w + n))
            (write_frame-Wrote (drop w hdr) msg.header msg.body s)
            (λ n. rw (← joined, drop-drop w n (frame be msg)) (frame_left be msg (w + n) eight)))

    pub write_protocol_hdr-Advanced :
        (msg : Message) (w : ℕ) (s : S)
        → w ≤ length msg.header
        → Advanced be stream s
            (remaining be (protocol_hdr msg w))
            (write_protocol_hdr stream msg w s)
    unfolding write_protocol_hdr slice_from
    write_protocol_hdr-Advanced msg w s h =
        let joined = drop-append_in w msg.header msg.body h in
        subst (Advanced be stream s (remaining be (protocol_hdr msg w)))
          (sym (
            slice_from-in_range msg.header w
              (λ left. write_buffers stream (left ∷ msg.body ∷ []) >>= λ n.
                success (after_protocol_hdr msg (w + n)))
              s h))
          (then-Advanced s (remaining be (protocol_hdr msg w))
            (write_buffers stream (drop w msg.header ∷ msg.body ∷ []) s)
            (λ n. after_protocol_hdr msg (w + n))
            (rw (append_nil msg.body) at
              (write_buffers-Wrote (drop w msg.header ∷ msg.body ∷ []) s))
            (λ n.
              rw (← joined, drop-drop w n (msg.header ++ msg.body)) (header_left be msg (w + n))))

    pub write_usr_payload-Advanced :
        (msg : Message) (w : ℕ) (s : S)
        → w ≤ length msg.body
        → Advanced be stream s (remaining be (usr_payload msg w)) (write_usr_payload stream msg w s)
    unfolding write_usr_payload slice_from
    write_usr_payload-Advanced msg w s h =
        subst (Advanced be stream s (remaining be (usr_payload msg w)))
          (sym (
            slice_from-in_range msg.body w
              (λ left. write_buffer stream left >>= λ n. success (after_usr_payload msg (w + n))) s
              h))
          (then-Advanced s (remaining be (usr_payload msg w))
            (write_buffer stream (drop w msg.body) s) (λ n. after_usr_payload msg (w + n))
            (write_buffer-Wrote (drop w msg.body) s)
            (λ n. rw (drop-drop w n msg.body) (payload_left be msg (w + n))))
