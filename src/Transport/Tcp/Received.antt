-- ===== src/Transport/Tcp/Received.antt =====
-- src/transport/tcp/recv.rs: what each step of a receive operation has read.
use scaproust.Prelude.{
  ℕ, zero, suc, ◌+◌, ◌-◌, ◌^◌, ◌≡◌, ◌≤◌, ◌<◌, ◌⊎◌, refl, sym, ap, ◌∙◌, inl, inr, Bool, true, false,
  ◌&&◌, List, [], ◌++◌, length, take, arith, ltb, leb, ◌==◌, ==_iff, Bool-cases,
}
use scaproust.Core.Message.{from_body}
use scaproust.Core.Bytes.{ByteOrder, IsByteOrder}
use scaproust.Core.Context.{IoError}
use scaproust.Transport.Slices.{append_assoc, cut_once, fill, take-fill, length-fill, fill-whole}
use scaproust.Transport.Io.{
  Ran, success, failure, and_then, is_would_block, ReadStream, IsReadStream, Gave, gave, withheld,
}
use scaproust.Transport.Tcp.Recv.{
  RecvOperationStep, header, payload, terminal, zeroes, nothing_yet, allocate, after_header,
  after_payload, read_into, read_header, read_payload,
}

-- A length that a vector can have and the limit allows; the limit 0 allows all.
pub record Fits (max_size msg_len : ℕ) : Type 0 where
  pub allowed : (max_size ≡ 0) ⊎ (msg_len ≤ max_size)
  pub small : msg_len < 2 ^ 63

-- What a step has read, and then the stream's bytes, are what is expected: the length of the bytes `bs` on
-- eight bytes, these bytes, and what follows.
abbrev pub HasRead : ByteOrder → List ℕ → List ℕ → List ℕ → RecvOperationStep → Type 0
HasRead be bs rest pending (header buffer read max_size) =
    (length buffer ≡ 8)
    × (read ≤ 8)
    × Fits max_size (length bs)
    × (take read buffer ++ pending ≡ be.write_u64 (length bs) ++ (bs ++ rest))
HasRead be bs rest pending (payload buffer read) =
    (length buffer ≡ length bs) × (read ≤ length bs) × (take read buffer ++ pending ≡ bs ++ rest)
HasRead be bs rest pending (terminal msg) = (msg ≡ from_body bs) × (pending ≡ rest)

abbrev pub IsOpen : RecvOperationStep → Type 0
IsOpen (terminal msg) = ⊥
IsOpen _ = Unit {0}

nothing_yet-Gave :
    {S : Type 0} (stream : ReadStream S) (s : S) (room : ℕ) (r : Ran S (List ℕ))
    → Gave stream s room r
    → Gave stream s room (nothing_yet r)
unfolding nothing_yet
nothing_yet-Gave stream s room _ (gave bytes s' h e) = gave bytes s' h e
nothing_yet-Gave stream s room _ (withheld e s' same) = elim (Bool-cases (is_would_block e.kind)) [
  | inl blocks ↦ rw blocks (gave [] s' (omega arith) (sym same))
  | inr fails ↦ rw fails (withheld e s' same)
]

pub length-zeroes : (n : ℕ) → length (zeroes n) ≡ n
unfolding zeroes
length-zeroes zero = refl
length-zeroes (suc n) = ap suc (length-zeroes n)

read_into-Gave :
    {S : Type 0} (stream : ReadStream S) (laws : IsReadStream stream) (buffer : List ℕ) (read : ℕ)
    (s : S)
    → read ≤ length buffer
    → Gave stream s (length buffer - read) (read_into stream buffer read s)
unfolding read_into
read_into-Gave stream laws buffer read s h =
    let inside : leb read (length buffer) ≡ true = ground arith in
    rw inside
      (nothing_yet-Gave stream s (length buffer - read) _ (laws.read-Gave (length buffer - read) s))

-- What an advance comes to. Only that of a header opens a payload; nothing else is said of an error
-- than that the stream has met it.
pub data Advanced {S : Type 0} (be : ByteOrder) (stream : ReadStream S) (bs rest : List ℕ)
    (opens : Bool) : Ran S (Bool × RecvOperationStep) → Type 0 where
  waiting :
      (next : RecvOperationStep) (s' : S)
      → IsOpen next
      → HasRead be bs rest (stream.pending s') next
      → Advanced be stream bs rest opens (success (false, next) s')
  opened :
      (buffer : List ℕ) (s' : S)
      → opens ≡ true
      → HasRead be bs rest (stream.pending s') (payload buffer 0)
      → Advanced be stream bs rest opens (success (true, payload buffer 0) s')
  ended :
      (s' : S)
      → stream.pending s' ≡ rest
      → Advanced be stream bs rest opens (success (true, terminal (from_body bs)) s')
  stopped : (e : IoError) (s' : S) → Advanced be stream bs rest opens (failure e s')

-- What was read, put into the buffer, extends it.
extended :
    (buffer : List ℕ) (read : ℕ) (bytes pending pending' expected : List ℕ)
    → read ≤ length buffer
    → take read buffer ++ pending ≡ expected
    → pending ≡ bytes ++ pending'
    → take (read + length bytes) (fill buffer read bytes) ++ pending' ≡ expected
extended buffer read bytes pending pending' expected h e f =
    ap (λ xs. xs ++ pending') (take-fill buffer read bytes h)
    ∙ append_assoc (take read buffer) bytes pending'
    ∙ (rw f at e)

-- A buffer that is full holds what is expected first.
filled :
    (buffer : List ℕ) (read : ℕ) (bytes pending' first after : List ℕ)
    → read + length bytes ≡ length buffer
    → length buffer ≡ length first
    → take (read + length bytes) (fill buffer read bytes) ++ pending' ≡ first ++ after
    → (fill buffer read bytes ≡ first) × (pending' ≡ after)
filled buffer read bytes pending' first after full size e =
    let whole = fill-whole buffer read bytes full in
    let taken = take-fill buffer read bytes (omega arith) in
    let same : take (read + length bytes) (fill buffer read bytes) ≡ fill buffer read bytes = cc in
    cut_once (fill buffer read bytes) pending' first after
      (omega (arith, length-fill buffer read bytes (omega arith))) (rw same at e)

module _ {S : Type 0} (be : ByteOrder) (stream : ReadStream S) (bs rest : List ℕ) where
  allocated :
      (s' : S)
      → length bs < 2 ^ 63
      → stream.pending s' ≡ bs ++ rest
      → Advanced be stream bs rest true
          (and_then (allocate (length bs) s') (λ buffer. success (true, payload buffer 0)))
  unfolding allocate
  allocated s' small e =
      let fits : leb (2 ^ 63) (length bs) ≡ false = ground arith in
      rw fits (opened (zeroes (length bs)) s' refl (length-zeroes (length bs), omega arith, e))

  after_header-Advanced :
      (buffer : List ℕ) (read max_size : ℕ) (s' : S)
      → IsByteOrder be
      → length buffer ≡ 8
      → read ≤ 8
      → Fits max_size (length bs)
      → take read buffer ++ stream.pending s' ≡ be.write_u64 (length bs) ++ (bs ++ rest)
      → (read ≡ 8 → (buffer ≡ be.write_u64 (length bs)) × (stream.pending s' ≡ bs ++ rest))
      → Advanced be stream bs rest true (after_header be buffer read max_size s')
  unfolding after_header
  after_header-Advanced buffer read max_size s' order size h fits e whole =
      elim (Bool-cases (read == 8)) [
        | inr more ↦ rw more (waiting (header buffer read max_size) s' tt (size, h, fits, e))
        | inl full ↦
            (let (same, after) = whole ((==_iff read 8).0 full) in
              let small = fits.small in
              let value : be.read_u64 buffer ≡ length bs =
                rw same (order.read_u64-write_u64 (length bs) (omega arith)) in
              let under : (ltb 0 max_size && ltb max_size (length bs)) ≡ false =
                ground (arith, fits.allowed) in
              rw (full, value, under) (allocated s' small after))
      ]

  after_payload-Advanced :
      (buffer : List ℕ) (read : ℕ) (s' : S)
      → length buffer ≡ length bs
      → read ≤ length bs
      → take read buffer ++ stream.pending s' ≡ bs ++ rest
      → (read ≡ length bs → (buffer ≡ bs) × (stream.pending s' ≡ rest))
      → Advanced be stream bs rest false (success (after_payload buffer read) s')
  unfolding after_payload
  after_payload-Advanced buffer read s' size h e whole = elim (Bool-cases (read == length buffer)) [
    | inr more ↦ rw more (waiting (payload buffer read) s' tt (size, h, e))
    | inl full ↦
        (let (same, after) = whole ((==_iff read (length buffer)).0 full ∙ size) in
          rw (full, same) (ended s' after))
  ]

  module _ (laws : IsReadStream stream) where
    -- A read of a step, and what the code makes of the bytes.
    read-Advanced :
        (opens : Bool) (buffer : List ℕ) (read : ℕ) (s : S)
        (after : List ℕ → S → Ran S (Bool × RecvOperationStep))
        → read ≤ length buffer
        → ((bytes : List ℕ) (s' : S)
            → read + length bytes ≤ length buffer
            → stream.pending s ≡ bytes ++ stream.pending s'
            → Advanced be stream bs rest opens (after bytes s'))
        → Advanced be stream bs rest opens (and_then (read_into stream buffer read s) after)
    read-Advanced opens buffer read s after h each =
        go (read_into stream buffer read s) (read_into-Gave stream laws buffer read s h)
      where
        go :
            (r : Ran S (List ℕ))
            → Gave stream s (length buffer - read) r
            → Advanced be stream bs rest opens (and_then r after)
        go _ (gave bytes s' room e) = each bytes s' (omega arith) e
        go _ (withheld e s' same) = stopped e s'

    pub read_header-Advanced :
        (buffer : List ℕ) (read max_size : ℕ) (s : S)
        → IsByteOrder be
        → HasRead be bs rest (stream.pending s) (header buffer read max_size)
        → Advanced be stream bs rest true (read_header stream be buffer read max_size s)
    unfolding read_header
    read_header-Advanced buffer read max_size s order (size, h, fits, e) =
        read-Advanced true buffer read s _ (omega arith) (λ bytes s' room f.
          let more =
            extended buffer read bytes (stream.pending s) (stream.pending s') _ (omega arith) e f in
          after_header-Advanced (fill buffer read bytes) (read + length bytes) max_size s' order
            (length-fill buffer read bytes room ∙ size) (omega arith) fits more
            (λ full.
              filled buffer read bytes (stream.pending s') _ _ (full ∙ sym size)
                (size ∙ sym (order.length-write_u64 (length bs))) more))

    pub read_payload-Advanced :
        (buffer : List ℕ) (read : ℕ) (s : S)
        → HasRead be bs rest (stream.pending s) (payload buffer read)
        → Advanced be stream bs rest false (read_payload stream buffer read s)
    unfolding read_payload
    read_payload-Advanced buffer read s (size, h, e) =
        read-Advanced false buffer read s _ (omega arith) (λ bytes s' room f.
          let more =
            extended buffer read bytes (stream.pending s) (stream.pending s') _ (omega arith) e f in
          after_payload-Advanced (fill buffer read bytes) (read + length bytes) s'
            (length-fill buffer read bytes room ∙ size) (omega arith) more
            (λ full. filled buffer read bytes (stream.pending s') _ _ (full ∙ sym size) size more))
