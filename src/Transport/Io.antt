-- ===== src/Transport/Io.antt =====
-- The streams of the crates mio and iovec, which the code calls and does not contain: what a read or
-- a write does is a parameter, and what it is documented to do a record of laws. A call that uses a
-- stream may also panic, and a loop may run out of the fuel that it is given.
use scaproust.Prelude.{
  ℕ, ◌≡◌, ◌≤◌, ◌⊎◌, ap, Bool, true, false, List, [], ◌∷◌, ◌++◌, length, take, drop, arith, leb,
  if◌then◌else◌,
}
use scaproust.Core.Context.{IoError, ErrorKind, would_block}

pub data Ran (S A : Type 0) : Type 0 where
  success : A → S → Ran S A
  failure : IoError → S → Ran S A
  panicked out_of_fuel : Ran S A

-- `io::Result<A>` of a call on a state `S`.
abbrev pub Io : Type 0 → Type 0 → Type 0
Io S A = S → Ran S A

-- `?`: an error goes to the caller.
abbrev pub and_then : {S A B : Type 0} → Ran S A → (A → Io S B) → Ran S B
and_then (success a s) f = f a s
and_then (failure e s) f = failure e s
and_then panicked f = panicked
and_then out_of_fuel f = out_of_fuel

infixl 5 ◌>>=◌
abbrev pub ◌>>=◌ : {S A B : Type 0} → Io S A → (A → Io S B) → Io S B
m >>= f = λ s. and_then (m s) f

-- `&buffer[from..]`
unfoldable pub slice_from : {S : Type 0} → List ℕ → ℕ → Io S (List ℕ)
slice_from buffer from s =
    if leb from (length buffer) then success (drop from buffer) s else panicked

abbrev pub is_would_block : ErrorKind → Bool
is_would_block would_block = true
is_would_block _ = false

-- `write` and `write_bufs` tell how many bytes they took; `sent` is what the stream has taken so far.
pub record WriteStream (S : Type 0) : Type 0 where
  pub write : List ℕ → Io S ℕ
  pub write_bufs : List (List ℕ) → Io S ℕ
  pub sent : S → List ℕ

abbrev pub concat : List (List ℕ) → List ℕ
concat [] = []
concat (buffer ∷ buffers) = buffer ++ concat buffers

-- A write takes a prefix of the buffer, or fails and takes nothing.
pub data Took {S : Type 0} (stream : WriteStream S) (s : S) (buffer : List ℕ)
    : Ran S ℕ → Type 0 where
  took :
      (n : ℕ) (s' : S)
      → n ≤ length buffer
      → stream.sent s' ≡ stream.sent s ++ take n buffer
      → Took stream s buffer (success n s')
  refused :
      (e : IoError) (s' : S) → stream.sent s' ≡ stream.sent s → Took stream s buffer (failure e s')

pub record IsWriteStream {S : Type 0} (stream : WriteStream S) : Type 0 where
  pub write-Took : (buffer : List ℕ) (s : S) → Took stream s buffer (stream.write buffer s)
  pub write_bufs-Took :
      (buffers : List (List ℕ)) (s : S)
      → Took stream s (concat buffers) (stream.write_bufs buffers s)

-- A write of the code that came back with this error, which is not that it would block.
abbrev pub Failed : {S : Type 0} → WriteStream S → S → IoError → S → Type 0
Failed stream s e s' =
    (is_would_block e.kind ≡ false)
    × (((buffer : List ℕ) × (stream.write buffer s ≡ failure e s'))
        ⊎ ((buffers : List (List ℕ)) × (stream.write_bufs buffers s ≡ failure e s')))

-- A stream that is ready takes at least one byte of each write that has one.
pub record IsReady {S : Type 0} (stream : WriteStream S) (s : S) : Type 0 where
  pub write-takes :
      (buffer : List ℕ)
      → 1 ≤ length buffer
      → (n : ℕ) × (s' : S) × (stream.write buffer s ≡ success n s') × (1 ≤ n)
  pub write_bufs-takes :
      (buffers : List (List ℕ))
      → 1 ≤ length (concat buffers)
      → (n : ℕ) × (s' : S) × (stream.write_bufs buffers s ≡ success n s') × (1 ≤ n)

-- A read is given the length of the buffer and gives the bytes that it puts there; `pending` is what
-- is still to be read.
pub record ReadStream (S : Type 0) : Type 0 where
  pub read : ℕ → Io S (List ℕ)
  pub pending : S → List ℕ

pub data Gave {S : Type 0} (stream : ReadStream S) (s : S) (room : ℕ)
    : Ran S (List ℕ) → Type 0 where
  gave :
      (bytes : List ℕ) (s' : S)
      → length bytes ≤ room
      → stream.pending s ≡ bytes ++ stream.pending s'
      → Gave stream s room (success bytes s')
  withheld :
      (e : IoError) (s' : S)
      → stream.pending s' ≡ stream.pending s
      → Gave stream s room (failure e s')

pub record IsReadStream {S : Type 0} (stream : ReadStream S) : Type 0 where
  pub read-Gave : (room : ℕ) (s : S) → Gave stream s room (stream.read room s)

slice_from-at :
    {S : Type 0} (buffer : List ℕ) (from : ℕ) (s : S)
    → from ≤ length buffer
    → slice_from buffer from s ≡ success (drop from buffer) s
unfolding slice_from
slice_from-at buffer from s h = ground arith

pub slice_from-in_range :
    {S B : Type 0} (buffer : List ℕ) (from : ℕ) (k : List ℕ → Io S B) (s : S)
    → from ≤ length buffer
    → (slice_from buffer from >>= k) s ≡ k (drop from buffer) s
slice_from-in_range buffer from k s h = ap (λ r. and_then r k) (slice_from-at buffer from s h)
