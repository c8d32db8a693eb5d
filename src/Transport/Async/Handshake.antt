-- ===== src/Transport/Async/Handshake.antt =====
-- src/transport/async/stub.rs: what a side accepts as the handshake of its peer.
use scaproust.Prelude.{
  ℕ, ◌^◌, ◌≡◌, ◌≢◌, ◌<◌, ◌⊎◌, refl, sym, ap, ◌∙◌, inl, inr, false, List, [], ◌∷◌, ◌++◌, length,
  take, drop, arith, Bool-cases, length-append,
}
use scaproust.Core.Bytes.{ByteOrder, IsByteOrder, same_bytes, same_bytes_iff}
use scaproust.Core.Context.{invalid_data}
use scaproust.Transport.Slices.{fill, fill-whole, cut_once}
use scaproust.Transport.Io.{success, failure, and_then, ReadStream}
use scaproust.Transport.Async.Stub.{create_handshake, check_handshake, recv_and_check_handshake}

create_handshake-distinct :
    (be : ByteOrder) (a b : ℕ)
    → IsByteOrder be
    → a < 2 ^ 16
    → b < 2 ^ 16
    → create_handshake be a ≡ create_handshake be b
    → a ≡ b
unfolding create_handshake
create_handshake-distinct be a b order ha hb e =
    let tails : be.write_u16 a ++ (0 ∷ 0 ∷ []) ≡ be.write_u16 b ++ (0 ∷ 0 ∷ []) = ap (drop 4) e in
    let same =
      (cut_once (be.write_u16 a) (0 ∷ 0 ∷ []) (be.write_u16 b) (0 ∷ 0 ∷ [])
        (order.length-write_u16 a ∙ sym (order.length-write_u16 b)) tails).0 in
    sym (order.read_u16-write_u16 a ha) ∙ ap be.read_u16 same ∙ order.read_u16-write_u16 b hb

length-create_handshake :
    (be : ByteOrder) (id : ℕ) → IsByteOrder be → length (create_handshake be id) ≡ 8
unfolding create_handshake
length-create_handshake be id order =
    omega (arith, length-append (be.write_u16 id) (0 ∷ 0 ∷ []), order.length-write_u16 id)

-- The buffer that a read of `bytes` leaves.
abbrev buffered : List ℕ → List ℕ
buffered bytes = fill (0 ∷ 0 ∷ 0 ∷ 0 ∷ 0 ∷ 0 ∷ 0 ∷ 0 ∷ []) 0 bytes

checked :
    {S : Type 0} (be : ByteOrder) (stream : ReadStream S) (pids : ℕ × ℕ) (bytes shake : List ℕ)
    (s s' : S)
    → stream.read 8 s ≡ success bytes s'
    → buffered bytes ≡ shake
    → recv_and_check_handshake stream be pids s ≡ check_handshake be pids shake s'
unfolding recv_and_check_handshake
checked be stream pids bytes shake s s' e same =
    ap (λ r. and_then r (λ bytes. check_handshake be pids (buffered bytes))) e
    ∙ ap (λ h. check_handshake be pids h s') same

accepts :
    {S : Type 0} (be : ByteOrder) (pids : ℕ × ℕ) (s : S)
    → check_handshake be pids (create_handshake be pids.1) s ≡ success tt s
unfolding check_handshake
accepts be pids s =
    let same = (same_bytes_iff (create_handshake be pids.1) (create_handshake be pids.1)).1 refl in
    rw same refl

refuses :
    {S : Type 0} (be : ByteOrder) (pids : ℕ × ℕ) (shake : List ℕ) (s : S)
    → same_bytes shake (create_handshake be pids.1) ≡ false
    → check_handshake be pids shake s
      ≡ failure (record { kind = invalid_data; text = "received bad handshake" }) s
unfolding check_handshake
refuses be pids shake s e = rw e refl

-- Where the handshake of a peer arrives in one piece, and the protocols have 16 bits, it is accepted just if
-- the peer's protocol is the one that is expected.
pub recv_handshake-cases :
    {S : Type 0} (be : ByteOrder) (stream : ReadStream S) (pids : ℕ × ℕ) (peer : ℕ) (s s' : S)
    → IsByteOrder be
    → pids.1 < 2 ^ 16
    → peer < 2 ^ 16
    → stream.read 8 s ≡ success (create_handshake be peer) s'
    → ((peer ≡ pids.1) × (recv_and_check_handshake stream be pids s ≡ success tt s'))
      ⊎ ((peer ≢ pids.1)
          × (recv_and_check_handshake stream be pids s
              ≡ failure (record { kind = invalid_data; text = "received bad handshake" }) s'))
recv_handshake-cases be stream pids peer s s' order own other e =
    let shake = create_handshake be peer in
    let eight = length-create_handshake be peer order in
    let arrived =
      checked be stream pids shake shake s s' e
        (fill-whole (0 ∷ 0 ∷ 0 ∷ 0 ∷ 0 ∷ 0 ∷ 0 ∷ 0 ∷ []) 0 shake (omega (arith, eight))) in
    elim (Bool-cases (same_bytes shake (create_handshake be pids.1))) [
      | inl same ↦
          (let known : peer ≡ pids.1 =
              create_handshake-distinct be peer pids.1 order other own
                ((same_bytes_iff shake (create_handshake be pids.1)).0 same) in
            inl (
              known,
              arrived
                  ∙ ap (λ id. check_handshake be pids (create_handshake be id) s') known
                  ∙ accepts be pids s',
            ))
      | inr bad ↦ inr (
        λ known.
            (let same =
                (same_bytes_iff shake (create_handshake be pids.1)).1
                  (ap (create_handshake be) known) in
              absurd (cc (sym same ∙ bad))),
        arrived ∙ refuses be pids shake s' bad,
      )
    ]

two : (xs : List ℕ) → length xs ≡ 2 → (x : ℕ) × (y : ℕ) × (xs ≡ x ∷ y ∷ [])
two [] h = absurd (omega arith)
two (x ∷ []) h = absurd (omega arith)
two (x ∷ y ∷ []) h = (x, y, refl)
two (x ∷ y ∷ z ∷ xs) h = absurd (omega arith)

short-buffered :
    (be : ByteOrder) (id : ℕ)
    → IsByteOrder be
    → buffered (take 6 (create_handshake be id)) ≡ create_handshake be id
unfolding create_handshake
short-buffered be id order =
    let (x, y, e) = two (be.write_u16 id) (order.length-write_u16 id) in rw e refl

-- A handshake of which only six bytes have arrived is accepted like a whole one, and the two that follow are
-- left on the stream.
pub recv_handshake-short :
    {S : Type 0} (be : ByteOrder) (stream : ReadStream S) (pids : ℕ × ℕ) (s s' : S)
    → IsByteOrder be
    → stream.read 8 s ≡ success (take 6 (create_handshake be pids.1)) s'
    → recv_and_check_handshake stream be pids s ≡ success tt s'
recv_handshake-short be stream pids s s' order e =
    checked be stream pids (take 6 (create_handshake be pids.1)) (create_handshake be pids.1) s s' e
      (short-buffered be pids.1 order)
    ∙ accepts be pids s'
