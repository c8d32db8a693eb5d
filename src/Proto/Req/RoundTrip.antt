-- ===== src/Proto/Req/RoundTrip.antt =====
-- src/proto/req.rs, `encode` and `decode`: what is read back from the wire.
use scaproust.Prelude.{
  ℕ, ◌≡◌, ◌<◌, ◌^◌, ◌↔◌, ◌∙◌, inl, inr, none, some, List, [], ◌++◌, arith, ltb, length, take, drop,
  length-append, take-append, drop-append, Bool-cases,
}
use scaproust.Core.Message.{Message, from_body, from_header_and_body}
use scaproust.Core.Bytes.{ByteOrder, IsByteOrder}
use scaproust.Proto.Req.Frame.{encode, decode}

pub take-append_four {ℓ} : {A : Type ℓ} (xs ys : List A) → length xs ≡ 4 → take 4 (xs ++ ys) ≡ xs
take-append_four xs ys h = rw h at (take-append xs ys)

pub drop-append_four {ℓ} : {A : Type ℓ} (xs ys : List A) → length xs ≡ 4 → drop 4 (xs ++ ys) ≡ ys
drop-append_four xs ys h = rw h at (drop-append xs ys)

-- A message is refused by `decode` just if its body has no room for an identifier.
pub decode-none : (be : ByteOrder) (raw : Message) → (decode be raw ≡ none) ↔ (length raw.body < 4)
unfolding decode
decode-none be raw = (λ e. ground arith, λ h. ground arith)

pub decode-body :
    (be : ByteOrder) (xs ys : List ℕ)
    → length xs ≡ 4
    → decode be (from_body (xs ++ ys)) ≡ some (from_header_and_body xs ys, be.read_u32 xs)
unfolding decode from_body
decode-body be xs ys h = elim (Bool-cases (ltb (length (xs ++ ys)) 4)) [
  | inl short ↦ absurd (ground (arith, length-append xs ys))
  | inr long ↦ rw (long, take-append_four xs ys h, drop-append_four xs ys h)
]

-- With a lawful byte order and an identifier of 32 bits, a request without a header of its own,
-- written on the wire, its header before its body, and read there as a body alone, gives back the
-- identifier and the body.
pub decode-encode :
    (be : ByteOrder) (msg : Message) (req_id : ℕ)
    → IsByteOrder be
    → msg.header ≡ []
    → req_id < 2 ^ 32
    → decode be (from_body ((encode be msg req_id).header ++ (encode be msg req_id).body))
      ≡ some (from_header_and_body (be.write_u32 req_id) msg.body, req_id)
unfolding encode
decode-encode be msg req_id laws empty bound = rw empty (
    decode-body be (be.write_u32 req_id) msg.body (laws.length-write_u32 req_id)
    ∙ rw (laws.read_u32-write_u32 req_id bound))
