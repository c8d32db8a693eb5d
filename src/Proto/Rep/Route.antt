-- ===== src/Proto/Rep/Route.antt =====
-- src/proto/rep.rs, `raw_msg_to_msg` and `msg_to_raw_msg`: the way of a request is kept as a header,
-- the pipe it came by first, and takes its reply back.
use Prim.Native.Nat.{bit_and}
use scaproust.Prelude.{
  ℕ, zero, suc, Bool, not, Option, none, some, List, [], ◌∷◌, ◌++◌, length, take, drop, ltb, ◌==◌,
  if◌then◌else◌,
}
use scaproust.Core.Message.{Message, from_header_and_body}
use scaproust.Core.Bytes.{ByteOrder}

-- `byte & 0x80 != 0`: the word that starts with the byte is the identifier of the request.
unfoldable pub ends_route : ℕ → Bool
ends_route byte = not (bit_and byte 0x80 == 0)

-- The loop of `raw_msg_to_msg`, on the number of hops left. Four bytes go from the body to the header
-- in each; `header[header.len() - 4]` is the first of them.
unfoldable pub trace : ℕ → List ℕ → List ℕ → Option Message
trace zero header body = none
trace (suc hops) header (a ∷ b ∷ c ∷ d ∷ tail) =
    let header' = header ++ (a ∷ b ∷ c ∷ d ∷ []) in
    let further = trace hops header' tail in
    if ends_route a then some (from_header_and_body header' tail) else further
trace (suc hops) header _ = none

-- `split_off(4)` of a header, and the identifier that its first four bytes are.
unfoldable pub next_hop : ByteOrder → List ℕ → List ℕ → Option (Message × ℕ)
next_hop be header body =
    if ltb (length header) 4
    then none
    else some (from_header_and_body (drop 4 header) body, be.read_u32 (take 4 header))
