-- ===== src/Proto/Req/Frame.antt =====
-- src/proto/req.rs, `encode` and `decode`: the request identifier travels in the last four bytes
-- of the header, and arrives as the first four of the body.
use scaproust.Prelude.{
  ℕ, Option, none, some, List, [], ◌∷◌, ◌++◌, ltb, length, take, drop, if◌then◌else◌,
}
use scaproust.Core.Message.{Message, from_header_and_body, split}
use scaproust.Core.Bytes.{ByteOrder}

unfoldable pub encode : ByteOrder → Message → ℕ → Message
encode be msg req_id = record msg { header = msg.header ++ be.write_u32 req_id }

-- `header = payload` where the header is empty, else `header.extend_from_slice(&payload)`.
abbrev extend_header : List ℕ → List ℕ → List ℕ
extend_header [] payload = payload
extend_header (b ∷ header) payload = (b ∷ header) ++ payload

unfoldable pub decode : ByteOrder → Message → Option (Message × ℕ)
decode be raw_msg =
    let (header, payload) = split raw_msg in
    let prefix = take 4 payload in
    if ltb (length raw_msg.body) 4
    then none
    else some
        (from_header_and_body (extend_header header prefix) (drop 4 payload), be.read_u32 prefix)
