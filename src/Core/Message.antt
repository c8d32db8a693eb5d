-- ===== src/Core/Message.antt =====
-- src/core/mod.rs: messages. A byte is a number below 256.
use scaproust.Prelude.{ℕ, ◌+◌, List, [], length}

pub record Message : Type 0 where
  pub header : List ℕ
  pub body : List ℕ

unfoldable pub from_body : List ℕ → Message
from_body body = record { header = []; body = body }

abbrev pub from_header_and_body : List ℕ → List ℕ → Message
from_header_and_body header body = record { header = header; body = body }

unfoldable pub len : Message → ℕ
len m = length m.header + length m.body

-- `split`: the two buffers.
abbrev pub split : Message → List ℕ × List ℕ
split m = (m.header, m.body)

unfoldable pub without_header : Message → Message
unfolding from_body
without_header m = from_body m.body
