-- ===== src/Transport/Tcp/Remaining.antt =====
-- src/transport/tcp/send.rs: what each step of a send operation has still to write.
use scaproust.Prelude.{
  ℕ, ◌+◌, ◌-◌, ◌≡◌, ◌≤◌, ◌<◌, ◌⊎◌, refl, sym, ap, ◌∙◌, inl, inr, Bool, true, false, List, [], ◌++◌,
  length, drop, arith, ltb, Bool-cases, length-append,
}
use scaproust.Core.Message.{Message, len}
use scaproust.Core.Bytes.{ByteOrder}
use scaproust.Transport.Slices.{length-drop, drop-all, drop-append_in, drop-append_past}
use scaproust.Transport.Tcp.Send.{
  SendOperationStep, transport_hdr, protocol_hdr, usr_payload, terminal, is_terminal,
  after_transport_hdr, after_protocol_hdr, after_usr_payload,
}

-- The frame of a message.
abbrev pub frame : ByteOrder → Message → List ℕ
frame be msg = be.write_u64 (len msg) ++ (msg.header ++ msg.body)

-- What is still to be written.
abbrev pub remaining : ByteOrder → SendOperationStep → List ℕ
remaining be (transport_hdr msg written) =
    drop written (be.write_u64 (len msg)) ++ (msg.header ++ msg.body)
remaining be (protocol_hdr msg written) = drop written msg.header ++ msg.body
remaining be (usr_payload msg written) = drop written msg.body
remaining be terminal = []

abbrev pub InRange : SendOperationStep → Type 0
InRange (transport_hdr msg written) = written ≤ 8
InRange (protocol_hdr msg written) = written ≤ length msg.header
InRange (usr_payload msg written) = written ≤ length msg.body
InRange terminal = Unit {0}

-- A step that has `rest` to write; it has passed just if nothing is left.
pub record Follows (be : ByteOrder) (rest : List ℕ) (p : Bool × SendOperationStep) : Type 0 where
  pub in_range : InRange p.1
  pub left : remaining be p.1 ≡ rest
  pub over :
      ((p.0 ≡ true) × (is_terminal p.1 ≡ true) × (rest ≡ []))
      ⊎ ((p.0 ≡ false) × (is_terminal p.1 ≡ false) × (0 < length rest))

pub payload_left :
    (be : ByteOrder) (msg : Message) (w : ℕ)
    → Follows be (drop w msg.body) (after_usr_payload msg w)
unfolding after_usr_payload is_terminal
payload_left be msg w = elim (Bool-cases (ltb w (length msg.body))) [
  | inl more ↦ rw more (record {
    in_range = ground arith;
    left = refl;
    over = inr (refl, refl, ground (arith, length-drop w msg.body));
  })
  | inr none_left ↦ rw none_left (record {
    in_range = tt;
    left = sym (drop-all w msg.body (ground arith));
    over = inl (refl, refl, drop-all w msg.body (ground arith));
  })
]

past :
    (n : ℕ) (xs ys : List ℕ)
    → length xs ≤ n
    → (m : ℕ) → n ≡ length xs + m
    → drop n (xs ++ ys) ≡ drop m ys
past n xs ys h m e = drop-append_past n xs ys h ∙ ap (λ k. drop k ys) (omega (arith, e))

pub header_left :
    (be : ByteOrder) (msg : Message) (w : ℕ)
    → Follows be (drop w (msg.header ++ msg.body)) (after_protocol_hdr msg w)
unfolding after_protocol_hdr is_terminal
header_left be msg w =
    let size = length-append msg.header msg.body in
    let rest = length-drop w (msg.header ++ msg.body) in
    elim (Bool-cases (ltb w (length msg.header))) [
      | inl more ↦ rw more (record {
        in_range = ground arith;
        left = sym (drop-append_in w msg.header msg.body (ground arith));
        over = inr (refl, refl, ground (arith, size, rest));
      })
      | inr past_header ↦
          (let from : length msg.header ≤ w = ground arith in
            elim (Bool-cases (ltb w (length msg.header + length msg.body))) [
              | inl more ↦
                  rw (past_header, more)
                    (record {
                      in_range = ground arith;
                      left = sym (drop-append_past w msg.header msg.body from);
                      over = inr (refl, refl, ground (arith, size, rest));
                    })
              | inr none_left ↦
                  rw (past_header, none_left)
                    (record {
                      in_range = tt;
                      left = sym (drop-all w (msg.header ++ msg.body) (ground (arith, size)));
                      over =
                          inl (
                            refl,
                            refl,
                            drop-all w (msg.header ++ msg.body) (ground (arith, size)),
                          );
                    })
            ])
    ]

pub frame_left :
    (be : ByteOrder) (msg : Message) (w : ℕ)
    → length (be.write_u64 (len msg)) ≡ 8
    → Follows be (drop w (frame be msg)) (after_transport_hdr msg w)
unfolding after_transport_hdr is_terminal
frame_left be msg w eight =
    let inner = length-append msg.header msg.body in
    let size = length-append (be.write_u64 (len msg)) (msg.header ++ msg.body) in
    let rest = length-drop w (frame be msg) in
    elim (Bool-cases (ltb w 8)) [
      | inl more ↦ rw more (record {
        in_range = ground arith;
        left =
            sym (drop-append_in w (be.write_u64 (len msg)) (msg.header ++ msg.body) (ground arith));
        over = inr (refl, refl, ground (arith, size, rest));
      })
      | inr past_length ↦
          (let from : 8 ≤ w = ground arith in
            let skip : drop w (frame be msg) ≡ drop (w - 8) (msg.header ++ msg.body) =
              past w (be.write_u64 (len msg)) (msg.header ++ msg.body) (omega arith) (w - 8)
                (omega arith) in
            elim (Bool-cases (ltb w (8 + length msg.header))) [
              | inl more ↦
                  rw (past_length, more)
                    (record {
                      in_range = ground arith;
                      left = sym (skip ∙ drop-append_in (w - 8) msg.header msg.body (ground arith));
                      over = inr (refl, refl, ground (arith, size, inner, rest));
                    })
              | inr past_header ↦
                  (let under : 8 + length msg.header ≤ w = ground arith in
                    elim (Bool-cases (ltb w (8 + length msg.header + length msg.body))) [
                      | inl more ↦
                          rw (past_length, past_header, more)
                            (record {
                              in_range = ground arith;
                              left = sym (
                                  skip
                                  ∙ past (w - 8) msg.header msg.body (omega arith)
                                      (w - (8 + length msg.header)) (omega arith));
                              over = inr (refl, refl, ground (arith, size, inner, rest));
                            })
                      | inr none_left ↦
                          rw (past_length, past_header, none_left)
                            (record {
                              in_range = tt;
                              left = sym (drop-all w (frame be msg) (ground (arith, size, inner)));
                              over = inl (
                                refl,
                                refl,
                                drop-all w (frame be msg) (ground (arith, size, inner)),
                              );
                            })
                    ])
            ])
    ]
