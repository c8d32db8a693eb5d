-- ===== src/Proto/Rep/Trace.antt =====
-- src/proto/rep.rs, `raw_msg_to_msg`: what becomes of the bytes of a request.
use scaproust.Prelude.{
  ℕ, zero, suc, ◌+◌, ◌*◌, ◌%◌, ◌^◌, ◌≡◌, ◌≤◌, refl, sym, ap, subst, ◌∙◌, inl, inr, true, some, List,
  [], ◌∷◌, ◌++◌, length, arith, Bool-cases, length-append,
}
use scaproust.Core.Message.{Message, from_header_and_body}
use scaproust.Core.Bytes.{ByteOrder}
use scaproust.Proto.Rep.Route.{ends_route, trace}
use scaproust.Proto.Rep.Inner.{Inner, raw_msg_to_msg}

-- The bytes are those of the request, split at most `4 * hops` bytes further on, and the last word
-- of the header is the one that ends the way.
pub record Traced (hops : ℕ) (header body : List ℕ) (m : Message) : Type 0 where
  conserved : m.header ++ m.body ≡ header ++ body
  pub bounded : length m.header ≤ length header + 4 * hops
  pub ended :
      (before : List ℕ) × (a : ℕ) × (b : ℕ) × (c : ℕ) × (d : ℕ) × (m.header
        ≡ before ++ (a ∷ b ∷ c ∷ d ∷ []))
      × (ends_route a ≡ true)

append_assoc : (xs ys zs : List ℕ) → (xs ++ ys) ++ zs ≡ xs ++ (ys ++ zs)
append_assoc [] ys zs = refl
append_assoc (x ∷ xs) ys zs = ap (◌∷◌ x) (append_assoc xs ys zs)

trace-Traced :
    (hops : ℕ) (header body : List ℕ) (m : Message)
    → trace hops header body ≡ some m
    → Traced hops header body m
unfolding trace
trace-Traced zero header body m e = absurd (cc)
trace-Traced (suc hops) header [] m e = absurd (cc)
trace-Traced (suc hops) header (a ∷ []) m e = absurd (cc)
trace-Traced (suc hops) header (a ∷ b ∷ []) m e = absurd (cc)
trace-Traced (suc hops) header (a ∷ b ∷ c ∷ []) m e = absurd (cc)
trace-Traced (suc hops) header (a ∷ b ∷ c ∷ d ∷ tail) m e =
    let word : List ℕ = a ∷ b ∷ c ∷ d ∷ [] in
    let four : length (header ++ word) ≡ length header + 4 = length-append header word in
    let assoc = append_assoc header word tail in
    elim (Bool-cases (ends_route a)) [
      | inl last ↦
          (let same : from_header_and_body (header ++ word) tail ≡ m =
              some_inj (sym (rw last) ∙ e) in
            subst (Traced (suc hops) header (a ∷ b ∷ c ∷ d ∷ tail)) same (record {
              conserved = assoc;
              bounded = omega (arith, four);
              ended = (header, a, b, c, d, refl, last);
            }))
      | inr more ↦
          (let t = trace-Traced hops (header ++ word) tail m (sym (rw more) ∙ e) in
            record {
              conserved = t.conserved ∙ assoc;
              bounded = omega (arith, t.bounded, four);
              ended = t.ended;
            })
    ]
  where
    some_inj : {u v : Message} → some u ≡ some v → u ≡ v
    some_inj q = cc q

-- A message that a reply socket accepts has all the bytes of the request, the number of its
-- endpoint put before its body; the header ends in a word with the top bit set, and is no longer than the
-- header that came, that number and `ttl` words.
pub raw_msg_to_msg-Traced :
    (be : ByteOrder) (inner : Inner) (raw : Message) (eid : ℕ) (m : Message)
    → raw_msg_to_msg be inner raw eid ≡ some m
    → Traced inner.ttl (raw.header ++ be.write_u32 (eid % 2 ^ 32)) raw.body m
unfolding raw_msg_to_msg
raw_msg_to_msg-Traced be inner raw eid m e =
    trace-Traced inner.ttl (raw.header ++ be.write_u32 (eid % 2 ^ 32)) raw.body m e
