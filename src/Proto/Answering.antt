-- ===== src/Proto/Answering.antt =====
-- A protocol of src/proto over any sequence of the calls of its trait, and the answers to its user:
-- what a valid protocol object keeps, and what a history of admissible calls is.
use scaproust.Prelude.{ℕ, ◌+◌, ◌≡◌, sym, subst, ◌∙◌, Outcome, ok, arith}
use scaproust.Core.Context.{World}
use scaproust.Core.Log.{replies}
use scaproust.Proto.Call.{Call}

-- The requests that a call makes.
abbrev pub requests : Call → ℕ
requests (Call.send msg timeout) = 1
requests (Call.recv timeout) = 1
requests _ = 0

module _ {P : Type 0} (IsValid : P → Type 0) (waiting_in : P → ℕ) where
  -- A call does not panic, keeps the socket valid, and loses no request and answers none twice.
  abbrev pub Keeps : World → ℕ → Outcome (P × World) → Type 0
  Keeps w owed r =
      (p' : P) × (w' : World) × (r ≡ ok (p', w'))
      × IsValid p'
      × (replies w'.log + waiting_in p' ≡ replies w.log + owed)

  pub Keeps-world :
      (w w' : World) (owed : ℕ) (r : Outcome (P × World))
      → replies w'.log ≡ replies w.log
      → Keeps w' owed r
      → Keeps w owed r
  Keeps-world w w' owed r same (p, w'', e, v, count) = (p, w'', e, v, omega arith)

  pub Keeps-owed :
      (w : World) (owed due : ℕ) (r : Outcome (P × World))
      → owed ≡ due
      → Keeps w owed r
      → Keeps w due r
  Keeps-owed w owed due r same (p, w', e, v, count) = (p, w', e, v, omega arith)

  -- What a call keeps holds of the result that it has.
  Keeps-determined :
      (w w' : World) (p' : P) (owed : ℕ) (r : Outcome (P × World))
      → r ≡ ok (p', w')
      → Keeps w owed r
      → IsValid p' × (replies w'.log + waiting_in p' ≡ replies w.log + owed)
  Keeps-determined w w' p' owed r e (q, u, f, v, count) =
      let same : ◌≡◌ {A = Outcome (P × World)} (ok (q, u)) (ok (p', w')) = sym f ∙ e in
      let both : ◌≡◌ {A = P × World} (q, u) (p', w') = cc same in
      subst
        (λ (s : P × World). IsValid s.0 × (replies s.1.log + waiting_in s.0 ≡ replies w.log + owed))
        both (v, count)

-- A history of calls, each admissible where it is made, with the number of requests made.
pub data Run {P : Type 0} (step : P → Call → World → Outcome (P × World))
    (Admissible : P → Call → Type 0) : P → World → P → World → ℕ → Type 0 where
  here : {p : P} {w : World} → Run step Admissible p w p w 0
  next :
      {p p' p'' : P} {w w' w'' : World} {n : ℕ} (c : Call)
      → Run step Admissible p w p' w' n
      → Admissible p' c
      → step p' c w' ≡ ok (p'', w'')
      → Run step Admissible p w p'' w'' (n + requests c)

module _ {P : Type 0} (IsValid : P → Type 0) (waiting_in : P → ℕ)
    (step : P → Call → World → Outcome (P × World)) (Admissible : P → Call → Type 0)
    (step-Keeps : (p : P) (c : Call) (w : World)
      → IsValid p
      → Admissible p c
      → Keeps IsValid waiting_in w (waiting_in p + requests c) (step p c w)) where
  -- What each call keeps, a history keeps.
  pub Run-answered :
      {p q : P} {w u : World} {n : ℕ}
      → IsValid p
      → Run step Admissible p w q u n
      → IsValid q × (replies u.log + waiting_in q ≡ replies w.log + waiting_in p + n)
  Run-answered v here = (v, omega arith)
  Run-answered v (next {p' = p'} {p'' = p''} {w' = w'} {w'' = w''} c run a e) =
      let (v', count) = Run-answered v run in
      let (v'', count') =
        Keeps-determined IsValid waiting_in w' w'' p'' _ (step p' c w') e
          (step-Keeps p' c w' v' a) in
      (v'', omega arith)
