-- ===== src/Proto/Policy/Wakeup.antt =====
-- src/proto/policy.rs: the choice after an endpoint becomes ready where none was.
use scaproust.Prelude.{
  ℕ, ◌≡◌, sym, ap, ◌∙◌, inl, inr, true, false, Option, some, Outcome, ok, arith, get_elem?, ◌==◌,
  ==_iff, Bool-cases, get_elem?-lt, get_elem?-in_range,
}
use scaproust.Core.Context.{World, Action, act}
use scaproust.Proto.Priolist.{Item, Priolist, peek}
use scaproust.Proto.Priolist.Activate.{Marks}
use scaproust.Proto.Pipes.{PipeCollection}
use scaproust.Proto.Policy.Covered.{IsCovered, IsBest, Chosen, nothing, chosen}
use scaproust.Proto.Policy.Upkeep.{unready-inactive}

-- The list holds the endpoint.
abbrev pub Holds : Priolist → ℕ → Type 0
Holds l id = (j : ℕ) × (x : Item) × (get_elem? l.items j ≡ some x) × (x.value ≡ id)

-- After the endpoint is activated, some endpoint is ready.
marked-ready :
    (l l' : Priolist) (id : ℕ) (ps : PipeCollection)
    → IsCovered l' ps
    → Marks l id true l'
    → Holds l id
    → peek l' ≡ false
    → ⊥
marked-ready l l' id ps c (same, marks) (j, x, e, value) off =
    let (y, f) = get_elem?-in_range l'.items j (omega (arith, get_elem?-lt l.items j x e)) in
    let (z, g, eq) = marks j y f in
    let known : x ≡ z = cc (sym e ∙ g) in
    unready-inactive l' j y c.valid off f (ground (arith, ==_iff z.value id))

-- Where none was ready, the best of the list is the one activated.
marked-best :
    (l l' : Priolist) (id k : ℕ) (ps : PipeCollection)
    → IsCovered l ps
    → peek l ≡ false
    → Marks l id true l'
    → IsBest l' k
    → k ≡ id
marked-best l l' id k ps c off (_, marks) (i, y, e, value, on, _) =
    let (z, g, eq) = marks i y e in
    elim (Bool-cases (z.value == id)) [
      | inl named ↦ ground (arith, ==_iff z.value id)
      | inr other ↦ absurd (unready-inactive l i z c.valid off g (ground arith))
    ]

-- So what waits for an endpoint goes to the one that becomes ready.
pub woken-Chosen :
    (l l' : Priolist) (id : ℕ) (ps : PipeCollection) (w : World) (action : ℕ → Action)
    (o : Outcome (Option ℕ × Priolist × World))
    → IsCovered l ps
    → IsCovered l' ps
    → peek l ≡ false
    → Marks l id true l'
    → Holds l id
    → Chosen l' ps w action o
    → (l'' : Priolist) × (o ≡ ok (some id, l'', act (action id) w))
woken-Chosen l l' id ps w action _ c c' off m held (nothing off') =
    absurd (marked-ready l l' id ps c' m held off')
woken-Chosen l l' id ps w action _ c c' off m held (chosen k l'' best _) =
    let same : k ≡ id = marked-best l l' id k ps c off m best in
    (l'', ap (λ (n : ℕ). ok (some n, l'', act (action n) w)) same)
