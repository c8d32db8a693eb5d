-- ===== src/Proto/Priolist/Pop.antt =====
-- src/proto/priolist.rs: what popping returns.
use scaproust.Prelude.{
  ℕ, ◌≤◌, ◌≡◌, refl, subst, inl, inr, true, false, Option, none, some, List, arith, length,
  get_elem?, ok, Bool-cases, get_elem?-lt, get_elem?-set_cases, get_elem?-set_self, length-set,
  Outcome, dec_lt,
}
use mathlib.Core.HLevel.{⊥_prop}
use mathlib.Core.Logic.{◌↔◌, ∥∥₁_elim}
use scaproust.Proto.Priolist.{Item, Priolist, set_index_active, value_at, compute_next, pop, peek}
use scaproust.Proto.Priolist.Find.{
  NoneBetween, BestFrom, NextFrom, compute_next-NextFrom, NextFrom-BestFrom,
}
use scaproust.Proto.Priolist.Invariant.{IsValid}
use scaproust.Proto.Priolist.Activate.{with_active, with_active-IsValid}

-- Deactivating an item makes none active.
pub deactivate-NoneBetween :
    (items : List Item) (i : ℕ) (x : Item) (hi : ℕ)
    → get_elem? items i ≡ some x
    → NoneBetween items 0 hi
    → NoneBetween (with_active items i x false) 0 hi
deactivate-NoneBetween items i x hi e between j y f on lo up =
    elim (get_elem?-set_cases items i j _ y (get_elem?-lt items i x e) f) [
      | inl (same, g) ↦ absurd (cc)
      | inr (other, g) ↦ between j y g on lo up
    ]

NoneBetween-join :
    (items : List Item) (mid hi : ℕ)
    → NoneBetween items 0 mid
    → NoneBetween items mid hi
    → NoneBetween items 0 hi
NoneBetween-join items mid hi f g j y e on lo up = elim (dec_lt y.priority mid) [
  | yes h ↦ f j y e on lo h
  | no h ↦ g j y e on (omega arith) up
]

pub BestFrom-zero :
    (items : List Item) (q : ℕ) (c : Option (ℕ × ℕ))
    → NoneBetween items 0 q
    → BestFrom items q c
    → BestFrom items 0 c
BestFrom-zero items q none below best = NoneBetween-join items q 17 below best
BestFrom-zero items q (some (i, r)) below (le, at, between) =
    (omega arith, at, NoneBetween-join items q r below between)

-- The current item, deactivated, is followed by the one that `compute_next` selects.
pub deactivate-current :
    (l : Priolist) (i : ℕ) (x : Item)
    → IsValid l
    → get_elem? l.items i ≡ some x
    → l.current ≡ some (i, x.priority)
    → (c : Option (ℕ × ℕ)) × (compute_next (with_active l.items i x false) i x.priority ≡ ok c)
      × NextFrom (with_active l.items i x false) i x.priority c
      × IsValid (record { items = with_active l.items i x false; current = c })
deactivate-current l i x v e cur =
    let items' = with_active l.items i x false in
    let in_range : i ≤ length items' =
      omega
        (arith, length-set l.items i (record x { active = false }), get_elem?-lt l.items i x e) in
    let (c, eq, next) = compute_next-NextFrom items' i x.priority in_range (v.bounded i x e) in
    let old : BestFrom l.items 0 (some (i, x.priority)) = subst (BestFrom l.items 0) cur v.best in
    (
      c,
      eq,
      next,
      with_active-IsValid l i x false c v e (
          BestFrom-zero items' x.priority c (deactivate-NoneBetween l.items i x x.priority e old.2)
            (NextFrom-BestFrom items' i x.priority c next)),
    )

-- The outcomes of `pop` on a valid list: nothing is active and nothing changes, or an active
-- endpoint of the best priority is returned and deactivated, and the next in turn is current.
pub data PopResult (l : Priolist) : Outcome (Option ℕ × Priolist) → Type 0 where
  empty :
      peek l ≡ false
      → ((j : ℕ) (y : Item) → get_elem? l.items j ≡ some y → y.active ≡ false)
      → PopResult l (ok (none, l))
  popped :
      (i : ℕ) (x : Item) (c : Option (ℕ × ℕ))
      → get_elem? l.items i ≡ some x
      → x.active ≡ true
      → ((j : ℕ) (y : Item)
          → get_elem? l.items j ≡ some y
          → y.active ≡ true
          → x.priority ≤ y.priority)
      → NextFrom (with_active l.items i x false) i x.priority c
      → IsValid (record { items = with_active l.items i x false; current = c })
      → PopResult l
          (ok (some x.value, record { items = with_active l.items i x false; current = c }))

peek-none : (l : Priolist) → l.current ≡ none → peek l ≡ false
unfolding peek
peek-none l e = rw e

pop-none : (l : Priolist) → l.current ≡ none → pop l ≡ ok (none, l)
unfolding pop
pop-none l e = rw e

pop-some :
    (l : Priolist) (i : ℕ) (x : Item) (c : Option (ℕ × ℕ))
    → get_elem? l.items i ≡ some x
    → l.current ≡ some (i, x.priority)
    → compute_next (with_active l.items i x false) i x.priority ≡ ok c
    → pop l ≡ ok (some x.value, record { items = with_active l.items i x false; current = c })
unfolding pop set_index_active value_at
pop-some l i x c e cur next =
    ground (
      arith,
      get_elem?-set_self l.items i (record x { active = false }) (get_elem?-lt l.items i x e),
    )

-- Every pop of a valid list either finds no endpoint active and changes nothing, or takes an
-- active endpoint of the best active priority, marks it inactive, and chooses the next from its
-- place on; the list stays valid.
pub pop-PopResult : (l : Priolist) → IsValid l → PopResult l (pop l)
pop-PopResult l v = go l.current refl v.best
  where
    go : (c : Option (ℕ × ℕ)) → l.current ≡ c → BestFrom l.items 0 c → PopResult l (pop l)
    go none e best = rw (pop-none l e) (
        empty (peek-none l e) λ j y f. elim (Bool-cases y.active) [
          | inl on ↦ absurd (best j y f on (omega arith) (omega (arith, v.bounded j y f)))
          | inr off ↦ off
        ])
    go (some (i, q)) e (le, (x, f, on, p), between) =
        let cur : l.current ≡ some (i, x.priority) = rw p e in
        let (c, eq, next, v') = deactivate-current l i x v f cur in
        rw (pop-some l i x c f cur eq) (
          popped i x c f on
            (λ j y g a. elim (dec_lt y.priority q) [
              | yes less ↦ absurd (between j y g a (omega arith) less)
              | no more ↦ omega arith
            ])
            next v')

-- On a valid list, `peek` is true just if some endpoint is active.
pub peek_iff :
    (l : Priolist)
    → IsValid l
    → (peek l ≡ true)
      ↔ (∥ ((j : ℕ) × (y : Item) × (get_elem? l.items j ≡ some y) × (y.active ≡ true)) ∥₁)
unfolding peek
peek_iff l v = go l.current refl v.best
  where
    go :
        (c : Option (ℕ × ℕ))
        → l.current ≡ c
        → BestFrom l.items 0 c
        → (peek l ≡ true)
          ↔ (∥ ((j : ℕ) × (y : Item) × (get_elem? l.items j ≡ some y) × (y.active ≡ true)) ∥₁)
    go none e best = (
      λ h. absurd (ground arith),
      λ t. absurd (
          ∥∥₁_elim t ⊥_prop
            (λ (j, y, f, on). best j y f on (omega arith) (omega (arith, v.bounded j y f)))),
    )
    go (some (i, q)) e (le, (x, f, on, p), between) = (λ h. ∣ (i, x, f, on) ∣₁, λ t. ground arith)
