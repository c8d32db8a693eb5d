-- ===== src/Proto/Priolist/Remove.antt =====
-- src/proto/priolist.rs: removing an endpoint. `swap_remove` moves the last item into the gap, and
-- `current` follows only where it is the item removed.
use scaproust.Prelude.{
  ℕ, suc, ◌-◌, ◌≤◌, ◌<◌, ◌≡◌, ◌≢◌, sym, ap, subst, ◌∙◌, inl, inr, false, Option, none, some, List,
  arith, length, get_elem?, set, take, ok, Bool-cases, get_elem?-lt, get_elem?-set_cases,
  get_elem?-set_ne, get_elem?-take_lt, get_elem?-in_range, length-take, length-set, ℕ_discrete, ◌⊎◌,
}
use scaproust.Proto.Priolist.{
  Item, Priolist, swap_remove, is_current, renew_current, compute_next, remove_at_index,
}
use scaproust.Proto.Priolist.Find.{NoneBetween, BestFrom, compute_next-NextFrom, NextFrom-BestFrom}
use scaproust.Proto.Priolist.Invariant.{IsValid}
use scaproust.Proto.Priolist.Pop.{BestFrom-zero}
use scaproust.Proto.Priolist.Deactivate.{is_current-eq}

-- The items after the removal at an index, `last` being the last item.
abbrev pub swapped : List Item → ℕ → Item → List Item
swapped items i last = take (length items - 1) (set items i last)

-- The last item.
abbrev pub LastIs : List Item → Item → Type 0
LastIs items last = get_elem? items (length items - 1) ≡ some last

pub last_item :
    (items : List Item) (i : ℕ) (x : Item)
    → get_elem? items i ≡ some x
    → (last : Item) × LastIs items last
last_item items i x e =
    get_elem?-in_range items (length items - 1) (omega (arith, get_elem?-lt items i x e))

pub length-swapped :
    (items : List Item) (i : ℕ) (last : Item) → length (swapped items i last) ≡ length items - 1
length-swapped items i last =
    omega (arith, length-take (length items - 1) (set items i last), length-set items i last)

-- Every item that is left stood in the old list, at another index than the one removed.
pub swapped-origin :
    (items : List Item) (i : ℕ) (last x : Item) (j : ℕ) (y : Item)
    → get_elem? items i ≡ some x
    → LastIs items last
    → get_elem? (swapped items i last) j ≡ some y
    → (suc j < length items)
      × (((i ≡ j) × (get_elem? items (length items - 1) ≡ some y))
          ⊎ ((i ≢ j) × (get_elem? items j ≡ some y)))
swapped-origin items i last x j y e tail f =
    let short = get_elem?-lt (swapped items i last) j y f in
    let below : j < length items - 1 = omega (arith, short, length-swapped items i last) in
    let g : get_elem? (set items i last) j ≡ some y =
      sym (get_elem?-take_lt (length items - 1) (set items i last) j below) ∙ f in
    (
      omega arith,
      elim (get_elem?-set_cases items i j last y (get_elem?-lt items i x e) g) [
        | inl (same, h) ↦ inl (same, tail ∙ ap some (sym h))
        | inr (other, h) ↦ inr (other, h)
      ],
    )

-- An item at another index is left, and keeps its index unless it is the last.
pub swapped-keeps :
    (items : List Item) (i : ℕ) (last : Item) (j : ℕ) (y : Item)
    → get_elem? items j ≡ some y
    → i ≢ j
    → suc j < length items
    → get_elem? (swapped items i last) j ≡ some y
swapped-keeps items i last j y e other h =
    get_elem?-take_lt (length items - 1) (set items i last) j (omega arith)
    ∙ get_elem?-set_ne items i j last other
    ∙ e

swapped-NoneBetween :
    (items : List Item) (i : ℕ) (last x : Item) (lo hi : ℕ)
    → get_elem? items i ≡ some x
    → LastIs items last
    → NoneBetween items lo hi
    → NoneBetween (swapped items i last) lo hi
swapped-NoneBetween items i last x lo hi e tail between j y f on a b =
    elim (swapped-origin items i last x j y e tail f).1 [
      | inl (same, g) ↦ between (length items - 1) y g on a b
      | inr (other, g) ↦ between j y g on a b
    ]

swapped-IsValid :
    (l : Priolist) (i : ℕ) (last x : Item) (c : Option (ℕ × ℕ))
    → IsValid l
    → get_elem? l.items i ≡ some x
    → LastIs l.items last
    → BestFrom (swapped l.items i last) 0 c
    → IsValid (record { items = swapped l.items i last; current = c })
swapped-IsValid l i last x c v e tail best = record {
  bounded = λ j y f. elim (swapped-origin l.items i last x j y e tail f).1 [
    | inl (same, g) ↦ v.bounded _ y g
    | inr (other, g) ↦ v.bounded j y g
  ];
  distinct = λ j k y z f g same.
      let (a, from) = swapped-origin l.items i last x j y e tail f in
      let (b, to) = swapped-origin l.items i last x k z e tail g in
      elim from [
        | inl (p, f') ↦ elim to [
          | inl (q, g') ↦ omega arith
          | inr (q, g') ↦ absurd (omega (arith, v.distinct _ k y z f' g' same))
        ]
        | inr (p, f') ↦ elim to [
          | inl (q, g') ↦ absurd (omega (arith, v.distinct j _ y z f' g' same))
          | inr (q, g') ↦ v.distinct j k y z f' g' same
        ]
      ];
  best = best;
}

-- The endpoint stands before the last item, which is the current one.
abbrev pub Displaces : Priolist → ℕ → Type 0
Displaces l id =
    (i : ℕ) × (x : Item) × (q : ℕ) × (get_elem? l.items i ≡ some x)
    × (x.value ≡ id)
    × (suc i < length l.items)
    × (l.current ≡ some (length l.items - 1, q))

remove_current :
    (l : Priolist) (i : ℕ) (last x : Item)
    → IsValid l
    → get_elem? l.items i ≡ some x
    → LastIs l.items last
    → l.current ≡ some (i, x.priority)
    → (c : Option (ℕ × ℕ)) × (compute_next (swapped l.items i last) i x.priority ≡ ok c)
      × IsValid (record { items = swapped l.items i last; current = c })
remove_current l i last x v e tail cur =
    let items' = swapped l.items i last in
    let in_range : i ≤ length items' =
      omega (arith, length-swapped l.items i last, get_elem?-lt l.items i x e) in
    let (c, eq, next) = compute_next-NextFrom items' i x.priority in_range (v.bounded i x e) in
    let old : BestFrom l.items 0 (some (i, x.priority)) = subst (BestFrom l.items 0) cur v.best in
    (
      c,
      eq,
      swapped-IsValid l i last x c v e tail (
          BestFrom-zero items' x.priority c
            (swapped-NoneBetween l.items i last x 0 x.priority e tail old.2)
            (NextFrom-BestFrom items' i x.priority c next)),
    )

-- Where `current` is another item, and is not moved, it stays right.
remove_other :
    (items : List Item) (i : ℕ) (last x : Item) (c : Option (ℕ × ℕ))
    → get_elem? items i ≡ some x
    → LastIs items last
    → is_current c i x.priority ≡ false
    → ((q : ℕ) → suc i < length items → c ≢ some (length items - 1, q))
    → BestFrom items 0 c
    → BestFrom (swapped items i last) 0 c
unfolding is_current
remove_other items i last x none e tail other stays best =
    swapped-NoneBetween items i last x 0 17 e tail best
remove_other items i last x (some (ci, cq)) e tail other stays (le, (y, f, on, p), between) =
    let apart : i ≢ ci = λ same. ground (arith, rw same at e) in
    let near : suc ci < length items = elim (ℕ_discrete ci (length items - 1)) [
      | yes at_end ↦ absurd (
          stays cq (omega (arith, get_elem?-lt items i x e, get_elem?-lt items ci y f)) (rw at_end))
      | no before ↦ omega (arith, get_elem?-lt items ci y f)
    ] in
    (
      le,
      (y, swapped-keeps items i last ci y f apart near, on, p),
      swapped-NoneBetween items i last x 0 cq e tail between,
    )

pub remove_at_index-IsValid :
    (l : Priolist) (i : ℕ) (x : Item)
    → IsValid l
    → get_elem? l.items i ≡ some x
    → ((q : ℕ) → suc i < length l.items → l.current ≢ some (length l.items - 1, q))
    → (last : Item) × (c : Option (ℕ × ℕ)) × LastIs l.items last
      × (remove_at_index l i ≡ ok (record { items = swapped l.items i last; current = c }))
      × IsValid (record { items = swapped l.items i last; current = c })
unfolding remove_at_index swap_remove renew_current
remove_at_index-IsValid l i x v e stays =
    let (last, tail) = last_item l.items i x e in
    elim (Bool-cases (is_current l.current i x.priority)) [
      | inr other ↦ (
        last,
        l.current,
        tail,
        ground arith,
        swapped-IsValid l i last x l.current v e tail
            (remove_other l.items i last x l.current e tail other stays v.best),
      )
      | inl same ↦
          (let (c, eq, v') =
              remove_current l i last x v e tail (is_current-eq l.current i x.priority same) in
            (last, c, tail, ground arith, v'))
    ]
