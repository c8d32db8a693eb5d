-- ===== src/Proto/Priolist/Activate.antt =====
-- src/proto/priolist.rs: activating an endpoint.
use scaproust.Prelude.{
  ℕ, ◌≤◌, ◌≡◌, refl, sym, ap, ◌∙◌, inl, inr, Bool, true, false, Option, none, some, List, arith,
  ◌==◌, ==_iff, ltb, length, get_elem?, set, ok, Bool-cases, get_elem?-lt, get_elem?-set_cases,
  get_elem?-set_self, get_elem?-set_ne, length-set, subst, ==_refl, if◌then◌else◌,
}
use scaproust.Proto.Priolist.{
  Item, Priolist, find_by_id_in_all, is_index_active, priority_at, set_index_active, raise_current,
  activate_at_index, activate,
}
use scaproust.Proto.Priolist.Find.{NoneIn, FirstIn, NoneBetween, BestFrom, find-FirstIn}
use scaproust.Proto.Priolist.Invariant.{IsValid}

-- The search by identifier stays in range.
pub find_by_id_in_all-FirstIn :
    (l : Priolist) (id : ℕ)
    → (r : Option ℕ) × (find_by_id_in_all l id ≡ ok r)
      × FirstIn (λ x. x.value == id) l.items 0 (length l.items) r
unfolding find_by_id_in_all
find_by_id_in_all-FirstIn l id =
    find-FirstIn _ l.items 0 (length l.items) (omega arith) (omega arith)

-- The list with the activity of one item changed.
abbrev pub with_active : List Item → ℕ → Item → Bool → List Item
with_active items i x b = set items i (record x { active = b })

-- Such a list has the identifiers and the priorities of the old one.
pub with_active-same :
    (items : List Item) (i : ℕ) (x : Item) (b : Bool) (j : ℕ) (y : Item)
    → get_elem? items i ≡ some x
    → get_elem? (with_active items i x b) j ≡ some y
    → (z : Item) × (get_elem? items j ≡ some z) × (y.value ≡ z.value) × (y.priority ≡ z.priority)
with_active-same items i x b j y e f =
    elim (get_elem?-set_cases items i j _ y (get_elem?-lt items i x e) f) [
      | inl (same, g) ↦ (x, cc, cc, cc)
      | inr (other, g) ↦ (y, g, refl, refl)
    ]

pub with_active-IsValid :
    (l : Priolist) (i : ℕ) (x : Item) (b : Bool) (c : Option (ℕ × ℕ))
    → IsValid l
    → get_elem? l.items i ≡ some x
    → BestFrom (with_active l.items i x b) 0 c
    → IsValid (record { items = with_active l.items i x b; current = c })
with_active-IsValid l i x b c v e best = record {
  bounded =
      λ j y f. let (z, g, _, p) = with_active-same l.items i x b j y e f in rw p (v.bounded j z g);
  distinct = λ j k y z f g same.
      let (y', f', p, _) = with_active-same l.items i x b j y e f in
      let (z', g', q, _) = with_active-same l.items i x b k z e g in
      v.distinct j k y' z' f' g' (cc);
  best = best;
}

-- Among the old items only the activated one is new.
activate-NoneBetween :
    (items : List Item) (i : ℕ) (x : Item) (hi : ℕ)
    → get_elem? items i ≡ some x
    → hi ≤ x.priority
    → NoneBetween items 0 hi
    → NoneBetween (with_active items i x true) 0 hi
activate-NoneBetween items i x hi e h between j y f on lo up =
    elim (get_elem?-set_cases items i j _ y (get_elem?-lt items i x e) f) [
      | inl (same, g) ↦ omega (arith, ap (λ (z : Item). z.priority) g)
      | inr (other, g) ↦ between j y g on lo up
    ]

NoneBetween-le :
    (items : List Item) (lo hi top : ℕ)
    → hi ≤ top
    → NoneBetween items lo top
    → NoneBetween items lo hi
NoneBetween-le items lo hi top h between j y f on a b = between j y f on a (omega arith)

raise_current-BestFrom :
    (items : List Item) (i : ℕ) (x : Item) (c : Option (ℕ × ℕ))
    → get_elem? items i ≡ some x
    → x.active ≡ false
    → x.priority ≤ 16
    → BestFrom items 0 c
    → BestFrom (with_active items i x true) 0 (raise_current c i x.priority)
unfolding raise_current
raise_current-BestFrom items i x none e off h best = (
  omega arith,
  (_, get_elem?-set_self items i _ (get_elem?-lt items i x e), refl, refl),
  activate-NoneBetween items i x x.priority e (omega arith)
      (NoneBetween-le items 0 x.priority 17 (omega arith) best),
)
raise_current-BestFrom items i x (some (ci, cq)) e off h (le, (y, f, on, p), between) =
    elim (Bool-cases (ltb x.priority cq)) [
      | inl beats ↦ rw beats (
        omega arith,
        (_, get_elem?-set_self items i _ (get_elem?-lt items i x e), refl, refl),
        activate-NoneBetween items i x x.priority e (omega arith)
            (NoneBetween-le items 0 x.priority cq (ground arith) between),
      )
      | inr stays ↦ rw stays (
        le,
        (y, get_elem?-set_ne items i ci _ (λ same. cc) ∙ f, on, p),
        activate-NoneBetween items i x cq e (ground arith) between,
      )
    ]

-- The items with the activity of one endpoint set, and nothing else changed.
abbrev pub Marks : Priolist → ℕ → Bool → Priolist → Type 0
Marks l id b l' =
    (length l'.items ≡ length l.items)
    × ((j : ℕ) (y : Item)
        → get_elem? l'.items j ≡ some y
        → (z : Item) × (get_elem? l.items j ≡ some z)
          × (y ≡ (if z.value == id then record z { active = b } else z)))

pub with_active-Marks :
    (l : Priolist) (i : ℕ) (x : Item) (b : Bool) (c : Option (ℕ × ℕ))
    → IsValid l
    → get_elem? l.items i ≡ some x
    → Marks l x.value b (record { items = with_active l.items i x b; current = c })
with_active-Marks l i x b c v e = (
  length-set l.items i (record x { active = b }),
  λ j y f. elim (get_elem?-set_cases l.items i j _ y (get_elem?-lt l.items i x e) f) [
    | inl (same, g) ↦ (x, rw (← same) e, rw (==_refl x.value) g)
    | inr (other, g) ↦ elim (Bool-cases (y.value == x.value)) [
      | inl named ↦ absurd (other (v.distinct i j x y e g (sym ((==_iff y.value x.value).0 named))))
      | inr named ↦ (y, g, rw named)
    ]
  ],
)

-- An endpoint that has the activity already is marked by doing nothing, and so is an absent one.
pub Marks-self :
    (l : Priolist) (i : ℕ) (x : Item) (b : Bool)
    → IsValid l
    → get_elem? l.items i ≡ some x
    → x.active ≡ b
    → Marks l x.value b l
Marks-self l i x b v e on = (
  refl,
  λ j y f. elim (Bool-cases (y.value == x.value)) [
    | inr named ↦ (y, f, rw named)
    | inl named ↦
        (let same : i ≡ j = v.distinct i j x y e f (sym ((==_iff y.value x.value).0 named)) in
          let here : some x ≡ some y = sym e ∙ ap (get_elem? l.items) same ∙ f in
          (y, f, rw named (ground arith)))
  ],
)

pub Marks-absent :
    (l : Priolist) (id : ℕ) (b : Bool)
    → NoneIn (λ x. x.value == id) l.items 0 (length l.items)
    → Marks l id b l
Marks-absent l id b absent =
    (refl, λ j y f. (y, f, rw (absent j y (omega arith) (get_elem?-lt l.items j y f) f)))

activate_at_index-IsValid :
    (l : Priolist) (i : ℕ) (x : Item)
    → IsValid l
    → get_elem? l.items i ≡ some x
    → (l' : Priolist) × (activate_at_index l i ≡ ok l') × IsValid l' × Marks l x.value true l'
unfolding activate_at_index is_index_active priority_at set_index_active
activate_at_index-IsValid l i x v e = elim (Bool-cases x.active) [
  | inl on ↦ (l, ground arith, v, Marks-self l i x true v e on)
  | inr off ↦ (
    record { items = with_active l.items i x true; current = raise_current l.current i x.priority },
    ground arith,
    with_active-IsValid l i x true _ v e
        (raise_current-BestFrom l.items i x l.current e off (v.bounded i x e) v.best),
    with_active-Marks l i x true (raise_current l.current i x.priority) v e,
  )
]

-- Activating an endpoint never panics on a valid list, leaves a valid one, and marks the endpoint
-- alone.
pub activate-IsValid :
    (l : Priolist) (id : ℕ)
    → IsValid l
    → (l' : Priolist) × (activate l id ≡ ok l') × IsValid l' × Marks l id true l'
unfolding activate
activate-IsValid l id v = go (find_by_id_in_all-FirstIn l id)
  where
    go :
        (r : Option ℕ) × (find_by_id_in_all l id ≡ ok r)
          × FirstIn (λ x. x.value == id) l.items 0 (length l.items) r
        → (l' : Priolist) × (activate l id ≡ ok l') × IsValid l' × Marks l id true l'
    go (none, e, absent) = (l, rw (e, activate), v, Marks-absent l id true absent)
    go (some i, e, (_, _, (x, f, same), _)) =
        let named : x.value ≡ id = (==_iff x.value id).0 same in
        let (l', g, v', m) = activate_at_index-IsValid l i x v f in
        (l', rw (e, activate) g, v', subst (λ n. Marks l n true l') named m)
