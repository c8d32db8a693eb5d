-- ===== src/Proto/Priolist/Deactivate.antt =====
-- src/proto/priolist.rs: deactivating an endpoint.
use scaproust.Prelude.{
  ℕ, ◌≡◌, subst, ◌∙◌, inl, inr, true, false, Option, none, some, List, arith, ◌==◌, ==_iff, length,
  get_elem?, ok, Bool-cases, get_elem?-set_ne,
}
use scaproust.Proto.Priolist.{
  Item, Priolist, find_by_id_in_all, is_index_active, priority_at, set_index_active, is_current,
  renew_current, deactivate_at_index, deactivate,
}
use scaproust.Proto.Priolist.Find.{FirstIn, BestFrom}
use scaproust.Proto.Priolist.Invariant.{IsValid}
use scaproust.Proto.Priolist.Activate.{
  find_by_id_in_all-FirstIn, Marks, with_active-Marks, Marks-self, Marks-absent, with_active,
  with_active-IsValid,
}
use scaproust.Proto.Priolist.Pop.{deactivate-NoneBetween, deactivate-current}

-- Any other item, deactivated, leaves `current` as it is.
deactivate-other :
    (items : List Item) (i : ℕ) (x : Item) (c : Option (ℕ × ℕ))
    → get_elem? items i ≡ some x
    → is_current c i x.priority ≡ false
    → BestFrom items 0 c
    → BestFrom (with_active items i x false) 0 c
unfolding is_current
deactivate-other items i x none e other best = deactivate-NoneBetween items i x 17 e best
deactivate-other items i x (some (ci, cq)) e other (le, (y, f, on, p), between) = (
  le,
  (y, get_elem?-set_ne items i ci _ (λ same. ground (arith, rw same at e)) ∙ f, on, p),
  deactivate-NoneBetween items i x cq e between,
)

pub is_current-eq : (c : Option (ℕ × ℕ)) (i q : ℕ) → is_current c i q ≡ true → c ≡ some (i, q)
unfolding is_current
is_current-eq none i q h = cc
is_current-eq (some (ci, cq)) i q h = ground arith

deactivate_at_index-IsValid :
    (l : Priolist) (i : ℕ) (x : Item)
    → IsValid l
    → get_elem? l.items i ≡ some x
    → (l' : Priolist) × (deactivate_at_index l i ≡ ok l') × IsValid l' × Marks l x.value false l'
unfolding deactivate_at_index is_index_active priority_at set_index_active renew_current is_current
deactivate_at_index-IsValid l i x v e = elim (Bool-cases x.active) [
  | inr off ↦ (l, ground arith, v, Marks-self l i x false v e off)
  | inl on ↦ elim (Bool-cases (is_current l.current i x.priority)) [
    | inr other ↦ (
      record { items = with_active l.items i x false; current = l.current },
      ground arith,
      with_active-IsValid l i x false l.current v e
          (deactivate-other l.items i x l.current e other v.best),
      with_active-Marks l i x false l.current v e,
    )
    | inl same ↦
        (let cur : l.current ≡ some (i, x.priority) = is_current-eq l.current i x.priority same in
          let (c, eq, next, v') = deactivate-current l i x v e cur in
          (
            record { items = with_active l.items i x false; current = c },
            ground arith,
            v',
            with_active-Marks l i x false c v e,
          ))
  ]
]

-- Deactivating an endpoint never panics on a valid list, leaves a valid one, and marks the
-- endpoint alone.
pub deactivate-IsValid :
    (l : Priolist) (id : ℕ)
    → IsValid l
    → (l' : Priolist) × (deactivate l id ≡ ok l') × IsValid l' × Marks l id false l'
unfolding deactivate
deactivate-IsValid l id v = go (find_by_id_in_all-FirstIn l id)
  where
    go :
        (r : Option ℕ) × (find_by_id_in_all l id ≡ ok r)
          × FirstIn (λ x. x.value == id) l.items 0 (length l.items) r
        → (l' : Priolist) × (deactivate l id ≡ ok l') × IsValid l' × Marks l id false l'
    go (none, e, absent) = (l, rw (e, deactivate), v, Marks-absent l id false absent)
    go (some i, e, (_, _, (x, f, same), _)) =
        let named : x.value ≡ id = (==_iff x.value id).0 same in
        let (l', g, v', m) = deactivate_at_index-IsValid l i x v f in
        (l', rw (e, deactivate) g, v', subst (λ n. Marks l n false l') named m)
