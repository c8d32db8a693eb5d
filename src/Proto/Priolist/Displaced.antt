-- ===== src/Proto/Priolist/Displaced.antt =====
-- src/proto/priolist.rs: removing an endpoint, where the last item is current and where it is not.
use scaproust.Prelude.{
  ℕ, ◌-◌, ◌≡◌, ◌≢◌, sym, ap, subst, ◌∙◌, inl, inr, false, Option, none, some, List, arith, ◌==◌,
  ==_iff, length, get_elem?, set, ok, panic, Option-cases, get_elem?-lt, get_elem?-set_self,
  get_elem?-take_lt, ℕ_discrete,
}
use scaproust.Proto.Priolist.{
  Item, Priolist, swap_remove, set_index_active, is_current, renew_current, remove_at_index, remove,
  pop, find_by_id_in_all,
}
use scaproust.Proto.Priolist.Find.{FirstIn}
use scaproust.Proto.Priolist.Invariant.{IsValid, IsFresh}
use scaproust.Proto.Priolist.Activate.{find_by_id_in_all-FirstIn}
use scaproust.Proto.Priolist.Remove.{
  swapped, LastIs, last_item, length-swapped, swapped-origin, swapped-keeps, Displaces,
  remove_at_index-IsValid,
}

-- The items that are left: all but the endpoint's.
abbrev pub Removes : Priolist → ℕ → Priolist → Type 0
Removes l id l' =
    IsFresh l' id
    × ((j : ℕ) (y : Item)
        → get_elem? l.items j ≡ some y
        → y.value ≢ id
        → (k : ℕ) × (get_elem? l'.items k ≡ some y))
    × ((k : ℕ) (y : Item)
        → get_elem? l'.items k ≡ some y
        → (j : ℕ) × (get_elem? l.items j ≡ some y))

swapped-Removes :
    (l : Priolist) (i : ℕ) (last x : Item) (c : Option (ℕ × ℕ))
    → IsValid l
    → get_elem? l.items i ≡ some x
    → LastIs l.items last
    → Removes l x.value (record { items = swapped l.items i last; current = c })
swapped-Removes l i last x c v e tail = (
  λ j y f same.
      let (a, from) = swapped-origin l.items i last x j y e tail f in
      elim from [
        | inl (p, g) ↦ omega (arith, v.distinct (length l.items - 1) i y x g e same)
        | inr (p, g) ↦ p (v.distinct i j x y e g (sym same))
      ],
  λ j y f other.
      let apart : i ≢ j = λ same. other (cc (rw same at e)) in
      elim (ℕ_discrete j (length l.items - 1)) [
        | yes at_end ↦ (
          i,
          get_elem?-take_lt (length l.items - 1) (set l.items i last) i
                (omega (arith, get_elem?-lt l.items i x e))
              ∙ get_elem?-set_self l.items i last (get_elem?-lt l.items i x e)
              ∙ sym tail
              ∙ sym (ap (get_elem? l.items) at_end)
              ∙ f,
        )
        | no before ↦ (
          j,
          swapped-keeps l.items i last j y f apart (omega (arith, get_elem?-lt l.items j y f)),
        )
      ],
  λ k y f. elim (swapped-origin l.items i last x k y e tail f).1 [
    | inl (p, g) ↦ (length l.items - 1, g)
    | inr (p, g) ↦ (k, g)
  ],
)

-- Unless it moves the current item, removing an endpoint never panics on a valid list, leaves a
-- valid one without the endpoint, keeps the items of the others and adds none.
pub remove-IsValid :
    (l : Priolist) (id : ℕ)
    → IsValid l
    → ¬ Displaces l id
    → (l' : Priolist) × (remove l id ≡ ok l') × IsValid l' × Removes l id l'
unfolding remove
remove-IsValid l id v still = go (find_by_id_in_all-FirstIn l id)
  where
    go :
        (r : Option ℕ) × (find_by_id_in_all l id ≡ ok r)
          × FirstIn (λ x. x.value == id) l.items 0 (length l.items) r
        → (l' : Priolist) × (remove l id ≡ ok l') × IsValid l' × Removes l id l'
    go (none, e, absent) = (
      l,
      rw (e, remove),
      v,
      (
        λ j y f same.
            absurd (ground (arith, absent j y (omega arith) (get_elem?-lt l.items j y f) f)),
        λ j y f other. (j, f),
        λ k y f. (k, f),
      ),
    )
    go (some i, e, (_, _, (x, f, same), _)) =
        let named : x.value ≡ id = (==_iff x.value id).0 same in
        let (last, c, tail, g, v') =
          remove_at_index-IsValid l i x v f
            (λ q short cur. still (i, x, q, f, named, short, cur)) in
        let l' : Priolist = record { items = swapped l.items i last; current = c } in
        (
          l',
          rw (e, remove) g,
          v',
          subst (λ n. Removes l n l') named (swapped-Removes l i last x c v f tail),
        )

displaced-pop :
    (items : List Item) (i : ℕ) (last : Item) (q : ℕ)
    → pop (record { items = swapped items i last; current = some (length items - 1, q) }) ≡ panic
unfolding pop set_index_active
displaced-pop items i last q =
    elim (Option-cases (get_elem? (swapped items i last) (length items - 1))) [
      | inl past ↦ rw (past, set_index_active)
      | inr (y, e) ↦
          absurd
            (omega (arith, get_elem?-lt (swapped items i last) _ y e, length-swapped items i last))
    ]

-- Where it moves the current item of a valid list, removing an endpoint returns a list whose next
-- pop panics.
pub remove-Displaces :
    (l : Priolist) (id : ℕ)
    → IsValid l
    → Displaces l id
    → (l' : Priolist) × (remove l id ≡ ok l') × (pop l' ≡ panic)
unfolding remove
remove-Displaces l id v (j, y, q, g, named_y, short, cur) = go (find_by_id_in_all-FirstIn l id)
  where
    at :
        (i : ℕ) (x : Item)
        → get_elem? l.items i ≡ some x
        → x.value ≡ id
        → (l' : Priolist) × (remove_at_index l i ≡ ok l') × (pop l' ≡ panic)
    at i x f named =
        let same : i ≡ j = v.distinct i j x y f g (named ∙ sym named_y) in
        let (last, tail) = last_item l.items i x f in
        let other : is_current (some (length l.items - 1, q)) i x.priority ≡ false =
          unfold is_current in ground arith in
        (
          record { items = swapped l.items i last; current = some (length l.items - 1, q) },
          unfold remove_at_index swap_remove renew_current in ground arith,
          displaced-pop l.items i last q,
        )

    go :
        (r : Option ℕ) × (find_by_id_in_all l id ≡ ok r)
          × FirstIn (λ x. x.value == id) l.items 0 (length l.items) r
        → (l' : Priolist) × (remove l id ≡ ok l') × (pop l' ≡ panic)
    go (none, e, absent) =
        absurd (ground (arith, absent j y (omega arith) (get_elem?-lt l.items j y g) g))
    go (some i, e, (_, _, (x, f, same), _)) =
        let (l', h, stuck) = at i x f ((==_iff x.value id).0 same) in (l', rw (e, remove) h, stuck)
