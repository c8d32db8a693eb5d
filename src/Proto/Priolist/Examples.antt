-- ===== src/Proto/Priolist/Examples.antt =====
-- Priority lists of two and three endpoints, and the theorems at them.
use scaproust.Prelude.{
  ℕ, zero, suc, ◌≡◌, refl, true, false, Option, some, [], ◌∷◌, ok, panic, arith, get_elem?,
}
use scaproust.Proto.Priolist.{Item, Priolist, remove, pop, compute_next}
use scaproust.Proto.Fixtures.{ready_list, ready_list-IsValid}
use scaproust.Proto.Priolist.Find.{NextFrom, compute_next-NextFrom}
use scaproust.Proto.Priolist.Invariant.{IsValid}
use scaproust.Proto.Priolist.Pop.{PopResult, pop-PopResult}
use scaproust.Proto.Priolist.Displaced.{Removes, remove-IsValid, remove-Displaces}

-- Both pops in turn, then nothing.
pops_in_turn :
    pop ready_list
    ≡ ok (
      some 1,
      record {
        items =
            record { value = 1; priority = 8; active = false }
            ∷ record { value = 2; priority = 8; active = true }
            ∷ record { value = 3; priority = 9; active = false }
            ∷ [];
        current = some (1, 8);
      },
    )
unfolding pop
pops_in_turn = refl

pop-PopResult_example : PopResult ready_list (pop ready_list)
pop-PopResult_example = pop-PopResult ready_list ready_list-IsValid

remove-IsValid_example :
    (l : Priolist) × (remove ready_list 1 ≡ ok l) × IsValid l × Removes ready_list 1 l
remove-IsValid_example =
    remove-IsValid ready_list 1 ready_list-IsValid (λ (i, x, q, e, f, g, h). ground arith)

compute_next-NextFrom_example :
    (c : Option (ℕ × ℕ)) × (compute_next ready_list.items 1 8 ≡ ok c)
    × NextFrom ready_list.items 1 8 c
compute_next-NextFrom_example =
    compute_next-NextFrom ready_list.items 1 8 (omega arith) (omega arith)

-- Endpoint 2 is current, and last; endpoint 1 is not ready.
abbrev last_current : Priolist
last_current = record {
  items =
      record { value = 1; priority = 8; active = false }
      ∷ record { value = 2; priority = 8; active = true }
      ∷ [];
  current = some (1, 8);
}

last_current-IsValid : IsValid last_current
last_current-IsValid = record {
  bounded = λ j x e. omega (arith, (entry j x e).1);
  distinct = λ i j x y e f same. omega (arith, (entry i x e).0, (entry j y f).0);
  best = (omega arith, (_, refl, refl, refl), λ j x e on lo up. omega (arith, (entry j x e).1));
}
  where
    entry :
        (j : ℕ) (x : Item)
        → get_elem? last_current.items j ≡ some x
        → (x.value ≡ suc j) × (x.priority ≡ 8)
    entry zero x e = ground arith
    entry (suc zero) x e = ground arith
    entry (suc (suc j)) x e = absurd (cc)

remove-Displaces_example : (l : Priolist) × (remove last_current 1 ≡ ok l) × (pop l ≡ panic)
remove-Displaces_example =
    remove-Displaces last_current 1 last_current-IsValid
      (0, record { value = 1; priority = 8; active = false }, 8, refl, refl, omega arith, refl)
