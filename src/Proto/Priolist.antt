-- ===== src/Proto/Priolist.antt =====
-- src/proto/priolist.rs: the list of endpoints by priority that load balancing and fair queueing
-- pop from. A method that takes `&mut self` returns the new list; `panic` is an index out of range.
pub mod Find
pub mod Invariant
pub mod Activate
pub mod Pop
pub mod Deactivate
pub mod Remove
pub mod Displaced
mod Examples
use scaproust.Prelude.{
  ℕ, zero, suc, ◌+◌, ◌-◌, ◌%◌, Bool, true, false, ◌&&◌, Option, none, some, List, [], ◌∷◌, ◌++◌,
  ltb, ◌==◌, if◌then◌else◌, length, get_elem?, set, take, Outcome, ok, panic, ◌>>=◌,
}

-- `priority` is a u8.
pub record Item : Type 0 where
  pub value : ℕ
  pub priority : ℕ
  pub active : Bool

pub record Priolist : Type 0 where
  pub items : List Item
  pub current : Option (ℕ × ℕ)

unfoldable pub new : Priolist
new = record { items = []; current = none }

unfoldable pub insert : Priolist → ℕ → ℕ → Priolist
insert l id prio = record l {
  items = l.items ++ record { value = id; priority = prio; active = false } ∷ [];
}

-- The rounds of `for i in range` from `i` on.
pub find_from : (Item → Bool) → List Item → ℕ → ℕ → Outcome (Option ℕ)
find_from predicate items i zero = ok none
find_from predicate items i (suc n) = elim (get_elem? items i) [
  | none ↦ panic
  | some item ↦
      let rest = find_from predicate items (suc i) n in if predicate item then ok (some i) else rest
]

pub find : (Item → Bool) → List Item → ℕ → ℕ → Outcome (Option ℕ)
find predicate items lo hi = find_from predicate items lo (hi - lo)

pub find_by_id_in_all : Priolist → ℕ → Outcome (Option ℕ)
find_by_id_in_all l id = find (λ x. x.value == id) l.items 0 (length l.items)

pub is_index_active : List Item → ℕ → Outcome Bool
is_index_active items index = elim (get_elem? items index) [
  | none ↦ panic
  | some item ↦ ok item.active
]

pub set_index_active : List Item → ℕ → Bool → Outcome (List Item)
set_index_active items index active = elim (get_elem? items index) [
  | none ↦ panic
  | some item ↦ ok (set items index (record item { active = active }))
]

pub priority_at : List Item → ℕ → Outcome ℕ
priority_at items index = elim (get_elem? items index) [
  | none ↦ panic
  | some item ↦ ok item.priority
]

abbrev pub is_candidate : ℕ → Item → Bool
is_candidate priority x = x.active && x.priority == priority

-- The rounds of `for prio in lower_priorities` from `prio` on.
pub find_lower : List Item → ℕ → ℕ → Outcome (Option (ℕ × ℕ))
find_lower items prio zero = ok none
find_lower items prio (suc n) = do
  found ← find (is_candidate prio) items 0 (length items)
  elim found [ some index ↦ ok (some (index, prio)) | none ↦ find_lower items (suc prio) n ]

-- The new `current`. The three searches stand in the order of the early returns.
pub compute_next : List Item → ℕ → ℕ → Outcome (Option (ℕ × ℕ))
compute_next items pivot priority = do
  after ← find (is_candidate priority) items pivot (length items)
  elim after [
    | some index ↦ ok (some (index, priority))
    | none ↦ do
      before ← find (is_candidate priority) items 0 pivot
      elim before [
        | some index ↦ ok (some (index, priority))
        | none ↦
            (let lower_priority = (priority + 1) % 256 in
              find_lower items lower_priority (17 - lower_priority))
      ]
  ]

-- `self.current == Some((index, priority))`
pub is_current : Option (ℕ × ℕ) → ℕ → ℕ → Bool
is_current none index priority = false
is_current (some (cur_idx, cur_prio)) index priority = cur_idx == index && cur_prio == priority

-- `Vec::swap_remove`: the last item takes the place of the one removed.
pub swap_remove : List Item → ℕ → Outcome (Item × List Item)
swap_remove items index = elim (get_elem? items index) [
  | none ↦ panic
  | some item ↦ elim (get_elem? items (length items - 1)) [
    | none ↦ panic
    | some last ↦ ok (item, take (length items - 1) (set items index last))
  ]
]

-- `if self.current == Some((index, priority)) { self.compute_next(index, priority) }`
pub renew_current : List Item → Option (ℕ × ℕ) → ℕ → ℕ → Outcome Priolist
unfolding is_current compute_next
renew_current items current index priority =
    if is_current current index priority
    then (do
      next ← compute_next items index priority
      ok (record { items = items; current = next }))
    else ok (record { items = items; current = current })

pub remove_at_index : Priolist → ℕ → Outcome Priolist
remove_at_index l index = do
  (item, items) ← swap_remove l.items index
  renew_current items l.current index item.priority

unfoldable pub remove : Priolist → ℕ → Outcome Priolist
unfolding find_by_id_in_all find find_from find_lower swap_remove remove_at_index renew_current
remove l id = do
  found ← find_by_id_in_all l id
  elim found [ none ↦ ok l | some index ↦ remove_at_index l index ]

-- The `current` after an item of `priority` at `index` has become active.
pub raise_current : Option (ℕ × ℕ) → ℕ → ℕ → Option (ℕ × ℕ)
raise_current none index priority = some (index, priority)
raise_current (some (cur_idx, cur_prio)) index priority =
    if ltb priority cur_prio then some (index, priority) else some (cur_idx, cur_prio)

pub activate_at_index : Priolist → ℕ → Outcome Priolist
unfolding raise_current
activate_at_index l index = do
  active ← is_index_active l.items index
  if active then ok l else (do
    priority ← priority_at l.items index
    items ← set_index_active l.items index true
    ok (record { items = items; current = raise_current l.current index priority }))

unfoldable pub activate : Priolist → ℕ → Outcome Priolist
unfolding find_by_id_in_all find find_from is_index_active priority_at set_index_active
    activate_at_index
activate l id = do
  found ← find_by_id_in_all l id
  elim found [ none ↦ ok l | some index ↦ activate_at_index l index ]

pub value_at : List Item → ℕ → Outcome ℕ
value_at items index = elim (get_elem? items index) [ none ↦ panic | some item ↦ ok item.value ]

unfoldable pub pop : Priolist → Outcome (Option ℕ × Priolist)
unfolding set_index_active compute_next find find_from find_lower value_at
pop l = elim l.current [
  | none ↦ ok (none, l)
  | some (index, priority) ↦ do
    items ← set_index_active l.items index false
    next ← compute_next items index priority
    value ← value_at items index
    ok (some value, record { items = items; current = next })
]

unfoldable pub peek : Priolist → Bool
peek l = elim l.current [ none ↦ false | some _ ↦ true ]

pub deactivate_at_index : Priolist → ℕ → Outcome Priolist
deactivate_at_index l index = do
  active ← is_index_active l.items index
  if active
      then (do
        priority ← priority_at l.items index
        items ← set_index_active l.items index false
        renew_current items l.current index priority)
      else ok l

unfoldable pub deactivate : Priolist → ℕ → Outcome Priolist
unfolding find_by_id_in_all find find_from is_index_active priority_at set_index_active find_lower
    renew_current deactivate_at_index
deactivate l id = do
  found ← find_by_id_in_all l id
  elim found [ none ↦ ok l | some index ↦ deactivate_at_index l index ]
