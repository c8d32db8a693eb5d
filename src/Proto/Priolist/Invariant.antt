-- ===== src/Proto/Priolist/Invariant.antt =====
-- src/proto/priolist.rs: what a valid list is, and inserting.
use scaproust.Prelude.{
  ℕ, ◌≤◌, ◌≡◌, ◌≢◌, refl, ◌∙◌, inl, inr, false, Option, none, some, List, [], ◌∷◌, ◌++◌, arith,
  get_elem?, get_elem?-lt, get_elem?-append_cases, get_elem?-append_lt,
}
use scaproust.Proto.Priolist.{Item, Priolist, new, insert}
use scaproust.Proto.Priolist.Find.{BestFrom}

-- Priorities are those of the documentation, no endpoint stands twice, and `current` is the index
-- and the priority of an active item that no active item beats.
pub record IsValid (l : Priolist) : Type 0 where
  pub bounded : (j : ℕ) (x : Item) → get_elem? l.items j ≡ some x → x.priority ≤ 16
  pub distinct :
      (i j : ℕ) (x y : Item)
      → get_elem? l.items i ≡ some x
      → get_elem? l.items j ≡ some y
      → x.value ≡ y.value
      → i ≡ j
  pub best : BestFrom l.items 0 l.current

pub new-IsValid : IsValid new
unfolding new
new-IsValid = record {
  bounded = λ j x e. absurd (cc);
  distinct = λ i j x y e. absurd (cc);
  best = λ j x e. absurd (cc);
}

-- An endpoint that the list does not hold.
abbrev pub IsFresh : Priolist → ℕ → Type 0
IsFresh l id = (j : ℕ) (x : Item) → get_elem? l.items j ≡ some x → x.value ≢ id

insert-best :
    (items : List Item) (v : Item) (c : Option (ℕ × ℕ))
    → v.active ≡ false
    → BestFrom items 0 c
    → BestFrom (items ++ v ∷ []) 0 c
insert-best items v none off best = λ j x e on lo up. elim (get_elem?-append_cases items v x j e) [
  | inl (h, f) ↦ best j x f on lo up
  | inr (h, f) ↦ absurd (cc)
]
insert-best items v (some (i, q)) off (le, (x, e, on, p), between) = (
  le,
  (x, get_elem?-append_lt items (v ∷ []) i (get_elem?-lt items i x e) ∙ e, on, p),
  λ j y f a lo up. elim (get_elem?-append_cases items v y j f) [
    | inl (h, g) ↦ between j y g a lo up
    | inr (h, g) ↦ absurd (cc)
  ],
)

-- Inserting an endpoint that the list does not hold, with a priority of at most 16, keeps a valid
-- list valid.
pub insert-IsValid :
    (l : Priolist) (id prio : ℕ) → IsValid l → IsFresh l id → prio ≤ 16 → IsValid (insert l id prio)
unfolding insert
insert-IsValid l id prio v fresh h = record {
  bounded = λ j x e. elim (get_elem?-append_cases l.items _ x j e) [
    | inl (a, f) ↦ v.bounded j x f
    | inr (a, f) ↦ ground arith
  ];
  distinct = λ i j x y e f same. elim (get_elem?-append_cases l.items _ x i e) [
    | inl (a, g) ↦ elim (get_elem?-append_cases l.items _ y j f) [
      | inl (b, k) ↦ v.distinct i j x y g k same
      | inr (b, k) ↦ absurd (fresh i x g (cc))
    ]
    | inr (a, g) ↦ elim (get_elem?-append_cases l.items _ y j f) [
      | inl (b, k) ↦ absurd (fresh j y k (cc))
      | inr (b, k) ↦ cc
    ]
  ];
  best = insert-best l.items _ l.current refl v.best;
}
