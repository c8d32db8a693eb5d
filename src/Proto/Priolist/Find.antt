-- ===== src/Proto/Priolist/Find.antt =====
-- The searches of src/proto/priolist.rs, and what `compute_next` selects.
use scaproust.Prelude.{
  ℕ, zero, suc, ◌+◌, ◌-◌, ◌%◌, ◌≤◌, ◌<◌, ◌≡◌, refl, inl, inr, Bool, true, false, Option, none, some,
  List, arith, ◌==◌, ==_iff, length, get_elem?, ok, Bool-cases, get_elem?-in_range, get_elem?-lt,
  subst, sym, dec_lt,
}
use scaproust.Proto.Priolist.{Item, find_from, find, find_lower, compute_next, is_candidate}

-- No item with an index in the range passes the test.
abbrev pub NoneIn : (Item → Bool) → List Item → ℕ → ℕ → Type 0
NoneIn p items lo hi =
    (j : ℕ) (x : Item) → lo ≤ j → j < hi → get_elem? items j ≡ some x → p x ≡ false

-- The item at an index exists and passes the test.
abbrev pub Passes : (Item → Bool) → List Item → ℕ → Type 0
Passes p items i = (x : Item) × (get_elem? items i ≡ some x) × (p x ≡ true)

-- The first index of a range whose item passes, if there is one.
abbrev pub FirstIn : (Item → Bool) → List Item → ℕ → ℕ → Option ℕ → Type 0
FirstIn p items lo hi none = NoneIn p items lo hi
FirstIn p items lo hi (some i) = (lo ≤ i) × (i < hi) × Passes p items i × NoneIn p items lo i

NoneIn-cons :
    (p : Item → Bool) (items : List Item) (lo hi : ℕ) (x : Item)
    → get_elem? items lo ≡ some x
    → p x ≡ false
    → NoneIn p items (suc lo) hi
    → NoneIn p items lo hi
NoneIn-cons p items lo hi x e off rest j y h k f = elim (Bool-cases (lo == j)) [
  | inl same ↦ ground (arith, ==_iff lo j)
  | inr other ↦ rest j y (ground (arith, ==_iff lo j)) k f
]

FirstIn-cons :
    (p : Item → Bool) (items : List Item) (lo hi : ℕ) (x : Item)
    → get_elem? items lo ≡ some x
    → p x ≡ false
    → (r : Option ℕ) → FirstIn p items (suc lo) hi r
    → FirstIn p items lo hi r
FirstIn-cons p items lo hi x e off none rest = NoneIn-cons p items lo hi x e off rest
FirstIn-cons p items lo hi x e off (some i) (a, b, c, d) =
    (omega arith, b, c, NoneIn-cons p items lo i x e off d)

find_from-FirstIn :
    (p : Item → Bool) (items : List Item) (n i : ℕ)
    → i + n ≤ length items
    → (r : Option ℕ) × (find_from p items i n ≡ ok r) × FirstIn p items i (i + n) r
unfolding find_from
find_from-FirstIn p items zero i h = (none, refl, λ j x a b. absurd (omega arith))
find_from-FirstIn p items (suc n) i h =
    let (x, e) = get_elem?-in_range items i (omega arith) in
    let (r, eq, first) = find_from-FirstIn p items n (suc i) (omega arith) in
    let shift : suc i + n ≡ i + suc n = omega arith in
    let later : FirstIn p items (suc i) (i + suc n) r =
      subst (λ hi. FirstIn p items (suc i) hi r) shift first in
    elim (Bool-cases (p x)) [
      | inl on ↦ (
        some i,
        rw (e, find_from) (rw on refl),
        (omega arith, omega arith, (x, e, on), λ j y a b. absurd (omega arith)),
      )
      | inr off ↦
          (r, rw (e, find_from) (rw off eq), FirstIn-cons p items i (i + suc n) x e off r later)
    ]

-- A search of a range within the vector does not panic, and finds the first match.
pub find-FirstIn :
    (p : Item → Bool) (items : List Item) (lo hi : ℕ)
    → lo ≤ hi
    → hi ≤ length items
    → (r : Option ℕ) × (find p items lo hi ≡ ok r) × FirstIn p items lo hi r
unfolding find
find-FirstIn p items lo hi a b =
    let (r, eq, first) = find_from-FirstIn p items (hi - lo) lo (omega arith) in
    let e : lo + (hi - lo) ≡ hi = omega arith in
    (r, eq, subst (λ k. FirstIn p items lo k r) e first)

-- No item of the list is active with a priority in the range.
abbrev pub NoneBetween : List Item → ℕ → ℕ → Type 0
NoneBetween items lo hi =
    (j : ℕ) (x : Item)
    → get_elem? items j ≡ some x
    → x.active ≡ true
    → lo ≤ x.priority
    → x.priority < hi
    → ⊥

-- An active item of the priority stands at the index.
abbrev pub ActiveAt : List Item → ℕ → ℕ → Type 0
ActiveAt items i q =
    (x : Item) × (get_elem? items i ≡ some x) × (x.active ≡ true) × (x.priority ≡ q)

-- The best active item with a priority from `lo` on, below 17.
abbrev pub BestFrom : List Item → ℕ → Option (ℕ × ℕ) → Type 0
BestFrom items lo none = NoneBetween items lo 17
BestFrom items lo (some (i, q)) = (lo ≤ q) × ActiveAt items i q × NoneBetween items lo q

is_candidate-on :
    (q : ℕ) (x : Item) → is_candidate q x ≡ true → (x.active ≡ true) × (x.priority ≡ q)
is_candidate-on q x h = ground arith

is_candidate-off :
    (q : ℕ) (x : Item) → is_candidate q x ≡ false → x.active ≡ true → x.priority ≡ q → ⊥
is_candidate-off q x h a e = ground arith

-- No candidate for one priority, and none above it, leaves none from it on.
NoneBetween-suc :
    (items : List Item) (q hi : ℕ)
    → NoneIn (is_candidate q) items 0 (length items)
    → NoneBetween items (suc q) hi
    → NoneBetween items q hi
NoneBetween-suc items q hi none_at above j x e on lo up = elim (Bool-cases (q == x.priority)) [
  | inl same ↦
      is_candidate-off q x (none_at j x (omega arith) (get_elem?-lt items j x e) e) on
        (sym ((==_iff q x.priority).0 same))
  | inr other ↦ above j x e on (ground (arith, ==_iff q x.priority)) up
]

BestFrom-suc :
    (items : List Item) (q : ℕ) (c : Option (ℕ × ℕ))
    → NoneIn (is_candidate q) items 0 (length items)
    → BestFrom items (suc q) c
    → BestFrom items q c
BestFrom-suc items q none none_at best = NoneBetween-suc items q 17 none_at best
BestFrom-suc items q (some (i, r)) none_at (le, at, between) =
    (omega arith, at, NoneBetween-suc items q r none_at between)

BestFrom-here :
    (items : List Item) (q i : ℕ) → Passes (is_candidate q) items i → BestFrom items q (some (i, q))
BestFrom-here items q i (x, e, on) =
    let (a, b) = is_candidate-on q x on in (omega arith, (x, e, a, b), λ j y f g lo up. omega arith)

find_lower-BestFrom :
    (items : List Item) (n prio : ℕ)
    → prio + n ≡ 17
    → (c : Option (ℕ × ℕ)) × (find_lower items prio n ≡ ok c) × BestFrom items prio c
unfolding find_lower
find_lower-BestFrom items zero prio h = (none, refl, λ j x e on lo up. omega arith)
find_lower-BestFrom items (suc n) prio h =
    go (find-FirstIn (is_candidate prio) items 0 (length items) (omega arith) (omega arith))
      (find_lower-BestFrom items n (suc prio) (omega arith))
  where
    go :
        (r : Option ℕ) × (find (is_candidate prio) items 0 (length items) ≡ ok r)
          × FirstIn (is_candidate prio) items 0 (length items) r
        → (c : Option (ℕ × ℕ)) × (find_lower items (suc prio) n ≡ ok c)
          × BestFrom items (suc prio) c
        → (c : Option (ℕ × ℕ)) × (find_lower items prio (suc n) ≡ ok c) × BestFrom items prio c
    go (some i, eq, (a, b, passes, d)) _ =
        (some (i, prio), rw (eq, find_lower), BestFrom-here items prio i passes)
    go (none, eq, none_at) (c, rest, best) =
        (c, rw (eq, find_lower) rest, BestFrom-suc items prio c none_at best)

-- What `compute_next` selects: the next candidate of the same priority in cyclic order from the
-- pivot, else the best active item of a lower priority.
pub data NextFrom (items : List Item) (pivot priority : ℕ) : Option (ℕ × ℕ) → Type 0 where
  ahead :
      (i : ℕ)
      → FirstIn (is_candidate priority) items pivot (length items) (some i)
      → NextFrom items pivot priority (some (i, priority))
  wrapped :
      (i : ℕ)
      → NoneIn (is_candidate priority) items pivot (length items)
      → FirstIn (is_candidate priority) items 0 pivot (some i)
      → NextFrom items pivot priority (some (i, priority))
  lower :
      (c : Option (ℕ × ℕ))
      → NoneIn (is_candidate priority) items pivot (length items)
      → NoneIn (is_candidate priority) items 0 pivot
      → BestFrom items (suc priority) c
      → NextFrom items pivot priority c

compute_next-lower :
    (items : List Item) (pivot priority : ℕ)
    → priority ≤ 16
    → find (is_candidate priority) items pivot (length items) ≡ ok none
    → find (is_candidate priority) items 0 pivot ≡ ok none
    → (c : Option (ℕ × ℕ)) × (compute_next items pivot priority ≡ ok c)
      × BestFrom items (suc priority) c
unfolding compute_next
compute_next-lower items pivot priority h e f =
    let (c, eq, best) =
      find_lower-BestFrom items (17 - suc priority) (suc priority) (omega arith) in
    let wrap : (priority + 1) % 256 ≡ suc priority = omega arith in
    (c, rw (e, compute_next) (rw (f, compute_next) (rw wrap eq)), best)

-- For a pivot within the vector and a priority of at most 16, `compute_next` does not panic and
-- chooses the first active item of that priority from the pivot on, else the first before the
-- pivot, else an active item of the next priority that has one, else none.
pub compute_next-NextFrom :
    (items : List Item) (pivot priority : ℕ)
    → pivot ≤ length items
    → priority ≤ 16
    → (c : Option (ℕ × ℕ)) × (compute_next items pivot priority ≡ ok c)
      × NextFrom items pivot priority c
unfolding compute_next
compute_next-NextFrom items pivot priority a b =
    go (find-FirstIn (is_candidate priority) items pivot (length items) a (omega arith))
      (find-FirstIn (is_candidate priority) items 0 pivot (omega arith) a)
  where
    go :
        (r : Option ℕ) × (find (is_candidate priority) items pivot (length items) ≡ ok r)
          × FirstIn (is_candidate priority) items pivot (length items) r
        → (s : Option ℕ) × (find (is_candidate priority) items 0 pivot ≡ ok s)
          × FirstIn (is_candidate priority) items 0 pivot s
        → (c : Option (ℕ × ℕ)) × (compute_next items pivot priority ≡ ok c)
          × NextFrom items pivot priority c
    go (some i, e, first) _ = (some (i, priority), rw (e, compute_next), ahead i first)
    go (none, e, none_after) (some i, f, first) = (
      some (i, priority),
      rw (e, compute_next) (rw (f, compute_next)),
      wrapped i none_after first,
    )
    go (none, e, none_after) (none, f, none_before) =
        let (c, eq, best) = compute_next-lower items pivot priority b e f in
        (c, eq, lower c none_after none_before best)

NoneIn-join :
    (p : Item → Bool) (items : List Item) (lo mid hi : ℕ)
    → NoneIn p items lo mid
    → NoneIn p items mid hi
    → NoneIn p items lo hi
NoneIn-join p items lo mid hi f g j x a b e = elim (dec_lt j mid) [
  | yes h ↦ f j x a h e
  | no h ↦ g j x (omega arith) b e
]

-- Whichever search succeeds, the selection is a best active item from the priority on.
pub NextFrom-BestFrom :
    (items : List Item) (pivot priority : ℕ) (c : Option (ℕ × ℕ))
    → NextFrom items pivot priority c
    → BestFrom items priority c
NextFrom-BestFrom items pivot priority _ (ahead i (a, b, passes, d)) =
    BestFrom-here items priority i passes
NextFrom-BestFrom items pivot priority _ (wrapped i _ (a, b, passes, d)) =
    BestFrom-here items priority i passes
NextFrom-BestFrom items pivot priority _ (lower c after before best) =
    BestFrom-suc items priority c
      (NoneIn-join (is_candidate priority) items 0 pivot (length items) before after) best
