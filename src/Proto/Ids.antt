-- ===== src/Proto/Ids.antt =====
-- The sets of endpoint identifiers (`HashSet<EndpointId>`) of the protocols.
use scaproust.Prelude.{
  ℕ, ◌≡◌, Bool, true, false, ◌||◌, List, [], ◌∷◌, arith, ◌==◌, ==_iff, if◌then◌else◌,
}

abbrev pub IdSet : Type 0
IdSet = List ℕ

unfoldable pub contains : IdSet → ℕ → Bool
contains [] id = false
contains (x ∷ xs) id = x == id || contains xs id

unfoldable pub remove : IdSet → ℕ → IdSet
remove [] id = []
remove (x ∷ xs) id = let rest = remove xs id in if x == id then rest else x ∷ rest

unfoldable pub insert : IdSet → ℕ → IdSet
insert xs id = if contains xs id then xs else id ∷ xs

pub contains-remove :
    (xs : IdSet) (id k : ℕ) → contains (remove xs id) k ≡ (if id == k then false else contains xs k)
unfolding contains remove
contains-remove [] id k = ground arith
contains-remove (x ∷ xs) id k = ground (arith, contains-remove xs id k, ==_iff x id, ==_iff x k)

pub contains-insert :
    (xs : IdSet) (id k : ℕ) → contains (insert xs id) k ≡ (if id == k then true else contains xs k)
unfolding contains insert
contains-insert xs id k = ground (arith, ==_iff id k)
