-- ===== src/Proto/Pipes.antt =====
-- src/proto/pipes.rs: the pipes of a protocol by identifier. The hash map is an association list;
-- its iteration order, which `close_all` takes, is that of the list.
use scaproust.Prelude.{
  ℕ, ◌≡◌, Option, none, some, List, [], ◌∷◌, arith, ◌==◌, ==_iff, if◌then◌else◌,
}
use scaproust.Core.Message.{Message}
use scaproust.Core.Endpoint.{Pipe}
use scaproust.Core.Context.{World, Action, act, close_pipe}

abbrev pub PipeCollection : Type 0
PipeCollection = List (ℕ × Pipe)

unfoldable pub get : PipeCollection → ℕ → Option Pipe
get [] id = none
get ((k, p) ∷ ps) id = if k == id then some p else get ps id

unfoldable pub remove : PipeCollection → ℕ → PipeCollection
remove [] id = []
remove ((k, p) ∷ ps) id = let rest = remove ps id in if k == id then rest else (k, p) ∷ rest

unfoldable pub insert : PipeCollection → ℕ → Pipe → PipeCollection
insert ps id p = (id, p) ∷ remove ps id

-- `pipe.send(ctx, msg)` on the pipe of the identifier, if it is there.
unfoldable pub send_to : PipeCollection → Message → ℕ → World → Option ℕ × World
send_to ps msg eid w = elim (get ps eid) [
  | none ↦ (none, w)
  | some pipe ↦ (some eid, act (Action.send pipe.id msg) w)
]

unfoldable pub recv_from : PipeCollection → ℕ → World → Option ℕ × World
recv_from ps eid w = elim (get ps eid) [
  | none ↦ (none, w)
  | some pipe ↦ (some eid, act (Action.recv pipe.id) w)
]

unfoldable pub close_all : PipeCollection → World → PipeCollection × World
close_all [] w = ([], w)
close_all ((k, p) ∷ ps) w = close_all ps (close_pipe p w).1

pub get-remove :
    (ps : PipeCollection) (id k : ℕ) → get (remove ps id) k ≡ (if id == k then none else get ps k)
unfolding get remove
get-remove [] id k = ground arith
get-remove ((j, p) ∷ ps) id k =
    ground (arith, get-remove ps id k, ==_iff j id, ==_iff j k, ==_iff id k)

pub get-insert :
    (ps : PipeCollection) (id k : ℕ) (p : Pipe)
    → get (insert ps id p) k ≡ (if id == k then some p else get ps k)
unfolding get insert
get-insert ps id k p = ground (arith, get-remove ps id k)
