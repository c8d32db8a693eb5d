-- ===== src/Proto/Policy/Covered.antt =====
-- src/proto/policy.rs over a list whose endpoints all have a pipe: what is chosen, and when nothing.
use scaproust.Prelude.{
  ℕ, ◌≡◌, ◌≤◌, refl, true, false, Option, none, some, List, Outcome, ok, get_elem?,
}
use scaproust.Core.Message.{Message}
use scaproust.Core.Endpoint.{Pipe}
use scaproust.Core.Context.{World, Action, act}
use scaproust.Proto.Priolist.{Item, Priolist, pop, peek}
use scaproust.Proto.Priolist.Invariant.{IsValid}
use scaproust.Proto.Priolist.Activate.{with_active, with_active-same}
use scaproust.Proto.Priolist.Pop.{PopResult, empty, popped, pop-PopResult}
use scaproust.Proto.Pipes
use scaproust.Proto.Pipes.{PipeCollection, send_to, recv_from}
use scaproust.Proto.Policy.{fair_recv, balanced_send}

-- Every endpoint of the list has a pipe, and the pipe carries the endpoint's identifier.
abbrev pub HasPipes : List Item → PipeCollection → Type 0
HasPipes items pipes =
    (j : ℕ) (x : Item)
    → get_elem? items j ≡ some x
    → (p : Pipe) × (Pipes.get pipes x.value ≡ some p) × (p.id ≡ x.value)

pub record IsCovered (l : Priolist) (pipes : PipeCollection) : Type 0 where
  pub valid : IsValid l
  pub has_pipes : HasPipes l.items pipes

-- An active endpoint that no active endpoint beats.
abbrev pub IsBest : Priolist → ℕ → Type 0
IsBest l id =
    (i : ℕ) × (x : Item) × (get_elem? l.items i ≡ some x)
    × (x.value ≡ id)
    × (x.active ≡ true)
    × ((j : ℕ) (y : Item)
        → get_elem? l.items j ≡ some y
        → y.active ≡ true
        → x.priority ≤ y.priority)

-- The choice of an endpoint: none where none is active, else a best one, on which the action is
-- performed; the list is covered still.
pub data Chosen (l : Priolist) (pipes : PipeCollection) (w : World) (action : ℕ → Action)
    : Outcome (Option ℕ × Priolist × World) → Type 0 where
  nothing : peek l ≡ false → Chosen l pipes w action (ok (none, l, w))
  chosen :
      (id : ℕ) (l' : Priolist)
      → IsBest l id
      → IsCovered l' pipes
      → Chosen l pipes w action (ok (some id, l', act (action id) w))

popped-HasPipes :
    (l : Priolist) (pipes : PipeCollection) (i : ℕ) (x : Item)
    → HasPipes l.items pipes
    → get_elem? l.items i ≡ some x
    → HasPipes (with_active l.items i x false) pipes
popped-HasPipes l pipes i x h e j y f =
    let (z, g, same, _) = with_active-same l.items i x false j y e f in rw same (h j z g)

-- Where the queue is valid and every endpoint it knows has its pipe, receiving never panics: one
-- active endpoint of the best active priority is asked, and the lists stay covered; if no endpoint
-- is active, nothing is asked and nothing changes.
pub fair_recv-Chosen :
    (fq : Priolist) (pipes : PipeCollection) (w : World)
    → IsCovered fq pipes
    → Chosen fq pipes w Action.recv (fair_recv fq pipes w)
unfolding fair_recv recv_from
fair_recv-Chosen fq pipes w c = go (pop fq) refl (pop-PopResult fq c.valid)
  where
    go :
        (o : Outcome (Option ℕ × Priolist))
        → pop fq ≡ o
        → PopResult fq o
        → Chosen fq pipes w Action.recv (fair_recv fq pipes w)
    go _ e (empty off idle) = rw (e, fair_recv) (nothing off)
    go _ e (popped i x cur f on best next v) =
        let (p, g, same) = c.has_pipes i x f in
        rw (e, fair_recv)
          (rw (g, recv_from)
            (rw same (
              chosen x.value _ (i, x, f, refl, on, best)
                (record { valid = v; has_pipes = popped-HasPipes fq pipes i x c.has_pipes f }))))

-- Where the balancer is valid and every endpoint it knows has its pipe, sending never panics: the
-- message leaves by one active endpoint of the best active priority, and the lists stay covered;
-- if no endpoint is active, nothing is sent and nothing changes.
pub balanced_send-Chosen :
    (lb : Priolist) (pipes : PipeCollection) (msg : Message) (w : World)
    → IsCovered lb pipes
    → Chosen lb pipes w (λ id. Action.send id msg) (balanced_send lb pipes msg w)
unfolding balanced_send send_to
balanced_send-Chosen lb pipes msg w c = go (pop lb) refl (pop-PopResult lb c.valid)
  where
    go :
        (o : Outcome (Option ℕ × Priolist))
        → pop lb ≡ o
        → PopResult lb o
        → Chosen lb pipes w (λ id. Action.send id msg) (balanced_send lb pipes msg w)
    go _ e (empty off idle) = rw (e, balanced_send) (nothing off)
    go _ e (popped i x cur f on best next v) =
        let (p, g, same) = c.has_pipes i x f in
        rw (e, balanced_send)
          (rw (g, send_to)
            (rw same (
              chosen x.value _ (i, x, f, refl, on, best)
                (record { valid = v; has_pipes = popped-HasPipes lb pipes i x c.has_pipes f }))))
