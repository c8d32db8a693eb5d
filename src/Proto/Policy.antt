-- ===== src/Proto/Policy.antt =====
-- src/proto/policy.rs: fair queueing of receives and load balancing of sends over a priority list.
pub mod Covered
pub mod Upkeep
pub mod Wakeup
pub mod Broadcast
mod Examples
use scaproust.Prelude.{ℕ, Option, none, some, Outcome, ok, ◌>>=◌}
use scaproust.Core.Message.{Message}
use scaproust.Core.Context.{World}
use scaproust.Proto.Priolist.{Priolist, pop}
use scaproust.Proto.Pipes.{PipeCollection, send_to, recv_from}

-- `fair_queue::recv`
unfoldable pub fair_recv : Priolist → PipeCollection → World → Outcome (Option ℕ × Priolist × World)
fair_recv fq pipes w = do
  (popped, fq') ← pop fq
  elim popped [
    | none ↦ ok (none, fq', w)
    | some eid ↦ (let (r, w') = recv_from pipes eid w in ok (r, fq', w'))
  ]

-- `load_balancing::send`
unfoldable pub balanced_send :
    Priolist → PipeCollection → Message → World → Outcome (Option ℕ × Priolist × World)
balanced_send lb pipes msg w = do
  (popped, lb') ← pop lb
  elim popped [
    | none ↦ ok (none, lb', w)
    | some eid ↦ (let (r, w') = send_to pipes msg eid w in ok (r, lb', w'))
  ]
