-- ===== src/Proto/Push/Delivery.antt =====
-- src/proto/push.rs: where a message goes, and one that was held back.
use scaproust.Prelude.{
  ℕ, ◌≡◌, ◌≢◌, ◌⊎◌, refl, inl, inr, false, Option, Outcome, ok, arith, ◌==◌, ==_iff, Bool-cases,
}
use scaproust.Core.Message.{Message}
use scaproust.Core.Context.{World, Action, Timeout, act}
use scaproust.Proto.Priolist.{Priolist, peek}
use scaproust.Proto.Policy.{balanced_send}
use scaproust.Proto.Policy.Covered.{
  IsCovered, IsBest, Chosen, nothing, chosen, balanced_send-Chosen,
}
use scaproust.Proto.Policy.Upkeep.{activate-IsCovered}
use scaproust.Proto.Policy.Wakeup.{Holds, woken-Chosen}
use scaproust.Proto.Push.Inner
use scaproust.Proto.Push.Inner.{Inner}
use scaproust.Proto.Push.State
use scaproust.Proto.Push.State.{State, idle, sending, send_on_hold, Step}
use scaproust.Proto.Push.Invariant.{IsSound}

-- A message leaves for an active endpoint of the best priority, or is held back while none is.
abbrev pub Leaves : Message → Timeout → Inner → World → Step → Type 0
Leaves msg t inner w r =
    ((peek inner.lb ≡ false) × (r ≡ ok (send_on_hold msg t, inner, w)))
    ⊎ ((id : ℕ) × (lb : Priolist) × IsBest inner.lb id
        × (r ≡ ok (sending id msg t, record inner { lb = lb }, act (Action.send id msg) w)))

pub send-Leaves :
    (msg : Message) (t : Timeout) (inner : Inner) (w : World)
    → IsCovered inner.lb inner.pipes
    → Leaves msg t inner w (State.send msg t inner w)
unfolding State.send Inner.send
send-Leaves msg t inner w c =
    go (balanced_send inner.lb inner.pipes msg w) refl
      (balanced_send-Chosen inner.lb inner.pipes msg w c)
  where
    go :
        (o : Outcome (Option ℕ × Priolist × World))
        → balanced_send inner.lb inner.pipes msg w ≡ o
        → Chosen inner.lb inner.pipes w (λ id. Action.send id msg) o
        → Leaves msg t inner w (State.send msg t inner w)
    go _ e (nothing off) = inl (off, rw (e, State.send, Inner.send))
    go _ e (chosen id lb best c') = inr (id, lb, best, rw (e, State.send, Inner.send))

-- Where the balancer is covered by the pipes and a pipe is removed, the message that was being
-- sent through it leaves again by a best endpoint, or is held back if none is active, and any
-- other state is kept.
pub on_pipe_removed-resends :
    (s : State) (eid : ℕ) (inner : Inner) (w : World)
    → IsCovered inner.lb inner.pipes
    → ((msg : Message) × (t : Timeout) × (s ≡ sending eid msg t)
        × Leaves msg t inner w (State.on_pipe_removed s eid inner w))
      ⊎ (((msg : Message) (t : Timeout) → s ≢ sending eid msg t)
          × (State.on_pipe_removed s eid inner w ≡ ok (s, inner, w)))
unfolding State.on_pipe_removed
on_pipe_removed-resends (sending id msg t) eid inner w c = elim (Bool-cases (id == eid)) [
  | inl same ↦ inl (msg, t, ground (arith, ==_iff id eid), rw same (send-Leaves msg t inner w c))
  | inr other ↦ inr ((λ m u e. ground (arith, ==_iff id eid)), rw other)
]
on_pipe_removed-resends idle eid inner w c = inr ((λ m u e. cc), refl)
on_pipe_removed-resends (send_on_hold _ _) eid inner w c = inr ((λ m u e. cc), refl)

-- A message that a sound state holds back leaves as soon as an endpoint of the balancer can send,
-- by the pipe of that endpoint.
pub on_send_ready-releases :
    (msg : Message) (t : Timeout) (eid : ℕ) (inner : Inner) (w : World)
    → IsSound (send_on_hold msg t) inner
    → Holds inner.lb eid
    → (lb : Priolist) × (State.on_send_ready (send_on_hold msg t) eid inner w
        ≡ ok (sending eid msg t, record inner { lb = lb }, act (Action.send eid msg) w))
unfolding State.on_send_ready Inner.on_send_ready State.send Inner.send
on_send_ready-releases msg t eid inner w h held =
    let (lb, e, c, m) = activate-IsCovered inner.lb eid inner.pipes h.covered in
    let (lb', f) =
      woken-Chosen inner.lb lb eid inner.pipes w (λ id. Action.send id msg) _ h.covered c h.held m
        held (balanced_send-Chosen lb inner.pipes msg w c) in
    (lb', rw (e, State.on_send_ready, Inner.on_send_ready) (rw (f, State.send, Inner.send)))
