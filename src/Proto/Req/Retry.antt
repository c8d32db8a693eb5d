-- ===== src/Proto/Req/Retry.antt =====
-- src/proto/req.rs: where a request goes, when the resend timer sends it again, and when a receive
-- is refused.
use scaproust.Prelude.{
  ◌==◌, ==_iff, Bool-cases, Option-cases, ◌≢◌, arith, ℕ, ◌≡◌, ◌∙◌, ◌⊎◌, ◌∷◌, refl, inl, inr, Bool,
  true, false, Option, none, some, Outcome, ok,
}
use scaproust.Core.Message.{Message}
use scaproust.Core.Endpoint.{Pipe}
use scaproust.Core.Context.{World, Action, Reply, Timeout, other, act, cancel_timeout}
use scaproust.Core.Log.{cancelled}
use scaproust.Proto.Pipes
use scaproust.Proto.Ids
use scaproust.Proto.Req.Inner
use scaproust.Proto.Req.Inner.{Inner, PendingRequest}
use scaproust.Proto.Req.State
use scaproust.Proto.Req.State.{
  State, idle, sending, send_on_hold, active, receiving, recv_on_hold, recv_reply_for, recv_active,
}
use scaproust.Proto.Priolist.{Priolist, peek}
use scaproust.Proto.Policy.{balanced_send}
use scaproust.Proto.Policy.Covered.{
  IsCovered, IsBest, Chosen, nothing, chosen, balanced_send-Chosen,
}
use scaproust.Proto.Req.Receive.{recv-own}

-- A message leaves for an active endpoint of the best priority, or is held back while none is.
abbrev pub Leaves : Message → Timeout → Bool → Inner → World → State.Step → Type 0
Leaves msg t retry inner w r =
    ((peek inner.lb ≡ false) × (r ≡ ok (send_on_hold msg t retry, inner, w)))
    ⊎ ((id : ℕ) × (lb : Priolist) × IsBest inner.lb id
        × (r ≡ ok (sending id msg t retry, record inner { lb = lb }, act (Action.send id msg) w)))

send-Leaves :
    (msg : Message) (t : Timeout) (retry : Bool) (inner : Inner) (w : World)
    → IsCovered inner.lb inner.pipes
    → Leaves msg t retry inner w (State.send idle msg t retry inner w)
unfolding State.send Inner.send State.cancel_active
send-Leaves msg t retry inner w c =
    go (balanced_send inner.lb inner.pipes msg w) refl
      (balanced_send-Chosen inner.lb inner.pipes msg w c)
  where
    go :
        (o : Outcome (Option ℕ × Priolist × World))
        → balanced_send inner.lb inner.pipes msg w ≡ o
        → Chosen inner.lb inner.pipes w (λ id. Action.send id msg) o
        → Leaves msg t retry inner w (State.send idle msg t retry inner w)
    go _ e (nothing off) = inl (off, rw (e, State.send, Inner.send))
    go _ e (chosen id lb best c') = inr (id, lb, best, rw (e, State.send, Inner.send))

abbrev pub IsActive : State → Type 0
IsActive (active id p) = Unit {0}
IsActive _ = ⊥

-- Where the balancer is covered by the pipes and the resend timer fires, an active request is sent
-- again, with no timer and as a retry; in any other state nothing happens.
pub on_retry_timeout-cases :
    (s : State) (inner : Inner) (w : World)
    → IsCovered inner.lb inner.pipes
    → ((id : ℕ) × (p : PendingRequest) × (s ≡ active id p)
        × Leaves p.req none true inner w (State.on_retry_timeout s inner w))
      ⊎ ((¬ IsActive s) × (State.on_retry_timeout s inner w ≡ ok (s, inner, w)))
unfolding State.on_retry_timeout
on_retry_timeout-cases (active id p) inner w c =
    inl (id, p, refl, send-Leaves p.req none true inner w c)
on_retry_timeout-cases idle inner w c = inr (λ h. h, refl)
on_retry_timeout-cases (sending _ _ _ _) inner w c = inr (λ h. h, refl)
on_retry_timeout-cases (send_on_hold _ _ _) inner w c = inr (λ h. h, refl)
on_retry_timeout-cases (receiving _ _ _) inner w c = inr (λ h. h, refl)
on_retry_timeout-cases (recv_on_hold _ _ _) inner w c = inr (λ h. h, refl)

-- The pipe of the request is asked for the reply, if it is there, and else waited for.
abbrev pub Asks : ℕ → PendingRequest → Timeout → Inner → World → State.Step → Type 0
Asks id p t inner w r =
    ((Pipes.get inner.pipes id ≡ none)
      × (r
          ≡ ok
              (recv_on_hold (some id) (some p) t, record inner { rv = Ids.remove inner.rv id }, w)))
    ⊎ ((pipe : Pipe) × (Pipes.get inner.pipes id ≡ some pipe)
        × (r
            ≡ ok (
              receiving id (some p) t,
              record inner { rv = Ids.remove inner.rv id },
              record w { log = Action.recv pipe.id ∷ w.log },
            )))

recv_reply_for-Asks :
    (t : Timeout) (id : ℕ) (p : PendingRequest) (inner : Inner) (w : World)
    → Asks id p t inner w (recv_reply_for t id p inner w)
unfolding recv_reply_for Inner.recv_reply_from act
recv_reply_for-Asks t id p inner w = elim (Option-cases (Pipes.get inner.pipes id)) [
  | inl absent ↦ inl (absent, rw (absent, recv_reply_for, Inner.recv_reply_from))
  | inr (pipe, found) ↦ inr (pipe, found, rw (found, recv_reply_for, Inner.recv_reply_from))
]

-- The receive is answered by an error and its timer is cancelled, no other; the socket is idle.
abbrev pub Refused : Timeout → Inner → World → State.Step → Type 0
Refused t inner w r =
    r
    ≡ ok (
      idle,
      inner,
      record w {
        log = cancelled t (
            Action.reply
              (Reply.err (record { kind = other; text = "Can't recv: no active request" }))
            ∷ w.log);
      },
    )

recv_when_inactive-Refused :
    (t : Timeout) (inner : Inner) (w : World)
    → Refused t inner w (ok (idle, inner, Inner.recv_when_inactive t w))
unfolding Inner.recv_when_inactive act cancel_timeout
recv_when_inactive-Refused none inner w = refl
recv_when_inactive-Refused (some sched) inner w = refl

-- A receive on a socket of its own: with an active request the pipe of the request is asked for a
-- message where it is there, and is waited for where it is not; in any other state, a resend under
-- way included, the receive is answered at once by an error, its timer is cancelled, and the socket
-- is idle.
pub recv-own_cases :
    (s : State) (t : Timeout) (inner : Inner) (w : World)
    → inner.is_device_item ≡ false
    → ((id : ℕ) × (p : PendingRequest) × (s ≡ active id p)
        × Asks id p t inner w (State.recv s t inner w))
      ⊎ ((¬ IsActive s) × Refused t inner w (State.recv s t inner w))
unfolding recv_active
recv-own_cases s t inner w own = rw (recv-own s t inner w own) (go s)
  where
    refused : Refused t inner w (ok (idle, inner, Inner.recv_when_inactive t w))
    refused = recv_when_inactive-Refused t inner w

    go :
        (r : State)
        → ((id : ℕ) × (p : PendingRequest) × (r ≡ active id p)
            × Asks id p t inner w (recv_active r t inner w))
          ⊎ ((¬ IsActive r) × Refused t inner w (recv_active r t inner w))
    go (active id p) = inl (id, p, refl, recv_reply_for-Asks t id p inner w)
    go idle = inr (λ h. h, refused)
    go (sending _ _ _ _) = inr (λ h. h, refused)
    go (send_on_hold _ _ _) = inr (λ h. h, refused)
    go (receiving _ _ _) = inr (λ h. h, refused)
    go (recv_on_hold _ _ _) = inr (λ h. h, refused)

-- On a socket of its own that waits for the reply to a request, the loss of the pipe of the request
-- is answered by an error and leaves the socket idle; the timer of the receive is cancelled, and the
-- resend timer of the request, which is forgotten, is not. The loss of another pipe changes nothing.
pub on_pipe_removed-forgets :
    (id eid : ℕ) (p : PendingRequest) (t : Timeout) (inner : Inner) (w : World)
    → inner.is_device_item ≡ false
    → ((eid ≡ id) × Refused t inner w (State.on_pipe_removed (receiving id (some p) t) eid inner w))
      ⊎ ((eid ≢ id)
          × (State.on_pipe_removed (receiving id (some p) t) eid inner w
              ≡ ok (receiving id (some p) t, inner, w)))
unfolding State.on_pipe_removed recv_active
on_pipe_removed-forgets id eid p t inner w own = elim (Bool-cases (eid == id)) [
  | inl same ↦ inl (
    (==_iff eid id).0 same,
    rw same (recv-own idle t inner w own ∙ recv_when_inactive-Refused t inner w),
  )
  | inr differs ↦ inr ((λ e. ground (arith, ==_iff eid id)), rw differs refl)
]
