-- ===== src/Proto/Push/Invariant.antt =====
-- src/proto/push.rs: the sound states of a push socket, and its transitions.
use scaproust.Prelude.{
  ℕ, ◌+◌, ◌≡◌, refl, inl, inr, false, Option, none, Outcome, ok, arith, ◌==◌, Bool-cases,
}
use scaproust.Core.Message.{Message}
use scaproust.Core.Context.{World, Action, Timeout, act, cancel_timeout}
use scaproust.Core.Log.{replies, replies-cancel_timeout}
use scaproust.Proto.Priolist.{Priolist, peek}
use scaproust.Proto.Policy.{balanced_send}
use scaproust.Proto.Policy.Covered.{IsCovered, Chosen, nothing, chosen, balanced_send-Chosen}
use scaproust.Proto.Policy.Upkeep.{StaysUnready, activate-IsCovered, deactivate-IsCovered}
use scaproust.Proto.Push.Inner
use scaproust.Proto.Push.Inner.{Inner}
use scaproust.Proto.Push.State
use scaproust.Proto.Push.State.{State, idle, sending, send_on_hold, Step, resend}

-- A message is held back only while no pipe can take it.
abbrev pub Held : State → Inner → Type 0
Held (send_on_hold msg timeout) inner = peek inner.lb ≡ false
Held _ inner = Unit {0}

-- The requests of the facade that are not answered yet.
abbrev pub waiting : State → ℕ
waiting idle = 0
waiting _ = 1

pub record IsSound (s : State) (inner : Inner) : Type 0 where
  pub covered : IsCovered inner.lb inner.pipes
  pub held : Held s inner

-- A transition does not panic, ends in a sound state, and leaves `owed` requests answered or waiting.
abbrev pub Ends : World → ℕ → Step → Type 0
Ends w owed r =
    (s : State) × (inner : Inner) × (w' : World) × (r ≡ ok (s, inner, w'))
    × IsSound s inner
    × (replies w'.log + waiting s ≡ replies w.log + owed)

pub send-Ends :
    (msg : Message) (timeout : Timeout) (inner : Inner) (w : World)
    → IsCovered inner.lb inner.pipes
    → Ends w 1 (State.send msg timeout inner w)
unfolding State.send Inner.send act
send-Ends msg timeout inner w c =
    go (balanced_send inner.lb inner.pipes msg w) refl
      (balanced_send-Chosen inner.lb inner.pipes msg w c)
  where
    go :
        (o : Outcome (Option ℕ × Priolist × World))
        → balanced_send inner.lb inner.pipes msg w ≡ o
        → Chosen inner.lb inner.pipes w (λ id. Action.send id msg) o
        → Ends w 1 (State.send msg timeout inner w)
    go _ e (nothing off) = (
      send_on_hold msg timeout,
      inner,
      w,
      rw (e, State.send, Inner.send),
      record { covered = c; held = off },
      refl,
    )
    go _ e (chosen id lb best c') = (
      sending id msg timeout,
      record inner { lb = lb },
      act (Action.send id msg) w,
      rw (e, State.send, Inner.send),
      record { covered = c'; held = tt },
      refl,
    )

pub on_pipe_removed-Ends :
    (s : State) (eid : ℕ) (inner : Inner) (w : World)
    → IsSound s inner
    → Ends w (waiting s) (State.on_pipe_removed s eid inner w)
unfolding State.on_pipe_removed
on_pipe_removed-Ends idle eid inner w h = (idle, inner, w, refl, h, refl)
on_pipe_removed-Ends (send_on_hold msg t) eid inner w h =
    (send_on_hold msg t, inner, w, refl, h, refl)
on_pipe_removed-Ends (sending id msg t) eid inner w h = elim (Bool-cases (id == eid)) [
  | inl same ↦ rw same (send-Ends msg t inner w h.covered)
  | inr other ↦ rw other (sending id msg t, inner, w, refl, h, refl)
]

pub on_send_ack-Ends :
    (s : State) (eid : ℕ) (inner : Inner) (w : World)
    → IsSound s inner
    → Ends w (waiting s) (State.on_send_ack s eid inner w)
unfolding State.on_send_ack Inner.on_send_ack act cancel_timeout
on_send_ack-Ends idle eid inner w h = (idle, inner, w, refl, h, refl)
on_send_ack-Ends (send_on_hold msg t) eid inner w h = (send_on_hold msg t, inner, w, refl, h, refl)
on_send_ack-Ends (sending id msg t) eid inner w h = elim (Bool-cases (id == eid)) [
  | inl same ↦ rw same (
    idle,
    inner,
    Inner.on_send_ack t w,
    refl,
    record { covered = h.covered; held = tt },
    omega (arith, replies-cancel_timeout t (Inner.on_send_ack none w)),
  )
  | inr other ↦ rw other (sending id msg t, inner, w, refl, h, refl)
]

pub on_send_timeout-Ends :
    (s : State) (inner : Inner) (w : World)
    → IsSound s inner
    → Ends w 1 (State.on_send_timeout inner w)
unfolding State.on_send_timeout Inner.on_send_timeout act
on_send_timeout-Ends s inner w h =
    (idle, inner, _, refl, record { covered = h.covered; held = tt }, omega arith)

resend-Ends :
    (s : State) (inner : Inner) (w : World)
    → IsCovered inner.lb inner.pipes
    → Ends w (waiting s) (resend s inner w)
unfolding resend
resend-Ends idle inner w c = (idle, inner, w, refl, record { covered = c; held = tt }, refl)
resend-Ends (sending id msg t) inner w c =
    (sending id msg t, inner, w, refl, record { covered = c; held = tt }, refl)
resend-Ends (send_on_hold msg t) inner w c = send-Ends msg t inner w c

pub on_send_ready-Ends :
    (s : State) (eid : ℕ) (inner : Inner) (w : World)
    → IsSound s inner
    → Ends w (waiting s) (State.on_send_ready s eid inner w)
unfolding State.on_send_ready Inner.on_send_ready
on_send_ready-Ends s eid inner w h =
    let (lb, e, c, _) = activate-IsCovered inner.lb eid inner.pipes h.covered in
    rw (e, State.on_send_ready, Inner.on_send_ready) (resend-Ends s (record inner { lb = lb }) w c)

-- A state stays sound over a list that is not readier.
pub keep-Held :
    (s : State) (inner inner' : Inner)
    → StaysUnready inner.lb inner'.lb
    → Held s inner
    → Held s inner'
keep-Held idle inner inner' stays h = tt
keep-Held (sending id msg t) inner inner' stays h = tt
keep-Held (send_on_hold msg t) inner inner' stays h = stays h

pub on_send_not_ready-Ends :
    (s : State) (eid : ℕ) (inner : Inner) (w : World)
    → IsSound s inner
    → Ends w (waiting s) (State.on_send_not_ready s eid inner w)
unfolding State.on_send_not_ready Inner.on_send_not_ready
on_send_not_ready-Ends s eid inner w h =
    let (lb, e, c, stays) = deactivate-IsCovered inner.lb eid inner.pipes h.covered in
    (
      s,
      record inner { lb = lb },
      w,
      rw e,
      record { covered = c; held = keep-Held s inner _ stays h.held },
      refl,
    )

pub recv-Ends :
    (s : State) (t : Timeout) (inner : Inner) (w : World)
    → IsSound s inner
    → Ends w (waiting s + 1) (State.recv s t inner w)
unfolding State.recv Inner.recv act cancel_timeout
recv-Ends s t inner w h =
    (s, inner, Inner.recv t w, refl, h, omega (arith, replies-cancel_timeout t (Inner.recv none w)))
