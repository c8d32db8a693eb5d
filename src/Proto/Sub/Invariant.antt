-- ===== src/Proto/Sub/Invariant.antt =====
-- src/proto/sub.rs: the sound states of a subscriber, and its transitions.
use scaproust.Prelude.{
  ℕ, ◌+◌, ◌≡◌, refl, inl, inr, false, Option, none, Outcome, ok, arith, ◌==◌, Bool-cases,
}
use scaproust.Core.Message.{Message}
use scaproust.Core.Context.{World, Action, Timeout, act, cancel_timeout}
use scaproust.Core.Log.{replies, replies-cancel_timeout}
use scaproust.Proto.Priolist.{Priolist, peek}
use scaproust.Proto.Policy.{fair_recv}
use scaproust.Proto.Policy.Covered.{IsCovered, Chosen, nothing, chosen, fair_recv-Chosen}
use scaproust.Proto.Policy.Upkeep.{StaysUnready, activate-IsCovered, deactivate-IsCovered}
use scaproust.Proto.Sub.Inner
use scaproust.Proto.Sub.Inner.{Inner}
use scaproust.Proto.Sub.State
use scaproust.Proto.Sub.State.{State, idle, receiving, recv_on_hold, Step, retry}

-- A receive is held back only while no pipe has a message.
abbrev pub Held : State → Inner → Type 0
Held (recv_on_hold timeout) inner = peek inner.fq ≡ false
Held _ inner = Unit {0}

-- The requests of the facade that are not answered yet.
abbrev pub waiting : State → ℕ
waiting idle = 0
waiting _ = 1

pub record IsSound (s : State) (inner : Inner) : Type 0 where
  pub covered : IsCovered inner.fq inner.pipes
  pub held : Held s inner

-- A transition does not panic, ends in a sound state, and leaves `owed` requests answered or waiting.
abbrev pub Ends : World → ℕ → Step → Type 0
Ends w owed r =
    (s : State) × (inner : Inner) × (w' : World) × (r ≡ ok (s, inner, w'))
    × IsSound s inner
    × (replies w'.log + waiting s ≡ replies w.log + owed)

pub recv-Ends :
    (timeout : Timeout) (inner : Inner) (w : World)
    → IsCovered inner.fq inner.pipes
    → Ends w 1 (State.recv timeout inner w)
unfolding State.recv Inner.recv act
recv-Ends timeout inner w c =
    go (fair_recv inner.fq inner.pipes w) refl (fair_recv-Chosen inner.fq inner.pipes w c)
  where
    go :
        (o : Outcome (Option ℕ × Priolist × World))
        → fair_recv inner.fq inner.pipes w ≡ o
        → Chosen inner.fq inner.pipes w Action.recv o
        → Ends w 1 (State.recv timeout inner w)
    go _ e (nothing off) = (
      recv_on_hold timeout,
      inner,
      w,
      rw (e, State.recv, Inner.recv),
      record { covered = c; held = off },
      refl,
    )
    go _ e (chosen id fq best c') = (
      receiving id timeout,
      record inner { fq = fq },
      act (Action.recv id) w,
      rw (e, State.recv, Inner.recv),
      record { covered = c'; held = tt },
      refl,
    )

pub on_pipe_removed-Ends :
    (s : State) (eid : ℕ) (inner : Inner) (w : World)
    → IsSound s inner
    → Ends w (waiting s) (State.on_pipe_removed s eid inner w)
unfolding State.on_pipe_removed
on_pipe_removed-Ends idle eid inner w h = (idle, inner, w, refl, h, refl)
on_pipe_removed-Ends (recv_on_hold t) eid inner w h = (recv_on_hold t, inner, w, refl, h, refl)
on_pipe_removed-Ends (receiving id t) eid inner w h = elim (Bool-cases (id == eid)) [
  | inl same ↦ rw same (recv-Ends t inner w h.covered)
  | inr other ↦ rw other (receiving id t, inner, w, refl, h, refl)
]

pub on_recv_ack-Ends :
    (s : State) (eid : ℕ) (msg : Message) (inner : Inner) (w : World)
    → IsSound s inner
    → Ends w (waiting s) (State.on_recv_ack s eid msg inner w)
unfolding State.on_recv_ack Inner.on_recv_ack act cancel_timeout
on_recv_ack-Ends idle eid msg inner w h = (idle, inner, w, refl, h, refl)
on_recv_ack-Ends (recv_on_hold t) eid msg inner w h = (recv_on_hold t, inner, w, refl, h, refl)
on_recv_ack-Ends (receiving id t) eid msg inner w h = elim (Bool-cases (id == eid)) [
  | inl same ↦ elim (Bool-cases (Inner.accept inner msg)) [
    | inl wanted ↦
        rw (same, wanted)
          (
            idle,
            inner,
            Inner.on_recv_ack t msg w,
            refl,
            record { covered = h.covered; held = tt },
            omega (arith, replies-cancel_timeout t (Inner.on_recv_ack none msg w)),
          )
    | inr unwanted ↦ rw (same, unwanted) (recv-Ends t inner w h.covered)
  ]
  | inr other ↦ rw other (receiving id t, inner, w, refl, h, refl)
]

pub on_recv_timeout-Ends :
    (s : State) (inner : Inner) (w : World)
    → IsSound s inner
    → Ends w 1 (State.on_recv_timeout inner w)
unfolding State.on_recv_timeout Inner.on_recv_timeout act
on_recv_timeout-Ends s inner w h =
    (idle, inner, _, refl, record { covered = h.covered; held = tt }, omega arith)

retry-Ends :
    (s : State) (inner : Inner) (w : World)
    → IsCovered inner.fq inner.pipes
    → Ends w (waiting s) (retry s inner w)
unfolding retry
retry-Ends idle inner w c = (idle, inner, w, refl, record { covered = c; held = tt }, refl)
retry-Ends (receiving id t) inner w c =
    (receiving id t, inner, w, refl, record { covered = c; held = tt }, refl)
retry-Ends (recv_on_hold t) inner w c = recv-Ends t inner w c

pub on_recv_ready-Ends :
    (s : State) (eid : ℕ) (inner : Inner) (w : World)
    → IsSound s inner
    → Ends w (waiting s) (State.on_recv_ready s eid inner w)
unfolding State.on_recv_ready Inner.on_recv_ready
on_recv_ready-Ends s eid inner w h =
    let (fq, e, c, _) = activate-IsCovered inner.fq eid inner.pipes h.covered in
    rw (e, State.on_recv_ready, Inner.on_recv_ready) (retry-Ends s (record inner { fq = fq }) w c)

-- A state stays sound over a list that is not readier.
pub keep-Held :
    (s : State) (inner inner' : Inner)
    → StaysUnready inner.fq inner'.fq
    → Held s inner
    → Held s inner'
keep-Held idle inner inner' stays h = tt
keep-Held (receiving id t) inner inner' stays h = tt
keep-Held (recv_on_hold t) inner inner' stays h = stays h

pub on_recv_not_ready-Ends :
    (s : State) (eid : ℕ) (inner : Inner) (w : World)
    → IsSound s inner
    → Ends w (waiting s) (State.on_recv_not_ready s eid inner w)
unfolding State.on_recv_not_ready Inner.on_recv_not_ready
on_recv_not_ready-Ends s eid inner w h =
    let (fq, e, c, stays) = deactivate-IsCovered inner.fq eid inner.pipes h.covered in
    (
      s,
      record inner { fq = fq },
      w,
      rw e,
      record { covered = c; held = keep-Held s inner _ stays h.held },
      refl,
    )

pub send-Ends :
    (s : State) (t : Timeout) (inner : Inner) (w : World)
    → IsSound s inner
    → Ends w (waiting s + 1) (State.send s t inner w)
unfolding State.send Inner.send act cancel_timeout
send-Ends s t inner w h =
    (s, inner, Inner.send t w, refl, h, omega (arith, replies-cancel_timeout t (Inner.send none w)))
