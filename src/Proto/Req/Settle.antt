-- ===== src/Proto/Req/Settle.antt =====
-- src/proto/req.rs: the timeout of a receive, the readiness of a pipe and its removal.
use scaproust.Prelude.{ℕ, suc, ◌≡◌, refl, inl, inr, none, some, arith, ◌==◌, Bool-cases}
use scaproust.Core.Context.{World, Timeout, act, cancel_timeout}
use scaproust.Core.Log.{replies}
use scaproust.Proto.Priolist.{Priolist}
use scaproust.Proto.Ids
use scaproust.Proto.Ids.{IdSet}
use scaproust.Proto.Policy.Covered.{IsCovered}
use scaproust.Proto.Policy.Upkeep.{activate-IsCovered, deactivate-IsCovered}
use scaproust.Proto.Req.Inner
use scaproust.Proto.Req.Inner.{Inner, PendingRequest}
use scaproust.Proto.Req.State
use scaproust.Proto.Req.State.{
  State, idle, sending, send_on_hold, active, receiving, recv_on_hold, Step, cancel_active,
  recv_any, recv_active, recv_reply_for, send_held, recv_held,
}
use scaproust.Proto.Req.Invariant.{Held, waiting, IsSound, Ends, free, keep-Held, send-Ends}
use scaproust.Proto.Req.Receive.{recv-Ends}

-- `Inner::on_recv_timeout` makes one reply.
pub replies-on_recv_timeout :
    (r : Timeout) (w : World) → replies (Inner.on_recv_timeout r w).log ≡ suc (replies w.log)
unfolding Inner.on_recv_timeout act cancel_timeout
replies-on_recv_timeout none w = refl
replies-on_recv_timeout (some r) w = refl

-- The states in which a receive waits.
abbrev pub IsReceiving : State → Type 0
IsReceiving (receiving id p t) = Unit {0}
IsReceiving (recv_on_hold id p t) = Unit {0}
IsReceiving _ = ⊥

pub on_recv_timeout-Ends :
    (s : State) (inner : Inner) (w : World)
    → IsSound s inner
    → IsReceiving s
    → Ends w (waiting s) (State.on_recv_timeout s inner w)
unfolding State.on_recv_timeout
on_recv_timeout-Ends (receiving id none t) inner w h _ =
    (idle, inner, _, refl, free _ idle inner h tt, omega (arith, replies-on_recv_timeout none w))
on_recv_timeout-Ends (receiving id (some p) t) inner w h _ = (
  idle,
  inner,
  _,
  refl,
  free _ idle inner h tt,
  omega (arith, replies-on_recv_timeout p.retry_timeout w),
)
on_recv_timeout-Ends (recv_on_hold id none t) inner w h _ =
    (idle, inner, _, refl, free _ idle inner h tt, omega (arith, replies-on_recv_timeout none w))
on_recv_timeout-Ends (recv_on_hold id (some p) t) inner w h _ = (
  idle,
  inner,
  _,
  refl,
  free _ idle inner h tt,
  omega (arith, replies-on_recv_timeout p.retry_timeout w),
)
on_recv_timeout-Ends idle inner w h r = absurd r
on_recv_timeout-Ends (sending _ _ _ _) inner w h r = absurd r
on_recv_timeout-Ends (send_on_hold _ _ _) inner w h r = absurd r
on_recv_timeout-Ends (active _ _) inner w h r = absurd r

recv_held-Ends :
    (s : State) (eid : ℕ) (inner : Inner) (fq : Priolist) (rv : IdSet) (w : World)
    → IsSound s inner
    → IsCovered fq inner.pipes
    → Ends w (waiting s) (recv_held s eid (record inner { fq = fq; rv = rv }) w)
unfolding recv_held
recv_held-Ends s eid inner fq rv w h c = go s h.held
  where
    inner' : Inner
    inner' = record inner { fq = fq; rv = rv }

    sound : (r : State) → Held r inner' → IsSound r inner'
    sound r held = record { lb_covered = h.lb_covered; fq_covered = c; held = held }

    go : (r : State) → Held r inner → Ends w (waiting r) (recv_held r eid inner' w)
    go (recv_on_hold none none t) held = recv-Ends idle idle t inner' w (sound idle tt)
    go (recv_on_hold (some id) (some p) t) held = elim (Bool-cases (eid == id)) [
      | inl same ↦ rw same (recv-Ends (active id p) idle t inner' w (sound idle tt))
      | inr other ↦
          rw other (_, inner', w, refl, sound (recv_on_hold (some id) (some p) t) tt, refl)
    ]
    go (recv_on_hold none (some p) t) held = absurd held
    go (recv_on_hold (some id) none t) held = absurd held
    go idle held = (idle, inner', w, refl, sound idle tt, refl)
    go (sending i m t r) held = (sending i m t r, inner', w, refl, sound (sending i m t r) tt, refl)
    go (send_on_hold m t r) held =
        (send_on_hold m t r, inner', w, refl, sound (send_on_hold m t r) held, refl)
    go (active i p) held = (active i p, inner', w, refl, sound (active i p) tt, refl)
    go (receiving i p t) held = (receiving i p t, inner', w, refl, sound (receiving i p t) tt, refl)

pub on_recv_ready-Ends :
    (s : State) (eid : ℕ) (inner : Inner) (w : World)
    → IsSound s inner
    → Ends w (waiting s) (State.on_recv_ready s eid inner w)
unfolding State.on_recv_ready Inner.on_recv_ready
on_recv_ready-Ends s eid inner w h =
    let (fq, e, c, _) = activate-IsCovered inner.fq eid inner.pipes h.fq_covered in
    rw (e, State.on_recv_ready, Inner.on_recv_ready)
      (recv_held-Ends s eid inner fq (Ids.insert inner.rv eid) w h c)

pub on_recv_not_ready-Ends :
    (s : State) (eid : ℕ) (inner : Inner) (w : World)
    → IsSound s inner
    → Ends w (waiting s) (State.on_recv_not_ready s eid inner w)
unfolding State.on_recv_not_ready Inner.on_recv_not_ready
on_recv_not_ready-Ends s eid inner w h =
    let (fq, e, c, stays) = deactivate-IsCovered inner.fq eid inner.pipes h.fq_covered in
    let inner' : Inner = record inner { fq = fq; rv = Ids.remove inner.rv eid } in
    (
      s,
      inner',
      w,
      rw e,
      record {
        lb_covered = h.lb_covered;
        fq_covered = c;
        held = keep-Held s inner inner' (λ off. off) stays h.held;
      },
      refl,
    )

pub on_pipe_removed-Ends :
    (s : State) (eid : ℕ) (inner : Inner) (w : World)
    → IsSound s inner
    → Ends w (waiting s) (State.on_pipe_removed s eid inner w)
unfolding State.on_pipe_removed
on_pipe_removed-Ends (sending id msg t retry) eid inner w h = elim (Bool-cases (id == eid)) [
  | inl same ↦ rw same (send-Ends idle _ msg t retry inner w h)
  | inr other ↦ rw other (_, inner, w, refl, h, refl)
]
on_pipe_removed-Ends (receiving id p t) eid inner w h = elim (Bool-cases (eid == id)) [
  | inl same ↦ rw same (recv-Ends idle _ t inner w h)
  | inr other ↦ rw other (_, inner, w, refl, h, refl)
]
on_pipe_removed-Ends idle eid inner w h = (_, inner, w, refl, h, refl)
on_pipe_removed-Ends (send_on_hold _ _ _) eid inner w h = (_, inner, w, refl, h, refl)
on_pipe_removed-Ends (active _ _) eid inner w h = (_, inner, w, refl, h, refl)
on_pipe_removed-Ends (recv_on_hold _ _ _) eid inner w h = (_, inner, w, refl, h, refl)
