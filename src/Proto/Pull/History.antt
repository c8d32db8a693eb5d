-- ===== src/Proto/Pull/History.antt =====
-- src/proto/pull.rs: a pull socket over any sequence of calls.
use scaproust.Prelude.{
  ℕ, ◌+◌, ◌≡◌, ◌≢◌, ◌≤◌, refl, ap, ◌∙◌, inl, inr, none, some, Outcome, arith, subst, Option-cases,
}
use native.Mathlib.Nat.{add-zero}
use scaproust.Core.Endpoint.{Pipe, get_recv_priority}
use scaproust.Core.Context.{World, check_recv_ready_change}
use scaproust.Core.Log.{replies, replies-check_recv_ready_change}
use scaproust.Proto.Priolist.Invariant.{IsFresh}
use scaproust.Proto.Priolist.Remove.{Displaces}
use scaproust.Proto.Pipes
use scaproust.Proto.Policy.Upkeep.{insert-IsCovered, remove-IsCovered}
use scaproust.Proto.Call.{Call}
use scaproust.Proto.Answering
use scaproust.Proto.Answering.{Run, Run-answered, requests}
use scaproust.Proto.Pull.Inner
use scaproust.Proto.Pull.Inner.{Inner}
use scaproust.Proto.Pull.State
use scaproust.Proto.Pull.State.{State, idle, receiving, recv_on_hold, Step, retry}
use scaproust.Proto.Pull.{Pull, apply, stay, step, remove_pipe}
use scaproust.Proto.Pull.Invariant.{
  waiting, IsSound, Ends, keep-Held, recv-Ends, on_pipe_removed-Ends, on_recv_ack-Ends,
  on_recv_timeout-Ends, on_recv_ready-Ends, on_recv_not_ready-Ends, send-Ends,
}

-- A socket whose state is there and sound.
pub record IsValid (p : Pull) : Type 0 where
  pub state : State
  pub present : p.state ≡ some state
  pub sound : IsSound state p.inner

-- What the code around the socket sees to: endpoints are new, priorities documented, one request
-- is made at a time, its timer fires only before the answer. A removed pipe does not displace the
-- current one, and a closed socket is called no more.
abbrev pub Admissible : Pull → Call → Type 0
Admissible p (Call.add_pipe eid pipe) =
    IsFresh p.inner.fq eid × (get_recv_priority pipe ≤ 16) × (pipe.id ≡ eid)
Admissible p (Call.remove_pipe eid) = ¬ Displaces p.inner.fq eid
Admissible p (Call.recv timeout) = p.state ≡ some idle
Admissible p Call.on_recv_timeout = p.state ≢ some idle
Admissible p Call.close = ⊥
Admissible p _ = Unit {0}

abbrev pub waiting_in : Pull → ℕ
waiting_in p = elim p.state [ none ↦ 0 | some s ↦ waiting s ]

-- A call does not panic, keeps the socket valid, and loses no request and answers none twice.
abbrev pub Keeps : World → ℕ → Outcome (Pull × World) → Type 0
Keeps = Answering.Keeps IsValid waiting_in

apply-Keeps :
    (p : Pull) (s : State) (transition : State → Inner → World → Step) (w : World) (owed : ℕ)
    → p.state ≡ some s
    → Ends w owed (transition s p.inner w)
    → Keeps w owed (apply p transition w)
unfolding apply
apply-Keeps p s transition w owed e (s', inner, w', f, sound, count) =
    let was = Inner.is_recv_ready p.inner in
    let is = Inner.is_recv_ready inner in
    (
      record { inner = inner; state = some s' },
      check_recv_ready_change was is w',
      rw (e, apply) (rw f),
      record { state = s'; present = refl; sound = sound },
      omega (arith, replies-check_recv_ready_change was is w'),
    )

add_pipe-Keeps :
    (p : Pull) (eid : ℕ) (pipe : Pipe) (w : World)
    → IsValid p
    → Admissible p (Call.add_pipe eid pipe)
    → Keeps w (waiting_in p) (step p (Call.add_pipe eid pipe) w)
unfolding step Inner.add_pipe
add_pipe-Keeps p eid pipe w v (fresh, bound, same) =
    let (c, stays) =
      insert-IsCovered p.inner.fq eid (get_recv_priority pipe) pipe p.inner.pipes v.sound.covered
        fresh bound same in
    (
      record p { inner = Inner.add_pipe p.inner eid pipe },
      w,
      refl,
      record {
        state = v.state;
        present = v.present;
        sound = record { covered = c; held = keep-Held v.state p.inner _ stays v.sound.held };
      },
      refl,
    )

remove_pipe-Keeps :
    (p : Pull) (eid : ℕ) (w : World)
    → IsValid p
    → Admissible p (Call.remove_pipe eid)
    → Keeps w (waiting_in p) (step p (Call.remove_pipe eid) w)
unfolding step remove_pipe Inner.remove_pipe
remove_pipe-Keeps p eid w v still =
    let (fq, e, c, stays) = remove-IsCovered p.inner.fq eid p.inner.pipes v.sound.covered still in
    let inner : Inner = record { pipes = Pipes.remove p.inner.pipes eid; fq = fq } in
    let p' : Pull = record p { inner = inner } in
    let sound : IsSound v.state inner = record {
      covered = c;
      held = keep-Held v.state p.inner inner stays v.sound.held;
    } in
    let w' = check_recv_ready_change (Inner.is_recv_ready p.inner) (Inner.is_recv_ready inner) w in
    let same =
      replies-check_recv_ready_change (Inner.is_recv_ready p.inner) (Inner.is_recv_ready inner) w in
    elim (Option-cases (Pipes.get p.inner.pipes eid)) [
      | inl absent ↦ (
        p',
        w',
        rw (e, Inner.remove_pipe) (rw absent),
        record { state = v.state; present = v.present; sound = sound },
        omega arith,
      )
      | inr (pipe, found) ↦
          (let (p'', w'', f, v'', count) =
              apply-Keeps p' v.state (λ s. State.on_pipe_removed s eid) w' (waiting v.state)
                v.present (on_pipe_removed-Ends v.state eid inner w' sound) in
            (p'', w'', rw (e, Inner.remove_pipe) (rw found (rw f)), v'', ground (arith, v.present)))
    ]

waiting-present : (p : Pull) (s : State) → p.state ≡ some s → waiting_in p ≡ waiting s
waiting-present p s e = rw e

waiting-busy : (s : State) → s ≢ idle → waiting s ≡ 1
waiting-busy idle busy = absurd (busy refl)
waiting-busy (receiving id t) busy = refl
waiting-busy (recv_on_hold t) busy = refl

-- A transition of the socket's state, whose debt is the one that the call leaves.
through :
    (p : Pull) (v : IsValid p) (transition : State → Inner → World → Step) (w : World)
    (owed due : ℕ)
    → Ends w owed (transition v.state p.inner w)
    → owed ≡ due
    → Keeps w due (apply p transition w)
through p v transition w owed due ends same =
    subst (λ n. Keeps w n (apply p transition w)) same
      (apply-Keeps p v.state transition w owed v.present ends)

stay-Ends :
    (s : State) (inner : Inner) (w : World) → IsSound s inner → Ends w (waiting s) (stay s inner w)
stay-Ends s inner w h = (s, inner, w, refl, h, refl)

-- Every admissible call of a valid pull socket returns a valid one, and afterwards the replies and
-- the request still held are those before, with one more for a request that the call makes.
Pull-step-Keeps :
    (p : Pull) (c : Call) (w : World)
    → IsValid p
    → Admissible p c
    → Keeps w (waiting_in p + requests c) (step p c w)
unfolding step
Pull-step-Keeps p (Call.add_pipe eid pipe) w v a = rw add-zero (add_pipe-Keeps p eid pipe w v a)
Pull-step-Keeps p (Call.remove_pipe eid) w v a = rw add-zero (remove_pipe-Keeps p eid w v a)
Pull-step-Keeps p (Call.recv t) w v a =
    through p v (λ _. State.recv t) w 1 _ (recv-Ends t p.inner w v.sound.covered)
      (omega (arith, waiting-present p idle a))
Pull-step-Keeps p (Call.on_recv_ack eid msg) w v a =
    through p v (λ s. State.on_recv_ack s eid msg) w (waiting v.state) _
      (on_recv_ack-Ends v.state eid msg p.inner w v.sound)
      (omega (arith, waiting-present p v.state v.present))
Pull-step-Keeps p Call.on_recv_timeout w v a =
    through p v (λ _. State.on_recv_timeout) w 1 _ (on_recv_timeout-Ends v.state p.inner w v.sound)
      (omega (
        arith,
        waiting-present p v.state v.present,
        waiting-busy v.state (λ e. a (v.present ∙ ap some e)),
      ))
Pull-step-Keeps p (Call.on_recv_ready eid) w v a =
    through p v (λ s. State.on_recv_ready s eid) w (waiting v.state) _
      (on_recv_ready-Ends v.state eid p.inner w v.sound)
      (omega (arith, waiting-present p v.state v.present))
Pull-step-Keeps p (Call.on_recv_not_ready eid) w v a =
    through p v (λ s. State.on_recv_not_ready s eid) w (waiting v.state) _
      (on_recv_not_ready-Ends v.state eid p.inner w v.sound)
      (omega (arith, waiting-present p v.state v.present))
Pull-step-Keeps p (Call.send msg t) w v a =
    through p v (λ s. State.send s t) w (waiting v.state + 1) _
      (send-Ends v.state t p.inner w v.sound) (omega (arith, waiting-present p v.state v.present))
Pull-step-Keeps p (Call.on_send_ack eid) w v a =
    through p v stay w (waiting v.state) _ (stay-Ends v.state p.inner w v.sound)
      (omega (arith, waiting-present p v.state v.present))
Pull-step-Keeps p Call.on_send_timeout w v a =
    through p v stay w (waiting v.state) _ (stay-Ends v.state p.inner w v.sound)
      (omega (arith, waiting-present p v.state v.present))
Pull-step-Keeps p (Call.on_send_ready eid) w v a =
    through p v stay w (waiting v.state) _ (stay-Ends v.state p.inner w v.sound)
      (omega (arith, waiting-present p v.state v.present))
Pull-step-Keeps p (Call.on_send_not_ready eid) w v a =
    through p v stay w (waiting v.state) _ (stay-Ends v.state p.inner w v.sound)
      (omega (arith, waiting-present p v.state v.present))
Pull-step-Keeps p (Call.set_option opt) w v a = (p, w, refl, v, omega arith)
Pull-step-Keeps p (Call.on_timer_tick task) w v a = (p, w, refl, v, omega arith)
Pull-step-Keeps p Call.on_device_plugged w v a = (p, w, refl, v, omega arith)
Pull-step-Keeps p Call.close w v a = absurd a

-- Over any history of admissible calls on a valid pull socket it stays valid, and the requests
-- made are those answered and the one still held: each is answered once, and none twice.
pub Pull-Run_answered :
    {p q : Pull} {w u : World} {n : ℕ}
    → IsValid p
    → Run step Admissible p w q u n
    → IsValid q × (replies u.log + waiting_in q ≡ replies w.log + waiting_in p + n)
Pull-Run_answered v run = Run-answered IsValid waiting_in step Admissible Pull-step-Keeps v run
