-- ===== src/Proto/Push/History.antt =====
-- src/proto/push.rs: a push socket over any sequence of calls.
use scaproust.Prelude.{
  ℕ, ◌+◌, ◌≡◌, ◌≢◌, ◌≤◌, refl, ap, ◌∙◌, inl, inr, none, some, Outcome, arith, subst, Option-cases,
}
use native.Mathlib.Nat.{add-zero}
use scaproust.Core.Endpoint.{Pipe, get_send_priority}
use scaproust.Core.Context.{World, check_send_ready_change}
use scaproust.Core.Log.{replies, replies-check_send_ready_change}
use scaproust.Proto.Priolist.Invariant.{IsFresh}
use scaproust.Proto.Priolist.Remove.{Displaces}
use scaproust.Proto.Pipes
use scaproust.Proto.Policy.Upkeep.{insert-IsCovered, remove-IsCovered}
use scaproust.Proto.Call.{Call}
use scaproust.Proto.Answering
use scaproust.Proto.Answering.{Run, Run-answered, requests}
use scaproust.Proto.Push.Inner
use scaproust.Proto.Push.Inner.{Inner}
use scaproust.Proto.Push.State
use scaproust.Proto.Push.State.{State, idle, sending, send_on_hold, Step, resend}
use scaproust.Proto.Push.{Push, apply, stay, step, remove_pipe}
use scaproust.Proto.Push.Invariant.{
  waiting, IsSound, Ends, keep-Held, send-Ends, on_pipe_removed-Ends, on_send_ack-Ends,
  on_send_timeout-Ends, on_send_ready-Ends, on_send_not_ready-Ends, recv-Ends,
}

-- A socket whose state is there and sound.
pub record IsValid (p : Push) : Type 0 where
  pub state : State
  pub present : p.state ≡ some state
  pub sound : IsSound state p.inner

-- What the code around the socket sees to: endpoints are new, priorities documented, one request
-- is made at a time, its timer fires only before the answer. A removed pipe does not displace the
-- current one, and a closed socket is called no more.
abbrev pub Admissible : Push → Call → Type 0
Admissible p (Call.add_pipe eid pipe) =
    IsFresh p.inner.lb eid × (get_send_priority pipe ≤ 16) × (pipe.id ≡ eid)
Admissible p (Call.remove_pipe eid) = ¬ Displaces p.inner.lb eid
Admissible p (Call.send msg timeout) = p.state ≡ some idle
Admissible p Call.on_send_timeout = p.state ≢ some idle
Admissible p Call.close = ⊥
Admissible p _ = Unit {0}

abbrev pub waiting_in : Push → ℕ
waiting_in p = elim p.state [ none ↦ 0 | some s ↦ waiting s ]

-- A call does not panic, keeps the socket valid, and loses no request and answers none twice.
abbrev pub Keeps : World → ℕ → Outcome (Push × World) → Type 0
Keeps = Answering.Keeps IsValid waiting_in

apply-Keeps :
    (p : Push) (s : State) (transition : State → Inner → World → Step) (w : World) (owed : ℕ)
    → p.state ≡ some s
    → Ends w owed (transition s p.inner w)
    → Keeps w owed (apply p transition w)
unfolding apply
apply-Keeps p s transition w owed e (s', inner, w', f, sound, count) =
    let was = Inner.is_send_ready p.inner in
    let is = Inner.is_send_ready inner in
    (
      record { inner = inner; state = some s' },
      check_send_ready_change was is w',
      rw (e, apply) (rw f),
      record { state = s'; present = refl; sound = sound },
      omega (arith, replies-check_send_ready_change was is w'),
    )

add_pipe-Keeps :
    (p : Push) (eid : ℕ) (pipe : Pipe) (w : World)
    → IsValid p
    → Admissible p (Call.add_pipe eid pipe)
    → Keeps w (waiting_in p) (step p (Call.add_pipe eid pipe) w)
unfolding step Inner.add_pipe
add_pipe-Keeps p eid pipe w v (fresh, bound, same) =
    let (c, stays) =
      insert-IsCovered p.inner.lb eid (get_send_priority pipe) pipe p.inner.pipes v.sound.covered
        fresh bound same in
    (
      record p { inner = Inner.add_pipe p.inner eid pipe },
      w,
      refl,
      record {
        state = v.state;
        present = v.present;
        sound = record { covered = c; held = keep-Held v.state p.inner _ stays v.sound.held };
      },
      refl,
    )

remove_pipe-Keeps :
    (p : Push) (eid : ℕ) (w : World)
    → IsValid p
    → Admissible p (Call.remove_pipe eid)
    → Keeps w (waiting_in p) (step p (Call.remove_pipe eid) w)
unfolding step remove_pipe Inner.remove_pipe
remove_pipe-Keeps p eid w v still =
    let (lb, e, c, stays) = remove-IsCovered p.inner.lb eid p.inner.pipes v.sound.covered still in
    let inner : Inner = record { pipes = Pipes.remove p.inner.pipes eid; lb = lb } in
    let p' : Push = record p { inner = inner } in
    let sound : IsSound v.state inner = record {
      covered = c;
      held = keep-Held v.state p.inner inner stays v.sound.held;
    } in
    let w' = check_send_ready_change (Inner.is_send_ready p.inner) (Inner.is_send_ready inner) w in
    let same =
      replies-check_send_ready_change (Inner.is_send_ready p.inner) (Inner.is_send_ready inner) w in
    elim (Option-cases (Pipes.get p.inner.pipes eid)) [
      | inl absent ↦ (
        p',
        w',
        rw (e, Inner.remove_pipe) (rw absent),
        record { state = v.state; present = v.present; sound = sound },
        omega arith,
      )
      | inr (pipe, found) ↦
          (let (p'', w'', f, v'', count) =
              apply-Keeps p' v.state (λ s. State.on_pipe_removed s eid) w' (waiting v.state)
                v.present (on_pipe_removed-Ends v.state eid inner w' sound) in
            (p'', w'', rw (e, Inner.remove_pipe) (rw found (rw f)), v'', ground (arith, v.present)))
    ]

waiting-present : (p : Push) (s : State) → p.state ≡ some s → waiting_in p ≡ waiting s
waiting-present p s e = rw e

waiting-busy : (s : State) → s ≢ idle → waiting s ≡ 1
waiting-busy idle busy = absurd (busy refl)
waiting-busy (sending id msg t) busy = refl
waiting-busy (send_on_hold msg t) busy = refl

-- A transition of the socket's state, whose debt is the one that the call leaves.
through :
    (p : Push) (v : IsValid p) (transition : State → Inner → World → Step) (w : World)
    (owed due : ℕ)
    → Ends w owed (transition v.state p.inner w)
    → owed ≡ due
    → Keeps w due (apply p transition w)
through p v transition w owed due ends same =
    subst (λ n. Keeps w n (apply p transition w)) same
      (apply-Keeps p v.state transition w owed v.present ends)

stay-Ends :
    (s : State) (inner : Inner) (w : World) → IsSound s inner → Ends w (waiting s) (stay s inner w)
stay-Ends s inner w h = (s, inner, w, refl, h, refl)

-- Every admissible call of a valid push socket returns a valid one, and afterwards the replies and
-- the request still held are those before, with one more for a request that the call makes.
Push-step-Keeps :
    (p : Push) (c : Call) (w : World)
    → IsValid p
    → Admissible p c
    → Keeps w (waiting_in p + requests c) (step p c w)
unfolding step
Push-step-Keeps p (Call.add_pipe eid pipe) w v a = rw add-zero (add_pipe-Keeps p eid pipe w v a)
Push-step-Keeps p (Call.remove_pipe eid) w v a = rw add-zero (remove_pipe-Keeps p eid w v a)
Push-step-Keeps p (Call.send msg t) w v a =
    through p v (λ _. State.send msg t) w 1 _ (send-Ends msg t p.inner w v.sound.covered)
      (omega (arith, waiting-present p idle a))
Push-step-Keeps p (Call.on_send_ack eid) w v a =
    through p v (λ s. State.on_send_ack s eid) w (waiting v.state) _
      (on_send_ack-Ends v.state eid p.inner w v.sound)
      (omega (arith, waiting-present p v.state v.present))
Push-step-Keeps p Call.on_send_timeout w v a =
    through p v (λ _. State.on_send_timeout) w 1 _ (on_send_timeout-Ends v.state p.inner w v.sound)
      (omega (
        arith,
        waiting-present p v.state v.present,
        waiting-busy v.state (λ e. a (v.present ∙ ap some e)),
      ))
Push-step-Keeps p (Call.on_send_ready eid) w v a =
    through p v (λ s. State.on_send_ready s eid) w (waiting v.state) _
      (on_send_ready-Ends v.state eid p.inner w v.sound)
      (omega (arith, waiting-present p v.state v.present))
Push-step-Keeps p (Call.on_send_not_ready eid) w v a =
    through p v (λ s. State.on_send_not_ready s eid) w (waiting v.state) _
      (on_send_not_ready-Ends v.state eid p.inner w v.sound)
      (omega (arith, waiting-present p v.state v.present))
Push-step-Keeps p (Call.recv t) w v a =
    through p v (λ s. State.recv s t) w (waiting v.state + 1) _
      (recv-Ends v.state t p.inner w v.sound) (omega (arith, waiting-present p v.state v.present))
Push-step-Keeps p (Call.on_recv_ack eid msg) w v a =
    through p v stay w (waiting v.state) _ (stay-Ends v.state p.inner w v.sound)
      (omega (arith, waiting-present p v.state v.present))
Push-step-Keeps p Call.on_recv_timeout w v a =
    through p v stay w (waiting v.state) _ (stay-Ends v.state p.inner w v.sound)
      (omega (arith, waiting-present p v.state v.present))
Push-step-Keeps p (Call.on_recv_ready eid) w v a =
    through p v stay w (waiting v.state) _ (stay-Ends v.state p.inner w v.sound)
      (omega (arith, waiting-present p v.state v.present))
Push-step-Keeps p (Call.on_recv_not_ready eid) w v a =
    through p v stay w (waiting v.state) _ (stay-Ends v.state p.inner w v.sound)
      (omega (arith, waiting-present p v.state v.present))
Push-step-Keeps p (Call.set_option opt) w v a = (p, w, refl, v, omega arith)
Push-step-Keeps p (Call.on_timer_tick task) w v a = (p, w, refl, v, omega arith)
Push-step-Keeps p Call.on_device_plugged w v a = (p, w, refl, v, omega arith)
Push-step-Keeps p Call.close w v a = absurd a

-- Over any history of admissible calls on a valid push socket it stays valid, and the requests
-- made are those answered and the one still held: each is answered once, and none twice.
pub Push-Run_answered :
    {p q : Push} {w u : World} {n : ℕ}
    → IsValid p
    → Run step Admissible p w q u n
    → IsValid q × (replies u.log + waiting_in q ≡ replies w.log + waiting_in p + n)
Push-Run_answered v run = Run-answered IsValid waiting_in step Admissible Push-step-Keeps v run
