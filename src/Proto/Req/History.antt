-- ===== src/Proto/Req/History.antt =====
-- src/proto/req.rs: the calls of a request socket, which ones are admissible, and what each is to
-- keep.
use scaproust.Prelude.{
  ℕ, ◌≡◌, ◌≢◌, ◌≤◌, refl, inl, inr, none, some, Outcome, arith, subst, Option-cases,
}
use scaproust.Core.Bytes.{ByteOrder}
use scaproust.Core.Endpoint.{Pipe, get_send_priority, get_recv_priority}
use scaproust.Core.Context.{World, check_changes}
use scaproust.Core.Log.{replies-check_changes}
use scaproust.Proto.Priolist.Invariant.{IsFresh}
use scaproust.Proto.Priolist.Remove.{Displaces}
use scaproust.Proto.Pipes
use scaproust.Proto.Ids
use scaproust.Proto.Policy.Upkeep.{insert-IsCovered, remove-IsCovered}
use scaproust.Proto.Call.{Call}
use scaproust.Proto.Answering
use scaproust.Proto.Req.Inner
use scaproust.Proto.Req.Inner.{Inner}
use scaproust.Proto.Req.State
use scaproust.Proto.Req.State.{
  State, idle, sending, send_on_hold, active, receiving, recv_on_hold, Step,
}
use scaproust.Proto.Req.{Req, apply, step, remove_pipe, is_send_ready, is_recv_ready}
use scaproust.Proto.Req.Invariant.{waiting, IsSound, Ends, keep-Held}
use scaproust.Proto.Req.Settle.{IsReceiving, on_pipe_removed-Ends}

-- A socket whose state is there and sound.
pub record IsValid (p : Req) : Type 0 where
  pub state : State
  pub present : p.state ≡ some state
  pub sound : IsSound state p.inner

abbrev pub waiting_in : Req → ℕ
waiting_in p = elim p.state [ none ↦ 0 | some s ↦ waiting s ]

-- What the code around the socket sees to: endpoints are new, priorities documented, one request
-- is made at a time, a timer fires only while its request waits. A removed pipe does not displace
-- a current one, a reply carries an identifier, and a closed socket is called no more.
abbrev pub Admissible : ByteOrder → Req → Call → Type 0
Admissible be p (Call.add_pipe eid pipe) =
    (IsFresh p.inner.lb eid × IsFresh p.inner.fq eid)
    × ((get_send_priority pipe ≤ 16) × (get_recv_priority pipe ≤ 16))
    × (pipe.id ≡ eid)
Admissible be p (Call.remove_pipe eid) = (¬ Displaces p.inner.lb eid) × (¬ Displaces p.inner.fq eid)
Admissible be p (Call.send msg timeout) = waiting_in p ≡ 0
Admissible be p Call.on_send_timeout = waiting_in p ≡ 1
Admissible be p (Call.recv timeout) = waiting_in p ≡ 0
Admissible be p (Call.on_recv_ack eid msg) = Inner.raw_msg_to_msg be p.inner msg ≢ none
Admissible be p Call.on_recv_timeout = (s : State) × (p.state ≡ some s) × IsReceiving s
Admissible be p Call.close = ⊥
Admissible be p _ = Unit {0}

-- A call does not panic, keeps the socket valid, and loses no request and answers none twice.
abbrev pub Keeps : World → ℕ → Outcome (Req × World) → Type 0
Keeps = Answering.Keeps IsValid waiting_in

pub apply-Keeps :
    (p : Req) (s : State) (transition : State → Inner → World → Step) (w : World) (owed : ℕ)
    → p.state ≡ some s
    → Ends w owed (transition s p.inner w)
    → Keeps w owed (apply p transition w)
unfolding apply
apply-Keeps p s transition w owed e (s', inner, w', f, sound, count) =
    let a = State.is_send_ready s p.inner in
    let b = State.is_send_ready s' inner in
    let c = State.is_recv_ready s p.inner in
    let d = State.is_recv_ready s' inner in
    (
      record { inner = inner; state = some s' },
      check_changes a b c d w',
      rw (e, apply) (rw f),
      record { state = s'; present = refl; sound = sound },
      omega (arith, replies-check_changes a b c d w'),
    )

pub waiting-present : (p : Req) (s : State) → p.state ≡ some s → waiting_in p ≡ waiting s
waiting-present p s e = rw e

-- A transition of the socket's state, whose debt is the one that the call leaves.
pub through :
    (p : Req) (v : IsValid p) (transition : State → Inner → World → Step) (w : World) (owed due : ℕ)
    → Ends w owed (transition v.state p.inner w)
    → owed ≡ due
    → Keeps w due (apply p transition w)
through p v transition w owed due ends same =
    subst (λ n. Keeps w n (apply p transition w)) same
      (apply-Keeps p v.state transition w owed v.present ends)

pub add_pipe-Keeps :
    (be : ByteOrder) (p : Req) (eid : ℕ) (pipe : Pipe) (w : World)
    → IsValid p
    → Admissible be p (Call.add_pipe eid pipe)
    → Keeps w (waiting_in p) (step be p (Call.add_pipe eid pipe) w)
unfolding step Inner.add_pipe
add_pipe-Keeps be p eid pipe w v ((fresh, fresh'), (bound, bound'), same) =
    let (c, stays) =
      insert-IsCovered p.inner.lb eid (get_send_priority pipe) pipe p.inner.pipes v.sound.lb_covered
        fresh bound same in
    let (c', stays') =
      insert-IsCovered p.inner.fq eid (get_recv_priority pipe) pipe p.inner.pipes v.sound.fq_covered
        fresh' bound' same in
    (
      record p { inner = Inner.add_pipe p.inner eid pipe },
      w,
      refl,
      record {
        state = v.state;
        present = v.present;
        sound = record {
          lb_covered = c;
          fq_covered = c';
          held =
              keep-Held v.state p.inner (Inner.add_pipe p.inner eid pipe) stays stays' v.sound.held;
        };
      },
      refl,
    )

pub remove_pipe-Keeps :
    (be : ByteOrder) (p : Req) (eid : ℕ) (w : World)
    → IsValid p
    → Admissible be p (Call.remove_pipe eid)
    → Keeps w (waiting_in p) (step be p (Call.remove_pipe eid) w)
unfolding step remove_pipe Inner.remove_pipe
remove_pipe-Keeps be p eid w v (still, still') =
    let (lb, e, c, stays) =
      remove-IsCovered p.inner.lb eid p.inner.pipes v.sound.lb_covered still in
    let (fq, e', c', stays') =
      remove-IsCovered p.inner.fq eid p.inner.pipes v.sound.fq_covered still' in
    let old = p.inner in
    let inner : Inner = record old {
      lb = lb;
      fq = fq;
      rv = Ids.remove p.inner.rv eid;
      pipes = Pipes.remove p.inner.pipes eid;
    } in
    let p' : Req = record p { inner = inner } in
    let sound : IsSound v.state inner = record {
      lb_covered = c;
      fq_covered = c';
      held = keep-Held v.state p.inner inner stays stays' v.sound.held;
    } in
    let check =
      check_changes (is_send_ready p) (is_send_ready p') (is_recv_ready p) (is_recv_ready p') in
    let quiet =
      replies-check_changes (is_send_ready p) (is_send_ready p') (is_recv_ready p)
        (is_recv_ready p') in
    elim (Option-cases (Pipes.get p.inner.pipes eid)) [
      | inl absent ↦ (
        p',
        check w,
        rw (e, Inner.remove_pipe) (rw (e', Inner.remove_pipe) (rw absent)),
        record { state = v.state; present = v.present; sound = sound },
        omega (arith, quiet w),
      )
      | inr (pipe, found) ↦
          (let (p'', w', f, v'', count) =
              apply-Keeps p' v.state (λ s. State.on_pipe_removed s eid) w (waiting v.state)
                v.present (on_pipe_removed-Ends v.state eid inner w sound) in
            (
              p'',
              check w',
              rw (e, Inner.remove_pipe) (rw (e', Inner.remove_pipe) (rw found (rw f))),
              v'',
              omega (arith, quiet w', waiting-present p v.state v.present),
            ))
    ]
