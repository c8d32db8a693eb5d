-- ===== src/Proto/Rep/Keeping.antt =====
-- src/proto/rep.rs: what a valid reply socket keeps over the calls that do not only change its state.
use scaproust.Prelude.{
  ℕ, ◌≡◌, ◌≢◌, ◌≤◌, refl, inl, inr, true, Option, none, some, Outcome, arith, Option-cases,
}
use scaproust.Core.Bytes.{ByteOrder}
use scaproust.Core.Message.{Message}
use scaproust.Core.Endpoint.{Pipe, get_recv_priority}
use scaproust.Core.Context.{World, Timeout, act, cancel_timeout, check_changes}
use scaproust.Core.Log.{replies-check_changes, replies-cancel_timeout}
use scaproust.Proto.Priolist.Invariant.{IsFresh}
use scaproust.Proto.Priolist.Remove.{Displaces}
use scaproust.Proto.Pipes
use scaproust.Proto.Ids
use scaproust.Proto.Policy.Upkeep.{insert-IsCovered, remove-IsCovered}
use scaproust.Proto.Call.{Call}
use scaproust.Proto.Answering
use scaproust.Proto.Answering.{Run, Run-answered, requests}
use scaproust.Proto.Rep.Inner
use scaproust.Proto.Rep.Inner.{Inner}
use scaproust.Proto.Rep.State
use scaproust.Proto.Rep.State.{
  State, idle, receiving, recv_on_hold, active, sending, send_on_hold, Step,
}
use scaproust.Proto.Rep.{
  Rep, apply, step, send, on_send_ack, on_recv_ack, remove_pipe, is_send_ready, is_recv_ready,
}
use scaproust.Proto.Rep.Invariant.{waiting, IsSound, Ends, keep-Held, relabel}
use scaproust.Proto.Rep.Replying.{send-Ends, on_send_ack-Ends}
use scaproust.Proto.Rep.Receiving.{on_recv_ack-Ends, on_pipe_removed-Ends}

-- A socket whose state is there and sound.
pub record IsValid (p : Rep) : Type 0 where
  pub state : State
  pub present : p.state ≡ some state
  pub sound : IsSound state p.inner

abbrev pub waiting_in : Rep → ℕ
waiting_in p = elim p.state [ none ↦ 0 | some s ↦ waiting s ]

-- What the code around the socket sees to: endpoints are new, priorities documented, one request of
-- the user is made at a time, a timer fires only while its request waits. A removed pipe does not
-- displace the current one, a request that arrives can be traced back, and a closed socket is called
-- no more.
abbrev pub Admissible : ByteOrder → Rep → Call → Type 0
Admissible be p (Call.add_pipe eid pipe) =
    IsFresh p.inner.fq eid × (get_recv_priority pipe ≤ 16) × (pipe.id ≡ eid)
Admissible be p (Call.remove_pipe eid) = ¬ Displaces p.inner.fq eid
Admissible be p (Call.send msg timeout) = waiting_in p ≡ 0
Admissible be p Call.on_send_timeout = waiting_in p ≡ 1
Admissible be p (Call.recv timeout) = waiting_in p ≡ 0
Admissible be p (Call.on_recv_ack eid msg) = Inner.raw_msg_to_msg be p.inner msg eid ≢ none
Admissible be p Call.on_recv_timeout = waiting_in p ≡ 1
Admissible be p Call.close = ⊥
Admissible be p _ = Unit {0}

-- A call does not panic, keeps the socket valid, and loses no request and answers none twice.
abbrev pub Keeps : World → ℕ → Outcome (Rep × World) → Type 0
Keeps = Answering.Keeps IsValid waiting_in

apply-Keeps :
    (p : Rep) (s : State) (transition : State → Inner → World → Step) (w : World) (owed : ℕ)
    → p.state ≡ some s
    → Ends w owed (transition s p.inner w)
    → Keeps w owed (apply p transition w)
unfolding apply
apply-Keeps p s transition w owed e (s', inner, w', f, sound, count) =
    let a = State.is_send_ready s p.inner in
    let b = State.is_send_ready s' inner in
    let c = State.is_recv_ready s p.inner in
    let d = State.is_recv_ready s' inner in
    (
      record { inner = inner; state = some s' },
      check_changes a b c d w',
      rw (e, apply) (rw f),
      record { state = s'; present = refl; sound = sound },
      omega (arith, replies-check_changes a b c d w'),
    )

pub waiting-present : (p : Rep) (s : State) → p.state ≡ some s → waiting_in p ≡ waiting s
waiting-present p s e = rw e

-- A transition of the socket's state, whose debt is the one that the call leaves.
pub through :
    (p : Rep) (v : IsValid p) (transition : State → Inner → World → Step) (w : World) (owed due : ℕ)
    → Ends w owed (transition v.state p.inner w)
    → owed ≡ due
    → Keeps w due (apply p transition w)
through p v transition w owed due ends same =
    Answering.Keeps-owed IsValid waiting_in w owed due (apply p transition w) same
      (apply-Keeps p v.state transition w owed v.present ends)

pub add_pipe-Keeps :
    (be : ByteOrder) (p : Rep) (eid : ℕ) (pipe : Pipe) (w : World)
    → IsValid p
    → Admissible be p (Call.add_pipe eid pipe)
    → Keeps w (waiting_in p) (step be p (Call.add_pipe eid pipe) w)
unfolding step Inner.add_pipe
add_pipe-Keeps be p eid pipe w v (fresh, bound, same) =
    let (c, stays) =
      insert-IsCovered p.inner.fq eid (get_recv_priority pipe) pipe p.inner.pipes v.sound.covered
        fresh bound same in
    (
      record p { inner = Inner.add_pipe p.inner eid pipe },
      w,
      refl,
      record {
        state = v.state;
        present = v.present;
        sound = record { covered = c; held = keep-Held v.state p.inner _ stays v.sound.held };
      },
      refl,
    )

pub remove_pipe-Keeps :
    (be : ByteOrder) (p : Rep) (eid : ℕ) (w : World)
    → IsValid p
    → Admissible be p (Call.remove_pipe eid)
    → Keeps w (waiting_in p) (step be p (Call.remove_pipe eid) w)
unfolding step remove_pipe Inner.remove_pipe
remove_pipe-Keeps be p eid w v still =
    let (fq, e, c, stays) = remove-IsCovered p.inner.fq eid p.inner.pipes v.sound.covered still in
    let old = p.inner in
    let inner : Inner = record old {
      fq = fq;
      sd = Ids.remove p.inner.sd eid;
      pipes = Pipes.remove p.inner.pipes eid;
    } in
    let p' : Rep = record p { inner = inner } in
    let sound : IsSound v.state inner = record {
      covered = c;
      held = keep-Held v.state p.inner inner stays v.sound.held;
    } in
    let check =
      check_changes (is_send_ready p) (is_send_ready p') (is_recv_ready p) (is_recv_ready p') in
    let quiet =
      replies-check_changes (is_send_ready p) (is_send_ready p') (is_recv_ready p)
        (is_recv_ready p') in
    elim (Option-cases (Pipes.get p.inner.pipes eid)) [
      | inl absent ↦ (
        p',
        check w,
        rw (e, Inner.remove_pipe) (rw absent),
        record { state = v.state; present = v.present; sound = sound },
        omega (arith, quiet w),
      )
      | inr (pipe, found) ↦
          (let (p'', w', f, v'', count) =
              apply-Keeps p' v.state (λ s. State.on_pipe_removed s eid) w (waiting v.state)
                v.present (on_pipe_removed-Ends v.state eid inner w sound) in
            (
              p'',
              check w',
              rw (e, Inner.remove_pipe) (rw found (rw f)),
              v'',
              omega (arith, quiet w', waiting-present p v.state v.present),
            ))
    ]

-- A reply that has no way back is answered by an error.
pub send-Keeps :
    (be : ByteOrder) (p : Rep) (msg : Message) (t : Timeout) (w : World)
    → IsValid p
    → waiting_in p ≡ 0
    → Keeps w 1 (send be p msg t w)
unfolding send Inner.on_send_malformed act cancel_timeout
send-Keeps be p msg t w v free = go (Inner.msg_to_raw_msg be p.inner msg) refl
  where
    go :
        (o : Option (Message × ℕ))
        → Inner.msg_to_raw_msg be p.inner msg ≡ o
        → Keeps w 1 (send be p msg t w)
    go none e = (
      p,
      Inner.on_send_malformed t w,
      rw (e, send) refl,
      v,
      omega (arith, replies-cancel_timeout t (Inner.on_send_malformed none w)),
    )
    go (some (raw, eid)) e =
        rw (e, send)
          (apply-Keeps p v.state (λ s. State.send s raw t eid) w 1 v.present
            (send-Ends v.state raw t eid p.inner w v.sound))

pub on_send_ack-Keeps :
    (p : Rep) (eid : ℕ) (w : World) → IsValid p → Keeps w (waiting_in p) (on_send_ack p eid w)
unfolding on_send_ack Inner.clear_backtrace
on_send_ack-Keeps p eid w v =
    let cleared : Rep = record p { inner = Inner.clear_backtrace p.inner } in
    Answering.Keeps-owed IsValid waiting_in w (waiting v.state) (waiting_in p) (on_send_ack p eid w)
      (omega (arith, waiting-present p v.state v.present))
      (apply-Keeps cleared v.state (λ s. State.on_send_ack s eid) w (waiting v.state) v.present
        (on_send_ack-Ends v.state eid (Inner.clear_backtrace p.inner) w (record {
          covered = v.sound.covered;
          held = relabel v.state p.inner _ refl v.sound.held;
        })))

pub on_recv_ack-Keeps :
    (be : ByteOrder) (p : Rep) (eid : ℕ) (raw : Message) (w : World)
    → IsValid p
    → Inner.raw_msg_to_msg be p.inner raw eid ≢ none
    → Keeps w (waiting_in p) (on_recv_ack be p eid raw w)
unfolding on_recv_ack
on_recv_ack-Keeps be p eid raw w v traced = go (Inner.raw_msg_to_msg be p.inner raw eid) refl
  where
    go :
        (o : Option Message)
        → Inner.raw_msg_to_msg be p.inner raw eid ≡ o
        → Keeps w (waiting_in p) (on_recv_ack be p eid raw w)
    go none e = absurd (traced e)
    go (some msg) e =
        rw (e, on_recv_ack)
          (through p v (λ s. State.on_recv_ack s eid msg) w (waiting v.state) _
            (on_recv_ack-Ends v.state eid msg p.inner w v.sound)
            (omega (arith, waiting-present p v.state v.present)))

pub device-Keeps :
    (be : ByteOrder) (p : Rep) (w : World)
    → IsValid p
    → Keeps w (waiting_in p) (step be p Call.on_device_plugged w)
unfolding step
device-Keeps be p w v = (
  record p { inner = let inner = p.inner in record inner { is_device_item = true } },
  w,
  refl,
  record {
    state = v.state;
    present = v.present;
    sound = record {
      covered = v.sound.covered;
      held = relabel v.state p.inner _ refl v.sound.held;
    };
  },
  refl,
)
