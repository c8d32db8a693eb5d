-- ===== src/Proto/Sub/Keeping.antt =====
-- src/proto/sub.rs: what a valid subscriber keeps over the calls that do not only change its state.
use scaproust.Prelude.{
  ℕ, ◌≡◌, ◌≢◌, ◌≤◌, refl, ap, subst, ◌∙◌, inl, inr, none, some, List, String, Outcome, ok, arith,
  Bool-cases, Option-cases,
}
use scaproust.Core.Endpoint.{Pipe, get_recv_priority}
use scaproust.Core.Context.{World, check_recv_ready_change}
use scaproust.Core.Log.{replies-check_recv_ready_change}
use scaproust.Proto.Priolist.Invariant.{IsFresh}
use scaproust.Proto.Priolist.Remove.{Displaces}
use scaproust.Proto.Pipes
use scaproust.Proto.Policy.Upkeep.{insert-IsCovered, remove-IsCovered}
use scaproust.Proto.Call.{Call}
use scaproust.Proto.Answering
use scaproust.Proto.Answering.{Run, Run-answered, requests}
use scaproust.Proto.Sub.Inner
use scaproust.Proto.Sub.Inner.{Inner}
use scaproust.Proto.Sub.State
use scaproust.Proto.Sub.State.{State, idle, receiving, recv_on_hold, Step, retry}
use scaproust.Core.Config.{ConfigOption}
use scaproust.Proto.Priolist.{peek}
use scaproust.Proto.Sub.{Sub, set_option, apply, stay, step, remove_pipe}
use scaproust.Proto.Sub.Invariant.{waiting, IsSound, Ends, keep-Held, on_pipe_removed-Ends}

-- A socket whose state is there and sound.
pub record IsValid (p : Sub) : Type 0 where
  pub state : State
  pub present : p.state ≡ some state
  pub sound : IsSound state p.inner

-- What the code around the socket sees to: endpoints are new, priorities documented, one request
-- is made at a time, its timer fires only before the answer. A removed pipe does not displace the
-- current one, and a closed socket is called no more.
abbrev pub Admissible : Sub → Call → Type 0
Admissible p (Call.add_pipe eid pipe) =
    IsFresh p.inner.fq eid × (get_recv_priority pipe ≤ 16) × (pipe.id ≡ eid)
Admissible p (Call.remove_pipe eid) = ¬ Displaces p.inner.fq eid
Admissible p (Call.recv timeout) = p.state ≡ some idle
Admissible p Call.on_recv_timeout = p.state ≢ some idle
Admissible p Call.close = ⊥
Admissible p _ = Unit {0}

abbrev pub waiting_in : Sub → ℕ
waiting_in p = elim p.state [ none ↦ 0 | some s ↦ waiting s ]

-- A call does not panic, keeps the socket valid, and loses no request and answers none twice.
abbrev pub Keeps : World → ℕ → Outcome (Sub × World) → Type 0
Keeps = Answering.Keeps IsValid waiting_in

apply-Keeps :
    (p : Sub) (s : State) (transition : State → Inner → World → Step) (w : World) (owed : ℕ)
    → p.state ≡ some s
    → Ends w owed (transition s p.inner w)
    → Keeps w owed (apply p transition w)
unfolding apply
apply-Keeps p s transition w owed e (s', inner, w', f, sound, count) =
    let was = Inner.is_recv_ready p.inner in
    let is = Inner.is_recv_ready inner in
    (
      record { inner = inner; state = some s' },
      check_recv_ready_change was is w',
      rw (e, apply) (rw f),
      record { state = s'; present = refl; sound = sound },
      omega (arith, replies-check_recv_ready_change was is w'),
    )

pub add_pipe-Keeps :
    (into_bytes : String → List ℕ) (p : Sub) (eid : ℕ) (pipe : Pipe) (w : World)
    → IsValid p
    → Admissible p (Call.add_pipe eid pipe)
    → Keeps w (waiting_in p) (step into_bytes p (Call.add_pipe eid pipe) w)
unfolding step Inner.add_pipe
add_pipe-Keeps into_bytes p eid pipe w v (fresh, bound, same) =
    let (c, stays) =
      insert-IsCovered p.inner.fq eid (get_recv_priority pipe) pipe p.inner.pipes v.sound.covered
        fresh bound same in
    (
      record p { inner = Inner.add_pipe p.inner eid pipe },
      w,
      refl,
      record {
        state = v.state;
        present = v.present;
        sound = record { covered = c; held = keep-Held v.state p.inner _ stays v.sound.held };
      },
      refl,
    )

pub remove_pipe-Keeps :
    (into_bytes : String → List ℕ) (p : Sub) (eid : ℕ) (w : World)
    → IsValid p
    → Admissible p (Call.remove_pipe eid)
    → Keeps w (waiting_in p) (step into_bytes p (Call.remove_pipe eid) w)
unfolding step remove_pipe Inner.remove_pipe
remove_pipe-Keeps into_bytes p eid w v still =
    let (fq, e, c, stays) = remove-IsCovered p.inner.fq eid p.inner.pipes v.sound.covered still in
    let old = p.inner in
    let inner : Inner = record old { pipes = Pipes.remove p.inner.pipes eid; fq = fq } in
    let p' : Sub = record p { inner = inner } in
    let sound : IsSound v.state inner = record {
      covered = c;
      held = keep-Held v.state p.inner inner stays v.sound.held;
    } in
    let w' = check_recv_ready_change (Inner.is_recv_ready p.inner) (Inner.is_recv_ready inner) w in
    let same =
      replies-check_recv_ready_change (Inner.is_recv_ready p.inner) (Inner.is_recv_ready inner) w in
    elim (Option-cases (Pipes.get p.inner.pipes eid)) [
      | inl absent ↦ (
        p',
        w',
        rw (e, Inner.remove_pipe) (rw absent),
        record { state = v.state; present = v.present; sound = sound },
        omega arith,
      )
      | inr (pipe, found) ↦
          (let (p'', w'', f, v'', count) =
              apply-Keeps p' v.state (λ s. State.on_pipe_removed s eid) w' (waiting v.state)
                v.present (on_pipe_removed-Ends v.state eid inner w' sound) in
            (p'', w'', rw (e, Inner.remove_pipe) (rw found (rw f)), v'', ground (arith, v.present)))
    ]

pub waiting-present : (p : Sub) (s : State) → p.state ≡ some s → waiting_in p ≡ waiting s
waiting-present p s e = rw e

pub waiting-busy : (s : State) → s ≢ idle → waiting s ≡ 1
waiting-busy idle busy = absurd (busy refl)
waiting-busy (receiving id t) busy = refl
waiting-busy (recv_on_hold t) busy = refl

-- A transition of the socket's state, whose debt is the one that the call leaves.
pub through :
    (p : Sub) (v : IsValid p) (transition : State → Inner → World → Step) (w : World) (owed due : ℕ)
    → Ends w owed (transition v.state p.inner w)
    → owed ≡ due
    → Keeps w due (apply p transition w)
through p v transition w owed due ends same =
    subst (λ n. Keeps w n (apply p transition w)) same
      (apply-Keeps p v.state transition w owed v.present ends)

pub stay-Ends :
    (s : State) (inner : Inner) (w : World) → IsSound s inner → Ends w (waiting s) (stay s inner w)
stay-Ends s inner w h = (s, inner, w, refl, h, refl)

-- A subscription touches neither the pipes nor their list.
resubscribed :
    (p : Sub) (w : World) (inner : Inner)
    → IsValid p
    → inner.fq ≡ p.inner.fq
    → inner.pipes ≡ p.inner.pipes
    → Keeps w (waiting_in p) (ok (record p { inner = inner }, w))
resubscribed p w inner v same pipes = (
  record p { inner = inner },
  w,
  refl,
  record {
    state = v.state;
    present = v.present;
    sound = record {
      covered = rw (same, pipes) v.sound.covered;
      held = keep-Held v.state p.inner inner (λ off. ap peek same ∙ off) v.sound.held;
    };
  },
  refl,
)

subscribe-untouched :
    (inner : Inner) (topic : List ℕ)
    → ((Inner.subscribe inner topic).fq ≡ inner.fq)
      × ((Inner.subscribe inner topic).pipes ≡ inner.pipes)
unfolding Inner.subscribe
subscribe-untouched inner topic = elim (Bool-cases (Inner.contains inner.subscriptions topic)) [
  | inl there ↦ rw there (refl, refl)
  | inr absent ↦ rw absent (refl, refl)
]

pub set_option-Keeps :
    (into_bytes : String → List ℕ) (p : Sub) (opt : ConfigOption) (w : World)
    → IsValid p
    → Keeps w (waiting_in p) (step into_bytes p (Call.set_option opt) w)
unfolding step set_option Inner.unsubscribe
set_option-Keeps into_bytes p (ConfigOption.subscribe x) w v =
    let (fq, pipes) = subscribe-untouched p.inner (into_bytes x) in resubscribed p w _ v fq pipes
set_option-Keeps into_bytes p (ConfigOption.unsubscribe x) w v = resubscribed p w _ v refl refl
set_option-Keeps into_bytes p _ w v = (p, w, refl, v, refl)
