-- ===== src/Core/Probe/History.antt =====
-- A probe over any sequence of the calls that src/core/session.rs makes on it.
use scaproust.Prelude.{
  ℕ, suc, ◌+◌, ◌≡◌, ◌≢◌, refl, sym, ap, subst, ◌∙◌, ◌⊎◌, inl, inr, Bool, Option, none, some, List,
  [], ◌∷◌, set, length-set, Outcome, ok, arith,
}
use native.Mathlib.Nat.{add-zero}
use scaproust.Core.Context.{IoError}
use scaproust.Core.Probe.Context.{PollReq, PollRes, Reply, Action, World, act}
use scaproust.Core.Probe
use scaproust.Core.Probe.{
  Probe, Vote, index_of, set_vote, cancel_timeout, check, as_asked, start_poll, poll_sockets,
}
use scaproust.Core.Probe.Votes.{set_vote-ok}
use scaproust.Core.Probe.Check.{IsValid, Answered, check-cases, on_poll_timeout-Answered}

pub data Call : Type 0 where
  poll : ℕ → Call
  on_poll_timeout : Call
  on_socket_can_recv on_socket_can_send : ℕ → Bool → Call

unfoldable pub step : Probe → Call → World → Outcome (Probe × World)
step p (Call.poll delay) w = Probe.poll p delay w
step p Call.on_poll_timeout w = Probe.on_poll_timeout p w
step p (Call.on_socket_can_recv sid b) w = Probe.on_socket_can_recv p sid b w
step p (Call.on_socket_can_send sid b) w = Probe.on_socket_can_send p sid b w

abbrev pub replies : List Action → ℕ
replies [] = 0
replies (Action.reply _ ∷ log) = suc (replies log)
replies (_ ∷ log) = replies log

-- The polls that wait for their answer.
abbrev pub waiting : Option ℕ → ℕ
waiting none = 0
waiting (some _) = 1

abbrev pub requests : Call → ℕ
requests (Call.poll _) = 1
requests _ = 0

-- The user polls once at a time, and a timer fires while its poll is under way.
abbrev pub Admissible : Probe → Call → Type 0
Admissible p (Call.poll _) = p.timeout ≡ none
Admissible p Call.on_poll_timeout = waiting p.timeout ≡ 1
Admissible p _ = Unit {0}

abbrev pub Keeps : World → ℕ → Outcome (Probe × World) → Type 0
Keeps w owed o =
    (p' : Probe) × (w' : World) × (o ≡ ok (p', w'))
    × IsValid p'
    × (replies w'.log + waiting p'.timeout ≡ replies w.log + owed)

replies-cancel_timeout :
    (t : Option ℕ) (w : World) → replies (cancel_timeout t w).log ≡ replies w.log
unfolding cancel_timeout act
replies-cancel_timeout none w = refl
replies-cancel_timeout (some t) w = refl

replies-poll_sockets :
    (pos : List PollReq) (w : World) → replies (poll_sockets pos w).log ≡ replies w.log
unfolding poll_sockets act
replies-poll_sockets [] w = refl
replies-poll_sockets (po ∷ pos) w = replies-poll_sockets pos (act (Action.poll po.sid) w)

waiting-busy : (t : Option ℕ) → t ≢ none → waiting t ≡ 1
waiting-busy none h = absurd (h refl)
waiting-busy (some _) h = refl

Answered-Keeps :
    (p : Probe) (results : List PollRes) (w : World) (o : Outcome (Probe × World))
    → waiting p.timeout ≡ 1
    → Answered p results w o
    → Keeps w 1 o
unfolding act
Answered-Keeps p results w o busy (p', e, v, off) = (
  p',
  act (Action.reply (Reply.poll results)) (cancel_timeout p.timeout w),
  e,
  v,
  rw off (omega (arith, replies-cancel_timeout p.timeout w)),
)

check-Keeps : (p : Probe) (w : World) → IsValid p → Keeps w (waiting p.timeout) (check p w)
check-Keeps p w v = elim (check-cases p w v) [
  | inl (busy, _, answered) ↦
      let one = waiting-busy p.timeout busy in
      rw one (Answered-Keeps p _ w (check p w) one answered)
  | inr (_, same) ↦ (p, w, same, v, refl)
]

set_recv-IsValid :
    (p : Probe) (i : ℕ) (b : Bool)
    → IsValid p
    → IsValid (record p { recv_votes = set p.recv_votes i (some b) })
set_recv-IsValid p i b v = record {
  length-recv = length-set p.recv_votes i (some b) ∙ v.length-recv;
  length-send = v.length-send;
  in_range = v.in_range;
}

set_send-IsValid :
    (p : Probe) (i : ℕ) (b : Bool)
    → IsValid p
    → IsValid (record p { send_votes = set p.send_votes i (some b) })
set_send-IsValid p i b v = record {
  length-recv = v.length-recv;
  length-send = length-set p.send_votes i (some b) ∙ v.length-send;
  in_range = v.in_range;
}

can_recv-Keeps :
    (p : Probe) (sid : ℕ) (b : Bool) (w : World)
    → IsValid p
    → Keeps w (waiting p.timeout) (Probe.on_socket_can_recv p sid b w)
unfolding Probe.on_socket_can_recv
can_recv-Keeps p sid b w v = go (index_of p.sid_to_idx sid) refl
  where
    go :
        (o : Option ℕ)
        → index_of p.sid_to_idx sid ≡ o
        → Keeps w (waiting p.timeout) (Probe.on_socket_can_recv p sid b w)
    go none e = rw (e, Probe.on_socket_can_recv) (check-Keeps p w v)
    go (some i) e =
        let below = v.in_range sid i e in
        let len = v.length-recv in
        rw (e, Probe.on_socket_can_recv)
          (rw (set_vote-ok p.recv_votes i (some b) (omega arith)) (
            check-Keeps (record p { recv_votes = set p.recv_votes i (some b) }) w
              (set_recv-IsValid p i b v)))

can_send-Keeps :
    (p : Probe) (sid : ℕ) (b : Bool) (w : World)
    → IsValid p
    → Keeps w (waiting p.timeout) (Probe.on_socket_can_send p sid b w)
unfolding Probe.on_socket_can_send
can_send-Keeps p sid b w v = go (index_of p.sid_to_idx sid) refl
  where
    go :
        (o : Option ℕ)
        → index_of p.sid_to_idx sid ≡ o
        → Keeps w (waiting p.timeout) (Probe.on_socket_can_send p sid b w)
    go none e = rw (e, Probe.on_socket_can_send) (check-Keeps p w v)
    go (some i) e =
        let below = v.in_range sid i e in
        let len = v.length-send in
        rw (e, Probe.on_socket_can_send)
          (rw (set_vote-ok p.send_votes i (some b) (omega arith)) (
            check-Keeps (record p { send_votes = set p.send_votes i (some b) }) w
              (set_send-IsValid p i b v)))

start_poll-Keeps : (p : Probe) (t : ℕ) (w : World) → IsValid p → Keeps w 1 (start_poll p t w)
unfolding start_poll
start_poll-Keeps p t w v =
    let (p', w', e, v', count) =
      check-Keeps (record p { timeout = some t }) (poll_sockets p.poll_opts w)
        (record {
          length-recv = v.length-recv;
          length-send = v.length-send;
          in_range = v.in_range;
        }) in
    (p', w', e, v', omega (arith, replies-poll_sockets p.poll_opts w))

poll-Keeps :
    (p : Probe) (delay : ℕ) (w : World)
    → IsValid p
    → p.timeout ≡ none
    → Keeps w 1 (Probe.poll p delay w)
unfolding Probe.poll act
poll-Keeps p delay w v idle = go (w.timer w.log delay) refl
  where
    go : (o : IoError ⊎ ℕ) → w.timer w.log delay ≡ o → Keeps w 1 (Probe.poll p delay w)
    go (inl err) e = (
      p,
      act (Action.reply (Reply.err err)) (act (Action.schedule delay) w),
      rw (e, Probe.poll) refl,
      v,
      rw idle (omega arith),
    )
    go (inr t) e = rw (e, Probe.poll) (start_poll-Keeps p t (act (Action.schedule delay) w) v)

owing : (w : World) (m n : ℕ) (o : Outcome (Probe × World)) → m ≡ n → Keeps w m o → Keeps w n o
owing w m n o e = subst (λ k. Keeps w k o) e

-- Every admissible call of a valid probe returns a valid one, without a panic, and afterwards the
-- replies and the poll that waits are those before, with one more for a poll that the call makes.
Probe-step-Keeps :
    (p : Probe) (c : Call) (w : World)
    → IsValid p
    → Admissible p c
    → Keeps w (waiting p.timeout + requests c) (step p c w)
unfolding step
Probe-step-Keeps p (Call.poll delay) w v a =
    owing w 1 (waiting p.timeout + 1) (Probe.poll p delay w) (omega (arith, ap waiting a))
      (poll-Keeps p delay w v a)
Probe-step-Keeps p Call.on_poll_timeout w v a =
    owing w 1 (waiting p.timeout + 0) (Probe.on_poll_timeout p w) (omega arith)
      (Answered-Keeps p _ w _ a (on_poll_timeout-Answered p w v))
Probe-step-Keeps p (Call.on_socket_can_recv sid b) w v a = rw add-zero (can_recv-Keeps p sid b w v)
Probe-step-Keeps p (Call.on_socket_can_send sid b) w v a = rw add-zero (can_send-Keeps p sid b w v)

-- A history of calls, each admissible where it is made.
pub data Run : Probe → World → Probe → World → ℕ → Type 0 where
  here : {p : Probe} {w : World} → Run p w p w 0
  next :
      {p p' p'' : Probe} {w w' w'' : World} {n : ℕ} (c : Call)
      → Run p w p' w' n
      → Admissible p' c
      → step p' c w' ≡ ok (p'', w'')
      → Run p w p'' w'' (n + requests c)

step-determined :
    (p : Probe) (c : Call) (w : World) (p' : Probe) (w' : World) (owed : ℕ)
    → step p c w ≡ ok (p', w')
    → Keeps w owed (step p c w)
    → IsValid p' × (replies w'.log + waiting p'.timeout ≡ replies w.log + owed)
step-determined p c w p' w' owed e (q, u, f, v, count) =
    let same : ◌≡◌ {A = Outcome (Probe × World)} (ok (q, u)) (ok (p', w')) = sym f ∙ e in
    let both : ◌≡◌ {A = Probe × World} (q, u) (p', w') = cc same in
    subst
      (λ (r : Probe × World).
        IsValid r.0 × (replies r.1.log + waiting r.0.timeout ≡ replies w.log + owed))
      both (v, count)

-- Over any history of admissible calls on a valid probe it stays valid, and the polls made are
-- those answered and the one that waits: each is answered once, and none twice.
pub Probe-Run_answered :
    {p q : Probe} {w u : World} {n : ℕ}
    → IsValid p
    → Run p w q u n
    → IsValid q × (replies u.log + waiting q.timeout ≡ replies w.log + waiting p.timeout + n)
Probe-Run_answered v here = (v, omega arith)
Probe-Run_answered v (next {p' = p'} {p'' = p''} {w' = w'} {w'' = w''} c run a e) =
    let (v', count) = Probe-Run_answered v run in
    let (v'', count') = step-determined p' c w' p'' w'' _ e (Probe-step-Keeps p' c w' v' a) in
    (v'', omega arith)
