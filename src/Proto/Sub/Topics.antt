-- ===== src/Proto/Sub/Topics.antt =====
-- src/proto/sub.rs: the topics of a subscriber.
use scaproust.Prelude.{
  ℕ, ◌≡◌, ◌≢◌, ◌↔◌, ◌⊎◌, refl, sym, ap, ◌∙◌, inl, inr, true, false, List, [], ◌∷◌, ◌++◌, drop,
  Outcome, ok, Option, none, some, arith, ◌==◌, ==_iff, Bool-cases,
}
use scaproust.Core.Message.{Message}
use scaproust.Core.Context.{World, Action, Reply, Timeout, act, cancel_timeout}
use scaproust.Core.Log.{cancelled}
use scaproust.Proto.Priolist.{Priolist, peek}
use scaproust.Proto.Policy.{fair_recv}
use scaproust.Proto.Policy.Covered.{IsCovered, IsBest, Chosen, nothing, chosen, fair_recv-Chosen}
use scaproust.Proto.Sub.Inner
use scaproust.Proto.Sub.Inner.{Inner, starts_with, any_prefix, accept}
use scaproust.Proto.Sub.State
use scaproust.Proto.Sub.State.{State, idle, receiving, recv_on_hold}

-- The topics of which a set of them holds.
abbrev pub IsTopic : List ℕ → List (List ℕ) → Type 0
IsTopic topic [] = ⊥
IsTopic topic (t ∷ ts) = (t ≡ topic) ⊎ IsTopic topic ts

starts_with_iff :
    (payload topic : List ℕ)
    → starts_with payload topic ≡ true ↔ ((rest : List ℕ) × (payload ≡ topic ++ rest))
starts_with_iff payload [] = (λ _. (payload, refl), λ _. refl)
starts_with_iff [] (t ∷ topic) = (λ e. absurd (cc e), λ (rest, e). absurd (cc e))
starts_with_iff (b ∷ payload) (t ∷ topic) = (
  λ e.
      (let h : (b ≡ t) × (starts_with payload topic ≡ true) = ground (arith, ==_iff b t, e) in
        let (rest, f) = (starts_with_iff payload topic).0 h.1 in
        (rest, both b t payload (topic ++ rest) h.0 f)),
  λ (rest, e).
      (let first : b ≡ t = cc e in
        let more : payload ≡ topic ++ rest = ap (drop 1) e in
        let tail = (starts_with_iff payload topic).1 (rest, more) in
        ground (arith, ==_iff b t, first, tail)),
)
  where
    both : (x y : ℕ) (xs ys : List ℕ) → x ≡ y → xs ≡ ys → x ∷ xs ≡ y ∷ ys
    both x y xs ys e f = cc

any_prefix_iff :
    (ts : List (List ℕ)) (payload : List ℕ)
    → any_prefix ts payload ≡ true
      ↔ ((topic : List ℕ) × (rest : List ℕ) × IsTopic topic ts × (payload ≡ topic ++ rest))
any_prefix_iff [] payload = (λ e. absurd (cc e), λ (topic, rest, m, e). absurd m)
any_prefix_iff (t ∷ ts) payload = (
  λ e. elim (Bool-cases (starts_with payload t)) [
    | inl here ↦ (let (rest, f) = (starts_with_iff payload t).0 here in (t, rest, inl refl, f))
    | inr elsewhere ↦
        (let (topic, rest, m, f) = (any_prefix_iff ts payload).0 (ground (arith, elsewhere, e)) in
          (topic, rest, inr m, f))
  ],
  λ (topic, rest, m, e). elim m [
    | inl same ↦
        (let here = (starts_with_iff payload t).1 (rest, rw same e) in ground (arith, here))
    | inr later ↦
        (let there = (any_prefix_iff ts payload).1 (topic, rest, later, e) in ground (arith, there))
  ],
)

-- A subscriber accepts a message just if one of its topics is a prefix of the body.
pub accept_iff :
    (inner : Inner) (msg : Message)
    → accept inner msg ≡ true ↔ (
        (topic : List ℕ) × (rest : List ℕ) × IsTopic topic inner.subscriptions
        × (msg.body ≡ topic ++ rest))
unfolding accept
accept_iff inner msg = any_prefix_iff inner.subscriptions msg.body

-- The body starts with a topic of the subscriber.
abbrev pub Matches : Inner → Message → Type 0
Matches inner msg =
    (topic : List ℕ) × (rest : List ℕ) × IsTopic topic inner.subscriptions
    × (msg.body ≡ topic ++ rest)

-- Another message is asked for: from an active endpoint of the best priority, or not before there is
-- one.
abbrev pub AsksNext : Timeout → Inner → World → State.Step → Type 0
AsksNext t inner w r =
    ((peek inner.fq ≡ false) × (r ≡ ok (recv_on_hold t, inner, w)))
    ⊎ ((id : ℕ) × (fq : Priolist) × IsBest inner.fq id
        × (r
            ≡ ok (
              receiving id t,
              record inner { fq = fq },
              record w { log = Action.recv id ∷ w.log },
            )))

recv-AsksNext :
    (t : Timeout) (inner : Inner) (w : World)
    → IsCovered inner.fq inner.pipes
    → AsksNext t inner w (State.recv t inner w)
unfolding State.recv Inner.recv act
recv-AsksNext t inner w c =
    go (fair_recv inner.fq inner.pipes w) refl (fair_recv-Chosen inner.fq inner.pipes w c)
  where
    go :
        (o : Outcome (Option ℕ × Priolist × World))
        → fair_recv inner.fq inner.pipes w ≡ o
        → Chosen inner.fq inner.pipes w Action.recv o
        → AsksNext t inner w (State.recv t inner w)
    go _ e (nothing off) = inl (off, rw (e, State.recv, Inner.recv))
    go _ e (chosen id fq best c') = inr (id, fq, best, rw (e, State.recv, Inner.recv))

-- The message is the answer to the user, and the timer of the request is cancelled.
abbrev pub HandsOver : Timeout → Message → Inner → World → State.Step → Type 0
HandsOver t msg inner w r =
    r ≡ ok (idle, inner, record w { log = cancelled t (Action.reply (Reply.recv msg) ∷ w.log) })

on_recv_ack-HandsOver :
    (t : Timeout) (msg : Message) (inner : Inner) (w : World)
    → HandsOver t msg inner w (ok (idle, inner, Inner.on_recv_ack t msg w))
unfolding Inner.on_recv_ack cancel_timeout act
on_recv_ack-HandsOver none msg inner w = refl
on_recv_ack-HandsOver (some sched) msg inner w = refl

-- While the user waits for a message from a pipe, and the queue is covered by the pipes: a message
-- from that pipe that starts with a topic is the answer to the user, the timer of the request is
-- cancelled and the socket is idle; one that does not is dropped, without an answer, and the next
-- one is asked for from the best active endpoint, or once there is one; a message from another pipe
-- changes nothing.
pub on_recv_ack-topics :
    (id eid : ℕ) (t : Timeout) (msg : Message) (inner : Inner) (w : World)
    → IsCovered inner.fq inner.pipes
    → ((id ≡ eid)
        × Matches inner msg
        × HandsOver t msg inner w (State.on_recv_ack (receiving id t) eid msg inner w))
      ⊎ ((id ≡ eid)
          × (¬ Matches inner msg)
          × AsksNext t inner w (State.on_recv_ack (receiving id t) eid msg inner w))
      ⊎ ((id ≢ eid)
          × (State.on_recv_ack (receiving id t) eid msg inner w ≡ ok (receiving id t, inner, w)))
unfolding State.on_recv_ack
on_recv_ack-topics id eid t msg inner w c = elim (Bool-cases (id == eid)) [
  | inl same ↦ elim (Bool-cases (accept inner msg)) [
    | inl wanted ↦ inl (
      (==_iff id eid).0 same,
      (accept_iff inner msg).0 wanted,
      rw (same, wanted) (on_recv_ack-HandsOver t msg inner w),
    )
    | inr unwanted ↦ inr (
        inl (
          (==_iff id eid).0 same,
          λ m. cc (sym unwanted ∙ (accept_iff inner msg).1 m),
          rw (same, unwanted) (recv-AsksNext t inner w c),
        ))
  ]
  | inr other ↦ inr (inr (λ same. cc (sym other ∙ (==_iff id eid).1 same), rw other refl))
]
