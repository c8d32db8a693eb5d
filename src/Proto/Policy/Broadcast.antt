-- ===== src/Proto/Policy/Broadcast.antt =====
-- src/proto/policy.rs, `broadcast`: a message to all pipes of a set. The set is drained in the order of its
-- list.
use scaproust.Prelude.{
  ℕ, ◌∙◌, ◌≡◌, refl, ap, subst, inl, inr, false, Option, none, some, List, [], ◌∷◌, ◌==◌, ==_iff,
  Bool-cases, Option-cases, if◌then◌else◌,
}
use scaproust.Core.Message.{Message}
use scaproust.Core.Endpoint.{Pipe}
use scaproust.Core.Context.{World, Action, act}
use scaproust.Proto.Pipes.{PipeCollection, get, send_to}
use scaproust.Proto.Ids
use scaproust.Proto.Ids.{IdSet, contains}

unfoldable pub send_each : IdSet → PipeCollection → Message → World → World
send_each [] pipes msg w = w
send_each (id ∷ ids) pipes msg w = send_each ids pipes msg (send_to pipes msg id w).1

unfoldable pub send_to_all : IdSet → PipeCollection → Message → World → IdSet × World
send_to_all bc pipes msg w = ([], send_each bc pipes msg w)

-- The identifier that is left out is in the set afterwards.
unfoldable pub send_to_all_except : IdSet → PipeCollection → Message → ℕ → World → IdSet × World
send_to_all_except bc pipes msg except w =
    (Ids.insert [] except, send_each (Ids.remove bc except) pipes msg w)

-- The messages that have been passed to an endpoint, the latest first.
abbrev pub sent_to : ℕ → List Action → List Message
sent_to eid [] = []
sent_to eid (Action.send id msg ∷ log) =
    let rest = sent_to eid log in if id == eid then msg ∷ rest else rest
sent_to eid (_ ∷ log) = sent_to eid log

abbrev pub NoRepeat : IdSet → Type 0
NoRepeat [] = Unit {0}
NoRepeat (x ∷ xs) = (contains xs x ≡ false) × NoRepeat xs

-- Each pipe stands under its own identifier.
abbrev pub IsNamed : PipeCollection → Type 0
IsNamed pipes = (k : ℕ) (p : Pipe) → get pipes k ≡ some p → p.id ≡ k

-- One more message where a pipe is there.
abbrev pub one_more : Option Pipe → Message → List Message → List Message
one_more none msg msgs = msgs
one_more (some pipe) msg msgs = msg ∷ msgs

send_to-absent :
    (pipes : PipeCollection) (msg : Message) (id : ℕ) (w : World)
    → get pipes id ≡ none
    → (send_to pipes msg id w).1 ≡ w
unfolding send_to
send_to-absent pipes msg id w absent = rw (absent, send_to) refl

send_to-present :
    (pipes : PipeCollection) (msg : Message) (id : ℕ) (pipe : Pipe) (w : World)
    → get pipes id ≡ some pipe
    → pipe.id ≡ id
    → (send_to pipes msg id w).1 ≡ act (Action.send id msg) w
unfolding send_to
send_to-present pipes msg id pipe w found same =
    rw (found, send_to) (ap (λ k. act (Action.send k msg) w) same)

-- One more message for the endpoint itself, if its pipe is there.
send_to-once :
    (pipes : PipeCollection) (msg : Message) (id eid : ℕ) (w : World)
    → IsNamed pipes
    → sent_to eid (send_to pipes msg id w).1.log
      ≡ (if id == eid then one_more (get pipes id) msg (sent_to eid w.log) else sent_to eid w.log)
unfolding act
send_to-once pipes msg id eid w named = elim (Option-cases (get pipes id)) [
  | inl absent ↦
      rw (send_to-absent pipes msg id w absent, absent)
        (elim (Bool-cases (id == eid)) [ inl same ↦ rw same | inr other ↦ rw other ])
  | inr (pipe, found) ↦
      rw (send_to-present pipes msg id pipe w found (named id pipe found), found)
        (elim (Bool-cases (id == eid)) [ inl same ↦ rw same | inr other ↦ rw other ])
]

-- Where no endpoint repeats in the set and each pipe stands under its own identifier, a broadcast passes its
-- message once to each endpoint of the set whose pipe is there, passes nothing else to it and nothing to any
-- other, and leaves the set empty.
pub send_to_all-once :
    (bc : IdSet) (pipes : PipeCollection) (msg : Message) (eid : ℕ) (w : World)
    → NoRepeat bc
    → IsNamed pipes
    → (sent_to eid (send_to_all bc pipes msg w).1.log ≡ (
        if contains bc eid
        then one_more (get pipes eid) msg (sent_to eid w.log)
        else sent_to eid w.log))
      × ((send_to_all bc pipes msg w).0 ≡ [])
unfolding send_to_all send_each contains
send_to_all-once bc pipes msg eid w distinct named = (each bc w distinct, refl)
  where
    each :
        (ids : IdSet) (w : World)
        → NoRepeat ids
        → sent_to eid (send_each ids pipes msg w).log ≡ (
            if contains ids eid
            then one_more (get pipes eid) msg (sent_to eid w.log)
            else sent_to eid w.log)
    each [] w d = refl
    each (id ∷ ids) w (fresh, d) =
        let first = send_to-once pipes msg id eid w named in
        let rest = each ids (send_to pipes msg id w).1 d in
        elim (Bool-cases (id == eid)) [
          | inl same ↦
              (let known : id ≡ eid = (==_iff id eid).0 same in
                let gone : contains ids eid ≡ false =
                  subst (λ k. contains ids k ≡ false) known fresh in
                let there : get pipes id ≡ get pipes eid = ap (get pipes) known in
                rw same ((rw gone at rest) ∙ (rw (same, there) at first)))
          | inr other ↦ (let quiet = rw other at first in rw other (rw quiet at rest))
        ]
