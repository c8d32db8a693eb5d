-- ===== src/Proto/Sub/Inner.antt =====
-- src/proto/sub.rs, `Inner`: the pipes and the fair queue of a subscriber, and its
-- subscriptions, a set of byte strings. Its `reply_tx` is the log of the world.
use scaproust.Prelude.{
  List, [], ◌∷◌, true, false, ◌&&◌, ◌||◌, ◌==◌, if◌then◌else◌, ℕ, Bool, Option, Outcome, ok, ◌>>=◌,
}
use scaproust.Core.Message.{Message}
use scaproust.Core.Bytes.{same_bytes}
use scaproust.Core.Endpoint.{Pipe, get_recv_priority}
use scaproust.Core.Context.{
  World, Reply, timed_out, other, send_reply, fail, Timeout, cancel_timeout,
}
use scaproust.Proto.Priolist
use scaproust.Proto.Priolist.{Priolist}
use scaproust.Proto.Pipes
use scaproust.Proto.Pipes.{PipeCollection}
use scaproust.Proto.Policy.{fair_recv}

pub record Inner : Type 0 where
  pub pipes : PipeCollection
  pub fq : Priolist
  pub subscriptions : List (List ℕ)

unfoldable pub add_pipe : Inner → ℕ → Pipe → Inner
add_pipe inner eid pipe = record inner {
  pipes = Pipes.insert inner.pipes eid pipe;
  fq = Priolist.insert inner.fq eid (get_recv_priority pipe);
}

unfoldable pub remove_pipe : Inner → ℕ → Outcome (Option Pipe × Inner)
remove_pipe inner eid = do
  fq ← Priolist.remove inner.fq eid
  ok (Pipes.get inner.pipes eid, record inner { pipes = Pipes.remove inner.pipes eid; fq = fq })

unfoldable pub send : Timeout → World → World
send timeout w = cancel_timeout timeout (fail other "Send is not supported by pull protocol" w)

unfoldable pub recv : Inner → World → Outcome (Option ℕ × Inner × World)
recv inner w = do
  (eid, fq, w') ← fair_recv inner.fq inner.pipes w
  ok (eid, record inner { fq = fq }, w')

unfoldable pub on_recv_ready : Inner → ℕ → Outcome Inner
on_recv_ready inner eid = do fq ← Priolist.activate inner.fq eid; ok (record inner { fq = fq })

unfoldable pub on_recv_not_ready : Inner → ℕ → Outcome Inner
on_recv_not_ready inner eid = do
  fq ← Priolist.deactivate inner.fq eid
  ok (record inner { fq = fq })

unfoldable pub on_recv_ack : Timeout → Message → World → World
on_recv_ack timeout msg w = cancel_timeout timeout (send_reply (Reply.recv msg) w)

unfoldable pub on_recv_timeout : World → World
on_recv_timeout w = fail timed_out "Recv timed out" w

unfoldable pub is_recv_ready : Inner → Bool
is_recv_ready inner = Priolist.peek inner.fq

unfoldable pub close : Inner → World → Inner × World
close inner w =
    let (pipes, w') = Pipes.close_all inner.pipes w in (record inner { pipes = pipes }, w')

abbrev pub contains : List (List ℕ) → List ℕ → Bool
contains [] topic = false
contains (t ∷ ts) topic = same_bytes t topic || contains ts topic

abbrev pub without : List (List ℕ) → List ℕ → List (List ℕ)
without [] topic = []
without (t ∷ ts) topic =
    let rest = without ts topic in if same_bytes t topic then rest else t ∷ rest

unfoldable pub subscribe : Inner → List ℕ → Inner
subscribe inner topic =
    if contains inner.subscriptions topic
    then inner
    else record inner { subscriptions = let old = inner.subscriptions in topic ∷ old }

unfoldable pub unsubscribe : Inner → List ℕ → Inner
unsubscribe inner topic = record inner { subscriptions = without inner.subscriptions topic }

-- `payload.starts_with(s)`
abbrev pub starts_with : List ℕ → List ℕ → Bool
starts_with payload [] = true
starts_with [] (t ∷ topic) = false
starts_with (b ∷ payload) (t ∷ topic) = b == t && starts_with payload topic

abbrev pub any_prefix : List (List ℕ) → List ℕ → Bool
any_prefix [] payload = false
any_prefix (t ∷ ts) payload = starts_with payload t || any_prefix ts payload

unfoldable pub accept : Inner → Message → Bool
accept inner msg = any_prefix inner.subscriptions msg.body
