-- ===== src/Core/Probe.antt =====
-- Probe of src/core/probe.rs, which polls several sockets for the user: each socket votes on whether
-- it can receive and send, and the poll ends when every awaited vote is in favour, or in time.
pub mod Context
pub mod Votes
pub mod Check
pub mod History
mod Examples
use scaproust.Prelude.{
  ℕ, zero, suc, ◌+◌, ◌≤◌, ◌<◌, ◌≡◌, ◌≢◌, refl, sym, ap, subst, ◌∙◌, ◌↔◌, ◌⊎◌, inl, inr, Bool, true,
  false, not, ◌&&◌, ◌||◌, Option, none, some, List, [], ◌∷◌, map, length, get_elem?, set,
  length-set, get_elem?-in_range, get_elem?-lt, ◌==◌, if◌then◌else◌, Outcome, ok, panic, ◌>>=◌,
  arith, ==_iff, Bool-cases,
}
use scaproust.Core.Probe.Context.{PollReq, PollRes, Reply, Action, World, act}

abbrev pub Vote : Type 0
Vote = Option Bool

pub record Probe : Type 0 where
  pub poll_opts : List PollReq
  pub recv_votes : List Vote
  pub send_votes : List Vote
  pub sid_to_idx : List (ℕ × ℕ)
  pub timeout : Option ℕ

-- The entry put last stands first, so that it hides the earlier ones of its key.
unfoldable pub mappings_from : ℕ → List PollReq → List (ℕ × ℕ) → List (ℕ × ℕ)
mappings_from i [] mappings = mappings
mappings_from i (po ∷ pos) mappings = mappings_from (suc i) pos ((po.sid, i) ∷ mappings)

unfoldable pub no_votes : List PollReq → List Vote
no_votes [] = []
no_votes (_ ∷ pos) = none ∷ no_votes pos

unfoldable pub new : List PollReq → Probe
new poll_opts = record {
  poll_opts = poll_opts;
  recv_votes = no_votes poll_opts;
  send_votes = no_votes poll_opts;
  sid_to_idx = mappings_from 0 poll_opts [];
  timeout = none;
}

unfoldable pub index_of : List (ℕ × ℕ) → ℕ → Option ℕ
index_of [] sid = none
index_of ((k, i) ∷ ms) sid = if k == sid then some i else index_of ms sid

-- `votes[i]` and `votes[i] = vote`
unfoldable pub vote_at : List Vote → ℕ → Outcome Vote
vote_at votes i = elim (get_elem? votes i) [ none ↦ panic | some vote ↦ ok vote ]

unfoldable pub set_vote : List Vote → ℕ → Vote → Outcome (List Vote)
set_vote votes i vote = elim (get_elem? votes i) [ none ↦ panic | some _ ↦ ok (set votes i vote) ]

unfoldable pub is_vote_over : Bool → Vote → Bool
is_vote_over false _ = true
is_vote_over true none = false
is_vote_over true (some x) = x

unfoldable pub is_socket_side_ready : Bool → Vote → Bool
is_socket_side_ready false _ = false
is_socket_side_ready true none = false
is_socket_side_ready true (some x) = x

-- The loop of `clear_votes` over one of the two vectors, from index `i` on.
unfoldable pub clear_from : ℕ → ℕ → List Vote → Outcome (List Vote)
clear_from i zero votes = ok votes
clear_from i (suc n) votes = do votes' ← set_vote votes i none; clear_from (suc i) n votes'

unfoldable pub cancel_timeout : Option ℕ → World → World
cancel_timeout none w = w
cancel_timeout (some timeout) w = act (Action.cancel timeout) w

unfoldable pub on_poll_succeed : Probe → List PollRes → World → Outcome (Probe × World)
on_poll_succeed p results w = do
  recv_votes ← clear_from 0 (length p.poll_opts) p.recv_votes
  send_votes ← clear_from 0 (length p.poll_opts) p.send_votes
  ok (
    record p { timeout = none; recv_votes = recv_votes; send_votes = send_votes },
    act (Action.reply (Reply.poll results)) (cancel_timeout p.timeout w),
  )

-- The loop of `check`: whether every vote is over, from index `i` on.
unfoldable pub votes_over : List PollReq → List Vote → List Vote → ℕ → Outcome Bool
votes_over [] recv_votes send_votes i = ok true
votes_over (po ∷ pos) recv_votes send_votes i =
    let rest = votes_over pos recv_votes send_votes (suc i) in
    do
      recv_vote ← vote_at recv_votes i
      (if is_vote_over po.recv recv_vote
          then (do
            send_vote ← vote_at send_votes i
            (if is_vote_over po.send send_vote then rest else ok false))
          else ok false)

unfoldable pub as_asked : PollReq → PollRes
as_asked po = record { recv = po.recv; send = po.send }

unfoldable pub check : Probe → World → Outcome (Probe × World)
check p w = elim p.timeout [
  | none ↦ ok (p, w)
  | some _ ↦ do
    over ← votes_over p.poll_opts p.recv_votes p.send_votes 0
    (if over then on_poll_succeed p (map as_asked p.poll_opts) w else ok (p, w))
]

unfoldable pub poll_sockets : List PollReq → World → World
poll_sockets [] w = w
poll_sockets (po ∷ pos) w = poll_sockets pos (act (Action.poll po.sid) w)

unfoldable pub start_poll : Probe → ℕ → World → Outcome (Probe × World)
start_poll p timeout w = check (record p { timeout = some timeout }) (poll_sockets p.poll_opts w)

unfoldable pub poll : Probe → ℕ → World → Outcome (Probe × World)
poll p delay w = elim (w.timer w.log delay) [
  | inl e ↦ ok (p, act (Action.reply (Reply.err e)) (act (Action.schedule delay) w))
  | inr timeout ↦ start_poll p timeout (act (Action.schedule delay) w)
]

unfoldable pub results_from : List PollReq → List Vote → List Vote → ℕ → Outcome (List PollRes)
results_from [] recv_votes send_votes i = ok []
results_from (po ∷ pos) recv_votes send_votes i = do
  recv_vote ← vote_at recv_votes i
  send_vote ← vote_at send_votes i
  rest ← results_from pos recv_votes send_votes (suc i)
  ok (
      record {
        recv = is_socket_side_ready po.recv recv_vote;
        send = is_socket_side_ready po.send send_vote;
      }
      ∷ rest)

unfoldable pub on_poll_timeout : Probe → World → Outcome (Probe × World)
on_poll_timeout p w = do
  results ← results_from p.poll_opts p.recv_votes p.send_votes 0
  on_poll_succeed p results w

unfoldable pub on_socket_can_recv : Probe → ℕ → Bool → World → Outcome (Probe × World)
on_socket_can_recv p sid can_recv w = elim (index_of p.sid_to_idx sid) [
  | none ↦ check p w
  | some i ↦ do
    votes ← set_vote p.recv_votes i (some can_recv)
    check (record p { recv_votes = votes }) w
]

unfoldable pub on_socket_can_send : Probe → ℕ → Bool → World → Outcome (Probe × World)
on_socket_can_send p sid can_send w = elim (index_of p.sid_to_idx sid) [
  | none ↦ check p w
  | some i ↦ do
    votes ← set_vote p.send_votes i (some can_send)
    check (record p { send_votes = votes }) w
]

unfoldable pub get_socket_ids : Probe → List ℕ
get_socket_ids p = map (λ po. po.sid) p.poll_opts

-- `Drop`: the facade learns that the probe is gone.
unfoldable pub drop_probe : World → World
drop_probe w = act (Action.reply Reply.closed) w
