-- ===== src/Core/Probe/Examples.antt =====
-- A probe of two sockets: the first may be read, the second read or written.
use scaproust.Prelude.{
  ◌+◌, ◌≡◌, ◌≢◌, refl, ◌⊎◌, inr, true, false, none, some, List, [], ◌∷◌, map, length, ok,
}
use scaproust.Core.Probe.Context.{PollReq, Action, World, act}
use scaproust.Core.Probe
use scaproust.Core.Probe.{
  Probe, Vote, index_of, no_votes, mappings_from, new, set_vote, vote_at, is_vote_over, votes_over,
  cancel_timeout, check, as_asked, on_poll_timeout, on_socket_can_recv, poll_sockets, start_poll,
}
use scaproust.Core.Probe.Votes.{AllFavoured}
use scaproust.Core.Probe.Check.{IsValid, Answered, new-IsValid, check-cases}
use scaproust.Core.Probe.History.{Call, here, next, replies, waiting, step, Probe-Run_answered}

abbrev two_sockets : List PollReq
two_sockets =
    record { sid = 4; recv = true; send = false }
    ∷ record { sid = 5; recv = true; send = true }
    ∷ []

-- The timer gives the number of actions so far.
abbrev world : World
world = record { log = []; timer = λ log delay. inr (length log) }

abbrev polled_world : World
polled_world = record world { log = Action.poll 5 ∷ Action.poll 4 ∷ Action.schedule 100 ∷ [] }

abbrev polled : Probe
polled = record {
  poll_opts = two_sockets;
  recv_votes = none ∷ none ∷ [];
  send_votes = none ∷ none ∷ [];
  sid_to_idx = (5, 1) ∷ (4, 0) ∷ [];
  timeout = some 0;
}

polls : step (new two_sockets) (Call.poll 100) world ≡ ok (polled, polled_world)
unfolding step new no_votes mappings_from Probe.poll start_poll poll_sockets check votes_over
    vote_at is_vote_over act
polls = refl

idle : (new two_sockets).timeout ≡ none
unfolding new
idle = refl

Probe-Run_answered_example :
    IsValid polled
    × (replies polled_world.log + waiting polled.timeout
        ≡ replies world.log + waiting (new two_sockets).timeout + 1)
Probe-Run_answered_example =
    Probe-Run_answered (new-IsValid two_sockets) (next (Call.poll 100) here idle polls)

polled-IsValid : IsValid polled
polled-IsValid =
    (Probe-Run_answered (new-IsValid two_sockets) (next (Call.poll 100) here idle polls)).0

-- Each vote that is awaited is in favour.
abbrev voted : Probe
voted = record polled {
  recv_votes = some true ∷ some true ∷ [];
  send_votes = none ∷ some true ∷ [];
}

voted-IsValid : IsValid voted
voted-IsValid = record {
  length-recv = refl;
  length-send = refl;
  in_range = polled-IsValid.in_range;
}

check-cases_example :
    ((voted.timeout ≢ none)
      × AllFavoured voted.poll_opts voted.recv_votes voted.send_votes 0
      × Answered voted (map as_asked voted.poll_opts) world (check voted world))
    ⊎ ((¬ (
          (voted.timeout ≢ none) × AllFavoured voted.poll_opts voted.recv_votes voted.send_votes 0))
        × (check voted world ≡ ok (voted, world)))
check-cases_example = check-cases voted world voted-IsValid
