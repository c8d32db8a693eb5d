-- ===== src/Core/Probe/Votes.antt =====
-- When the votes of a probe are over, and what they say: the loops of src/core/probe.rs.
use scaproust.Prelude.{
  ℕ, zero, suc, ◌+◌, ◌≤◌, ◌<◌, ◌≡◌, refl, sym, ap, ◌∙◌, ◌↔◌, ◌⊎◌, inl, inr, Bool, true, false,
  Option, none, some, List, [], ◌∷◌, length, get_elem?, set, length-set, get_elem?-in_range, ok,
  arith, Bool-cases,
}
use scaproust.Core.Probe.Context.{PollReq, PollRes}
use scaproust.Core.Probe.{
  Vote, vote_at, set_vote, is_vote_over, is_socket_side_ready, clear_from, votes_over, results_from,
}

vote_at-ok :
    (votes : List Vote) (i : ℕ)
    → i < length votes
    → (v : Vote) × (get_elem? votes i ≡ some v) × (vote_at votes i ≡ ok v)
unfolding vote_at
vote_at-ok votes i h = let (v, e) = get_elem?-in_range votes i h in (v, e, rw (e, vote_at) refl)

pub set_vote-ok :
    (votes : List Vote) (i : ℕ) (v : Vote)
    → i < length votes
    → set_vote votes i v ≡ ok (set votes i v)
unfolding set_vote
set_vote-ok votes i v h = let (u, e) = get_elem?-in_range votes i h in rw (e, set_vote) refl

-- Clearing stays within the vector and keeps its length.
pub clear_from-ok :
    (i n : ℕ) (votes : List Vote)
    → i + n ≤ length votes
    → (votes' : List Vote) × (clear_from i n votes ≡ ok votes') × (length votes' ≡ length votes)
unfolding clear_from
clear_from-ok i zero votes h = (votes, refl, refl)
clear_from-ok i (suc n) votes h =
    let len = length-set votes i none in
    let (votes', e, same) = clear_from-ok (suc i) n (set votes i none) (omega arith) in
    (votes', rw (set_vote-ok votes i none (omega arith)) e, omega arith)

-- An item asks no more than the sockets have voted for: the votes awaited at index `i` are in favour.
abbrev pub IsFavoured : PollReq → List Vote → List Vote → ℕ → Type 0
IsFavoured po recv_votes send_votes i =
    (po.recv ≡ true → get_elem? recv_votes i ≡ some (some true))
    × (po.send ≡ true → get_elem? send_votes i ≡ some (some true))

abbrev pub AllFavoured : List PollReq → List Vote → List Vote → ℕ → Type 0
AllFavoured [] recv_votes send_votes i = Unit {0}
AllFavoured (po ∷ pos) recv_votes send_votes i =
    IsFavoured po recv_votes send_votes i × AllFavoured pos recv_votes send_votes (suc i)

is_vote_over_iff :
    (interest : Bool) (v : Vote)
    → (is_vote_over interest v ≡ true) ↔ (interest ≡ true → v ≡ some true)
unfolding is_vote_over
is_vote_over_iff false v = (λ _ e. cc, λ _. refl)
is_vote_over_iff true none = (λ e. cc, λ f. cc (f refl))
is_vote_over_iff true (some x) = (λ e _. ap some e, λ f. cc (f refl))

-- The votes are over just if each one awaited is in favour.
pub votes_over-ok :
    (pos : List PollReq) (recv_votes send_votes : List Vote) (i : ℕ)
    → i + length pos ≤ length recv_votes
    → length send_votes ≡ length recv_votes
    → ((votes_over pos recv_votes send_votes i ≡ ok true) × AllFavoured pos recv_votes send_votes i)
      ⊎ ((votes_over pos recv_votes send_votes i ≡ ok false)
          × (¬ AllFavoured pos recv_votes send_votes i))
unfolding votes_over
votes_over-ok [] rv sv i h same = inl (refl, tt)
votes_over-ok (po ∷ pos) rv sv i h same =
    let (r, e, e') = vote_at-ok rv i (omega arith) in
    let (s, f, f') = vote_at-ok sv i (omega arith) in
    let rest = votes_over-ok pos rv sv (suc i) (omega arith) same in
    elim (Bool-cases (is_vote_over po.recv r)) [
      | inr off ↦ inr (
        rw (e', votes_over) (rw off refl),
        λ ((a, b), _).
            absurd (contra ((is_vote_over_iff po.recv r).1 (λ on. some_inj (sym e ∙ a on))) off),
      )
      | inl for_r ↦ elim (Bool-cases (is_vote_over po.send s)) [
        | inr off ↦ inr (
          rw (e', votes_over) (rw for_r (rw (f', votes_over) (rw off refl))),
          λ ((a, b), _).
              absurd (contra ((is_vote_over_iff po.send s).1 (λ on. some_inj (sym f ∙ b on))) off),
        )
        | inl for_s ↦ elim rest [
          | inl (g, all) ↦ inl (
            rw (e', votes_over) (rw for_r (rw (f', votes_over) (rw for_s g))),
            (
              (
                λ on. e ∙ ap some ((is_vote_over_iff po.recv r).0 for_r on),
                λ on. f ∙ ap some ((is_vote_over_iff po.send s).0 for_s on),
              ),
              all,
            ),
          )
          | inr (g, few) ↦ inr (
            rw (e', votes_over) (rw for_r (rw (f', votes_over) (rw for_s g))),
            λ (_, all). few all,
          )
        ]
      ]
    ]
  where
    some_inj : {u v : Vote} → some u ≡ some v → u ≡ v
    some_inj x = cc x

    contra : {b : Bool} → b ≡ true → b ≡ false → ⊥
    contra x y = cc (x, y)

-- What one side of a poll reports: the interest, if the vote is in favour.
pub side : Bool → Option Vote → Bool
side interest (some (some true)) = interest
side interest _ = false

-- The results, position by position.
pub reported : List PollReq → List Vote → List Vote → ℕ → List PollRes
reported [] recv_votes send_votes i = []
reported (po ∷ pos) recv_votes send_votes i =
    record {
      recv = side po.recv (get_elem? recv_votes i);
      send = side po.send (get_elem? send_votes i);
    }
    ∷ reported pos recv_votes send_votes (suc i)

is_socket_side_ready-side :
    (interest : Bool) (v : Vote) → is_socket_side_ready interest v ≡ side interest (some v)
unfolding is_socket_side_ready side
is_socket_side_ready-side false none = refl
is_socket_side_ready-side false (some true) = refl
is_socket_side_ready-side false (some false) = refl
is_socket_side_ready-side true none = refl
is_socket_side_ready-side true (some true) = refl
is_socket_side_ready-side true (some false) = refl

pub results_from-reported :
    (pos : List PollReq) (recv_votes send_votes : List Vote) (i : ℕ)
    → i + length pos ≤ length recv_votes
    → length send_votes ≡ length recv_votes
    → results_from pos recv_votes send_votes i ≡ ok (reported pos recv_votes send_votes i)
unfolding results_from reported
results_from-reported [] rv sv i h same = refl
results_from-reported (po ∷ pos) rv sv i h same =
    let (r, e, e') = vote_at-ok rv i (omega arith) in
    let (s, f, f') = vote_at-ok sv i (omega arith) in
    rw
      (
        e',
        f',
        results_from-reported pos rv sv (suc i) (omega arith) same,
        e,
        f,
        is_socket_side_ready-side po.recv r,
        is_socket_side_ready-side po.send s,
      )
      refl
