-- ===== src/Core/Probe/Check.antt =====
-- When a probe answers, and what: `check` and the timeout of src/core/probe.rs.
use scaproust.Prelude.{
  ℕ, suc, ◌+◌, ◌<◌, ◌≡◌, ◌≢◌, refl, ap, ◌∙◌, ◌⊎◌, inl, inr, true, Option, none, some, List, [], ◌∷◌,
  map, length, ◌==◌, Outcome, ok, arith, Bool-cases,
}
use scaproust.Core.Probe.Context.{PollReq, PollRes, Reply, Action, World, act}
use scaproust.Core.Probe.{
  Probe, index_of, no_votes, mappings_from, new, votes_over, cancel_timeout, on_poll_succeed, check,
  as_asked, on_poll_timeout,
}
use scaproust.Core.Probe.Votes.{
  clear_from-ok, AllFavoured, votes_over-ok, reported, results_from-reported,
}

-- Each item has a place for its votes, and the votes go to such a place.
pub record IsValid (p : Probe) : Type 0 where
  pub length-recv : length p.recv_votes ≡ length p.poll_opts
  pub length-send : length p.send_votes ≡ length p.poll_opts
  pub in_range : (sid i : ℕ) → index_of p.sid_to_idx sid ≡ some i → i < length p.poll_opts

length-no_votes : (pos : List PollReq) → length (no_votes pos) ≡ length pos
unfolding no_votes
length-no_votes [] = refl
length-no_votes (po ∷ pos) = ap suc (length-no_votes pos)

mappings_from-in_range :
    (i n : ℕ) (pos : List PollReq) (ms : List (ℕ × ℕ))
    → i + length pos ≡ n
    → ((sid j : ℕ) → index_of ms sid ≡ some j → j < n)
    → (sid j : ℕ) → index_of (mappings_from i pos ms) sid ≡ some j
    → j < n
unfolding mappings_from index_of
mappings_from-in_range i n [] ms len h = h
mappings_from-in_range i n (po ∷ pos) ms len h =
    mappings_from-in_range (suc i) n pos ((po.sid, i) ∷ ms) (omega arith)
      (below i po.sid (omega arith))
  where
    some_inj : {u v : ℕ} → some u ≡ some v → u ≡ v
    some_inj x = cc x

    below : (i k : ℕ) → i < n → (sid j : ℕ) → index_of ((k, i) ∷ ms) sid ≡ some j → j < n
    below i k lt sid j e = elim (Bool-cases (k == sid)) [
      | inl yes_key ↦ omega (arith, some_inj (rw yes_key at e))
      | inr other ↦ h sid j (rw other at e)
    ]

pub new-IsValid : (pos : List PollReq) → IsValid (new pos)
unfolding new index_of
new-IsValid pos = record {
  length-recv = length-no_votes pos;
  length-send = length-no_votes pos;
  in_range = mappings_from-in_range 0 (length pos) pos [] (omega arith) none_in;
}
  where
    none_in : (sid j : ℕ) → index_of [] sid ≡ some j → j < length pos
    none_in sid j e = cc e

-- The poll is over: its timer is cancelled, and the results are sent.
abbrev pub Answered : Probe → List PollRes → World → Outcome (Probe × World) → Type 0
Answered p results w o =
    (p' : Probe) × (o
      ≡ ok (p', act (Action.reply (Reply.poll results)) (cancel_timeout p.timeout w)))
    × IsValid p'
    × (p'.timeout ≡ none)

on_poll_succeed-Answered :
    (p : Probe) (results : List PollRes) (w : World)
    → IsValid p
    → Answered p results w (on_poll_succeed p results w)
unfolding on_poll_succeed
on_poll_succeed-Answered p results w v =
    let n = length p.poll_opts in
    let in_recv = v.length-recv in
    let in_send = v.length-send in
    let (rv, e, len) = clear_from-ok 0 n p.recv_votes (omega arith) in
    let (sv, f, len') = clear_from-ok 0 n p.send_votes (omega arith) in
    (
      record p { timeout = none; recv_votes = rv; send_votes = sv },
      rw (e, f) refl,
      record {
        length-recv = len ∙ v.length-recv;
        length-send = len' ∙ v.length-send;
        in_range = v.in_range;
      },
      refl,
    )

check-over :
    (p : Probe) (w : World) (t : ℕ)
    → p.timeout ≡ some t
    → votes_over p.poll_opts p.recv_votes p.send_votes 0 ≡ ok true
    → check p w ≡ on_poll_succeed p (map as_asked p.poll_opts) w
unfolding check
check-over p w t e over = ground arith

-- A check of a valid probe never panics. It answers just if a poll is under way and each vote that
-- it awaits is in favour: then it reports what was asked for. Otherwise it changes nothing.
pub check-cases :
    (p : Probe) (w : World)
    → IsValid p
    → ((p.timeout ≢ none)
        × AllFavoured p.poll_opts p.recv_votes p.send_votes 0
        × Answered p (map as_asked p.poll_opts) w (check p w))
      ⊎ ((¬ ((p.timeout ≢ none) × AllFavoured p.poll_opts p.recv_votes p.send_votes 0))
          × (check p w ≡ ok (p, w)))
unfolding check
check-cases p w v = go p.timeout refl
  where
    go :
        (t : Option ℕ)
        → p.timeout ≡ t
        → ((p.timeout ≢ none)
            × AllFavoured p.poll_opts p.recv_votes p.send_votes 0
            × Answered p (map as_asked p.poll_opts) w (check p w))
          ⊎ ((¬ ((p.timeout ≢ none) × AllFavoured p.poll_opts p.recv_votes p.send_votes 0))
              × (check p w ≡ ok (p, w)))
    go none e = inr (λ (busy, _). busy e, ground arith)
    go (some t) e =
        let in_recv = v.length-recv in
        let in_send = v.length-send in
        elim (votes_over-ok p.poll_opts p.recv_votes p.send_votes 0 (omega arith) (omega arith)) [
          | inl (over, all) ↦
              let (p', f, v', off) = on_poll_succeed-Answered p (map as_asked p.poll_opts) w v in
              inl (λ idle. cc (e, idle), all, (p', rw (check-over p w t e over) f, v', off))
          | inr (over, few) ↦ inr (λ (_, all). few all, ground arith)
        ]

-- When its time is up, a valid probe reports for each item the sides that were asked for and that
-- the socket voted for, and the poll is over.
pub on_poll_timeout-Answered :
    (p : Probe) (w : World)
    → IsValid p
    → Answered p (reported p.poll_opts p.recv_votes p.send_votes 0) w (on_poll_timeout p w)
unfolding on_poll_timeout
on_poll_timeout-Answered p w v =
    let in_recv = v.length-recv in
    let in_send = v.length-send in
    let e =
      results_from-reported p.poll_opts p.recv_votes p.send_votes 0 (omega arith) (omega arith) in
    let (p', f, v', off) =
      on_poll_succeed-Answered p (reported p.poll_opts p.recv_votes p.send_votes 0) w v in
    (p', rw (e, on_poll_timeout) f, v', off)
