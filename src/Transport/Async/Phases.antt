-- ===== src/Transport/Async/Phases.antt =====
-- src/transport/async: what a pipe has raised and reported in each state.
use scaproust.Prelude.{
  ℕ, ◌+◌, ◌≡◌, ◌≤◌, ◌⊎◌, refl, ap, subst, ◌∙◌, inl, inr, false, List, [], ◌∷◌, arith,
}
use scaproust.Core.Context.{IoError}
use scaproust.Transport.Io.{Ran, success, failure, panicked, out_of_fuel}
use scaproust.Transport.Async.Stub.{AsyncPipeStub, Event, opened, error, Log}
use scaproust.Transport.Async.Active as Active
use scaproust.Transport.Async.State.{
  PipeState, initial, handshake_tx, handshake_rx, active, dead, transition_if_ok,
  no_transition_if_ok, enter_rx, enter_active,
}
use scaproust.Transport.Async.History.{milestones, sent_count, pending}
use scaproust.Transport.Async.Accounts.{account, Settles, settled, failed, halted, starved}

-- What has been raised of the beginning and the end in a state.
abbrev pub InPhase : {S : Type 0} → PipeState S → List Event → Type 0
InPhase (active a) events = events ≡ opened ∷ []
InPhase dead events =
    (events ≡ [])
    ⊎ (events ≡ opened ∷ [])
    ⊎ ((e : IoError) × (events ≡ error e ∷ []))
    ⊎ ((e : IoError) × (events ≡ error e ∷ opened ∷ []))
InPhase _ events = events ≡ []

-- The account of `n` messages that have been started: all are reported or one is under way on a pipe
-- that is open; on one that is not, no more are reported than were started.
abbrev pub Accounted : {S : Type 0} → AsyncPipeStub S → PipeState S → ℕ → ℕ → Type 0
Accounted stub (active a) n reported = reported + pending (stub.has_pending_send a.stub) ≡ n
Accounted stub dead n reported = reported ≤ n
Accounted stub (initial s pids) n reported = (reported ≡ n) × (stub.has_pending_send s ≡ false)
Accounted stub (handshake_tx s pids) n reported = (reported ≡ n) × (stub.has_pending_send s ≡ false)
Accounted stub (handshake_rx s pids) n reported = (reported ≡ n) × (stub.has_pending_send s ≡ false)

pub record IsSound {S : Type 0} (stub : AsyncPipeStub S) (n : ℕ) (state : PipeState S) (log : Log)
    : Type 0 where
  pub phase : InPhase state (milestones log)
  pub accounted : Accounted stub state n (sent_count log)

-- Of a call that returns, the state and the log are sound.
unfoldable pub Sound : {S : Type 0} → AsyncPipeStub S → ℕ → Ran Log (PipeState S) → Type 0
Sound stub n (success q log) = IsSound stub n q log
Sound stub n _ = Unit {0}

module _ {S : Type 0} (stub : AsyncPipeStub S) where
  no_transition_if_ok-Sound :
      (n : ℕ) (log : Log) (r : Ran (Active.Active S × Log) (Unit {0}))
      → milestones log ≡ opened ∷ []
      → Settles stub n log r
      → Sound stub n (no_transition_if_ok r)
  unfolding no_transition_if_ok Sound account
  no_transition_if_ok-Sound n log _ m (settled a log' e m') = record {
    phase = m' ∙ m;
    accounted = e;
  }
  no_transition_if_ok-Sound n log _ m (failed e a log' h m') = record {
    phase = inr (inr (inr (e, ap (λ es. error e ∷ es) (m' ∙ m))));
    accounted = h;
  }
  no_transition_if_ok-Sound n log _ m halted = tt
  no_transition_if_ok-Sound n log _ m starved = tt

  -- A pipe that ends without an error, before or after it has opened.
  pub ends-Sound :
      (n : ℕ) (q : PipeState S) (log : Log) → IsSound stub n q log → IsSound stub n dead log
  ends-Sound n (initial s pids) log h = record {
    phase = inl h.phase;
    accounted = omega (arith, h.accounted.0);
  }
  ends-Sound n (handshake_tx s pids) log h = record {
    phase = inl h.phase;
    accounted = omega (arith, h.accounted.0);
  }
  ends-Sound n (handshake_rx s pids) log h = record {
    phase = inl h.phase;
    accounted = omega (arith, h.accounted.0);
  }
  ends-Sound n (active a) log h = record {
    phase = inr (inl h.phase);
    accounted = omega (arith, h.accounted);
  }
  ends-Sound n dead log h = h

  pub tx-Sound :
      (n : ℕ) (pids : ℕ × ℕ) (s : S) (log : Log) (r : Ran S (Unit {0}))
      → IsSound stub n (handshake_tx s pids) log
      → ((s' : S) → r ≡ success tt s' → stub.has_pending_send s' ≡ stub.has_pending_send s)
      → Sound stub n (transition_if_ok (enter_rx pids) r log)
  unfolding transition_if_ok enter_rx Sound
  tx-Sound n pids s log (success _ s') h keeps = record {
    phase = h.phase;
    accounted = (h.accounted.0, keeps s' refl ∙ h.accounted.1);
  }
  tx-Sound n pids s log (failure e s') h keeps = record {
    phase = inr (inr (inl (e, ap (λ es. error e ∷ es) h.phase)));
    accounted = omega (arith, h.accounted.0);
  }
  tx-Sound n pids s log panicked h keeps = tt
  tx-Sound n pids s log out_of_fuel h keeps = tt

  pub rx-Sound :
      (n : ℕ) (pids : ℕ × ℕ) (s : S) (log : Log) (r : Ran S (Unit {0}))
      → IsSound stub n (handshake_rx s pids) log
      → ((s' : S) → r ≡ success tt s' → stub.has_pending_send s' ≡ stub.has_pending_send s)
      → Sound stub n (transition_if_ok enter_active r log)
  unfolding transition_if_ok enter_active Active.enter Active.new Sound
  rx-Sound n pids s log (success _ s') h keeps = record {
    phase = ap (λ es. opened ∷ es) h.phase;
    accounted = rw (keeps s' refl ∙ h.accounted.1) (omega (arith, h.accounted.0));
  }
  rx-Sound n pids s log (failure e s') h keeps = record {
    phase = inr (inr (inl (e, ap (λ es. error e ∷ es) h.phase)));
    accounted = omega (arith, h.accounted.0);
  }
  rx-Sound n pids s log panicked h keeps = tt
  rx-Sound n pids s log out_of_fuel h keeps = tt

  -- The account of a pipe that is open, as its state has it.
  pub active-Sound :
      (n owed : ℕ) (log : Log) (r : Ran (Active.Active S × Log) (Unit {0}))
      → milestones log ≡ opened ∷ []
      → owed ≡ n
      → Settles stub owed log r
      → Sound stub n (no_transition_if_ok r)
  active-Sound n owed log r m same h =
      no_transition_if_ok-Sound n log r m (subst (λ k. Settles stub k log r) same h)
