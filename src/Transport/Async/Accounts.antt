-- ===== src/Transport/Async/Accounts.antt =====
-- src/transport/async/active/unix.rs: what the operations of an open pipe do to the account of its
-- messages.
use scaproust.Prelude.{
  ℕ, ◌+◌, ◌≡◌, ◌≤◌, refl, subst, ◌∙◌, inl, inr, Bool, true, false, not, Option, none, some, ◌∷◌,
  arith, Bool-cases,
}
use scaproust.Core.Message.{Message}
use scaproust.Core.Context.{IoError}
use scaproust.Transport.Io.{Ran, success, failure, panicked, out_of_fuel, Io, and_then}
use scaproust.Transport.Async.Stub.{AsyncPipeStub, sent, Ready, raise, Log}
use scaproust.Transport.Async.Active.{
  Active, on_stub, on_send_progress, on_recv_progress, change_can_send, change_can_recv,
  hang_up_changed, differ, start_send, start_recv, resume_send, resume_recv, writable_changed,
  readable_changed, send, recv, ready,
}
use scaproust.Transport.Async.History.{milestones, sent_count, pending, IsAsyncPipeStub}

module _ {S : Type 0} (stub : AsyncPipeStub S) where
  -- The messages that have been reported as sent and the one that is under way.
  unfoldable pub account : Active S × Log → ℕ
  account (a, log) = sent_count log + pending (stub.has_pending_send a.stub)

  -- An operation that settles `owed` messages: no milestone is passed, and where it fails, no message is
  -- reported too many.
  pub data Settles (owed : ℕ) (log : Log) : Ran (Active S × Log) (Unit {0}) → Type 0 where
    settled :
        (a : Active S) (log' : Log)
        → account (a, log') ≡ owed
        → milestones log' ≡ milestones log
        → Settles owed log (success tt (a, log'))
    failed :
        (e : IoError) (a : Active S) (log' : Log)
        → sent_count log' ≤ owed
        → milestones log' ≡ milestones log
        → Settles owed log (failure e (a, log'))
    halted : Settles owed log panicked
    starved : Settles owed log out_of_fuel

  change_can_send-Settles :
      (now : Bool) (a : Active S) (log : Log)
      → Settles (account (a, log)) log (change_can_send now (a, log))
  unfolding change_can_send account
  change_can_send-Settles now a log = elim (Bool-cases (differ a.can_send_msg now)) [
    | inl changed ↦ rw (changed, change_can_send) (settled _ _ refl refl)
    | inr same ↦ rw (same, change_can_send) (settled a log refl refl)
  ]

  change_can_recv-Settles :
      (now : Bool) (a : Active S) (log : Log)
      → Settles (account (a, log)) log (change_can_recv now (a, log))
  unfolding change_can_recv account
  change_can_recv-Settles now a log = elim (Bool-cases (differ a.can_recv_msg now)) [
    | inl changed ↦ rw (changed, change_can_recv) (settled _ _ refl refl)
    | inr same ↦ rw (same, change_can_recv) (settled a log refl refl)
  ]

  hang_up_changed-Settles :
      (hup : Bool) (a : Active S) (log : Log)
      → Settles (account (a, log)) log (hang_up_changed hup (a, log))
  unfolding hang_up_changed account
  hang_up_changed-Settles true a log = failed _ _ log (omega arith) refl
  hang_up_changed-Settles false a log = settled a log refl refl

  -- One operation after another.
  then-Settles :
      (owed : ℕ) (log : Log) (r : Ran (Active S × Log) (Unit {0}))
      (f : Unit {0} → Io (Active S × Log) (Unit {0}))
      → Settles owed log r
      → ((a : Active S) (log' : Log)
          → account (a, log') ≡ owed
          → Settles owed log' (f tt (a, log')))
      → Settles owed log (and_then r f)
  then-Settles owed log _ f (settled a log' e m) g = after (f tt (a, log')) (g a log' e)
    where
      after : (r : Ran (Active S × Log) (Unit {0})) → Settles owed log' r → Settles owed log r
      after _ (settled b log'' e' m') = settled b log'' e' (m' ∙ m)
      after _ (failed err b log'' h m') = failed err b log'' h (m' ∙ m)
      after _ halted = halted
      after _ starved = starved
  then-Settles owed log _ f (failed err a log' h m) g = failed err a log' h m
  then-Settles owed log _ f halted g = halted
  then-Settles owed log _ f starved g = starved

  -- The result of a send, by which the message is under way just if it is not done.
  sending-Settles :
      (a : Active S) (log : Log) (owed : ℕ) (r : Ran S Bool)
      → sent_count log ≤ owed
      → ((done : Bool) (s' : S)
          → r ≡ success done s'
          → sent_count log + 1 ≡ owed × (stub.has_pending_send s' ≡ not done))
      → Settles owed log (and_then (on_stub (a, log) r) on_send_progress)
  unfolding on_stub on_send_progress account
  sending-Settles a log owed (success true s') h f =
      let (e, p) = f true s' refl in
      settled (record a { stub = s' }) (raise sent ∷ log) (rw p (omega (arith, e))) refl
  sending-Settles a log owed (success false s') h f =
      let (e, p) = f false s' refl in settled (record a { stub = s' }) log (rw p e) refl
  sending-Settles a log owed (failure e s') h f = failed e (record a { stub = s' }) log h refl
  sending-Settles a log owed panicked h f = halted
  sending-Settles a log owed out_of_fuel h f = starved

  receiving-Settles :
      (a : Active S) (log : Log) (owed : ℕ) (r : Ran S (Option Message))
      → account (a, log) ≡ owed
      → ((m : Option Message) (s' : S)
          → r ≡ success m s'
          → stub.has_pending_send s' ≡ stub.has_pending_send a.stub)
      → Settles owed log (and_then (on_stub (a, log) r) on_recv_progress)
  unfolding on_stub on_recv_progress account
  receiving-Settles a log owed (success none s') h f =
      settled (record a { stub = s' }) log (rw (f none s' refl) h) refl
  receiving-Settles a log owed (success (some msg) s') h f =
      settled (record a { stub = s' }) _ (rw (f (some msg) s' refl) h) refl
  receiving-Settles a log owed (failure e s') h f =
      failed e (record a { stub = s' }) log (omega (arith, h)) refl
  receiving-Settles a log owed panicked h f = halted
  receiving-Settles a log owed out_of_fuel h f = starved

  account-busy :
      (a : Active S) (log : Log)
      → stub.has_pending_send a.stub ≡ true
      → sent_count log + 1 ≡ account (a, log)
  unfolding account
  account-busy a log busy = rw busy (omega arith)

  sent_count-account : (a : Active S) (log : Log) → sent_count log ≤ account (a, log)
  unfolding account
  sent_count-account a log = omega arith

  module _ (laws : IsAsyncPipeStub stub) where
    pub send-Settles :
        (msg : Message) (a : Active S) (log : Log)
        → stub.has_pending_send a.stub ≡ false
        → Settles (account (a, log) + 1) log (send stub msg (a, log))
    unfolding send start_send account
    send-Settles msg a log free =
        sending-Settles (record a { can_send_msg = false }) log _ (stub.start_send msg a.stub)
          (omega arith)
          (λ done s' e. (rw free (omega arith), laws.start_send-pending msg a.stub s' done free e))

    pub recv-Settles :
        (a : Active S) (log : Log) → Settles (account (a, log)) log (recv stub (a, log))
    unfolding recv start_recv account
    recv-Settles a log =
        receiving-Settles (record a { can_recv_msg = false }) log _ (stub.start_recv a.stub) refl
          (λ m s' e. laws.start_recv-pending a.stub s' m e)

    writable_changed-Settles :
        (events : Ready) (a : Active S) (log : Log)
        → Settles (account (a, log)) log (writable_changed stub events (a, log))
    unfolding writable_changed resume_send
    writable_changed-Settles events a log = elim (Bool-cases (not events.writable)) [
      | inl quiet ↦ rw (quiet, writable_changed) (change_can_send-Settles false a log)
      | inr on ↦ elim (Bool-cases (stub.has_pending_send a.stub)) [
        | inl busy ↦
            rw (on, busy, writable_changed)
              (sending-Settles a log _ (stub.resume_send a.stub) (sent_count-account a log)
                (λ done s' e. (account-busy a log busy, laws.resume_send-pending a.stub s' done e)))
        | inr free ↦ elim (Bool-cases (not events.hup)) [
          | inl there ↦ rw (on, free, there, writable_changed) (change_can_send-Settles true a log)
          | inr gone ↦ rw (on, free, gone, writable_changed) (settled a log refl refl)
        ]
      ]
    ]

    readable_changed-Settles :
        (events : Ready) (a : Active S) (log : Log)
        → Settles (account (a, log)) log (readable_changed stub events (a, log))
    unfolding readable_changed resume_recv
    readable_changed-Settles events a log = elim (Bool-cases (not events.readable)) [
      | inl quiet ↦ rw (quiet, readable_changed) (change_can_recv-Settles false a log)
      | inr on ↦ elim (Bool-cases (stub.has_pending_recv a.stub)) [
        | inl busy ↦
            rw (on, busy, readable_changed)
              (receiving-Settles a log _ (stub.resume_recv a.stub) refl
                (λ m s' e. laws.resume_recv-pending a.stub s' m e))
        | inr free ↦ elim (Bool-cases (not events.hup)) [
          | inl there ↦ rw (on, free, there, readable_changed) (change_can_recv-Settles true a log)
          | inr gone ↦ rw (on, free, gone, readable_changed) (settled a log refl refl)
        ]
      ]
    ]

    pub ready-Settles :
        (events : Ready) (a : Active S) (log : Log)
        → Settles (account (a, log)) log (ready stub events (a, log))
    unfolding ready
    ready-Settles events a log =
        then-Settles _ log _ _ (readable_changed-Settles events a log) (λ b log' e.
          then-Settles _ log' _ _
            (subst (λ n. Settles n log' (writable_changed stub events (b, log'))) e
              (writable_changed-Settles events b log'))
            (λ d log'' f.
              subst (λ n. Settles n log'' (hang_up_changed events.hup (d, log''))) f
                (hang_up_changed-Settles events.hup d log'')))
