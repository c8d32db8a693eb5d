-- ===== src/Core/Socket/Endpoints.antt =====
-- The life of a pipe in a socket of src/core/socket.rs: who holds it, and what becomes of it when it
-- fails.
use scaproust.Prelude.{ℕ, ◌≡◌, ◌≢◌, refl, ◌⊎◌, true, none, some, ◌∷◌, ok, arith, ==_iff, false}
use scaproust.Core.Endpoint.{EndpointSpec, Pipe}
use scaproust.Core.Context.{World, Action, Schedulable}
use scaproust.Core.Socket.Local.{Protocol, Network, Socket}
use scaproust.Core.Socket.{template, reconnect, on_pipe_opened}
use scaproust.Proto.Call.{Call}
use scaproust.Proto.Pipes
use scaproust.Proto.Pipes.{PipeCollection, get-remove}

get-remove_self : (ps : PipeCollection) (id : ℕ) → Pipes.get (Pipes.remove ps id) id ≡ none
get-remove_self ps id = ground (arith, get-remove ps id id, ==_iff id id)

get-remove_ne :
    (ps : PipeCollection) (id k : ℕ) → id ≢ k → Pipes.get (Pipes.remove ps id) k ≡ Pipes.get ps k
get-remove_ne ps id k h = ground (arith, get-remove ps id k, ==_iff id k)

module _ {P : Type 0} (proto : Protocol P) (net : Network) where
  -- When a pipe of the socket opens and the protocol takes it, the protocol is what the handing over
  -- of that pipe makes of it, the socket holds the pipe no longer and the others still, and a second
  -- notice that it opened changes nothing.
  pub on_pipe_opened-once :
      (s : Socket P) (eid : ℕ) (pipe : Pipe) (p : P) (w w' : World)
      → Pipes.get s.pipes eid ≡ some pipe
      → proto.step s.protocol (Call.add_pipe eid pipe) w ≡ ok (p, w')
      → (s' : Socket P) × (on_pipe_opened proto net s eid w ≡ ok (s', w'))
        × (s'.protocol ≡ p)
        × (Pipes.get s'.pipes eid ≡ none)
        × ((k : ℕ) → eid ≢ k → Pipes.get s'.pipes k ≡ Pipes.get s.pipes k)
        × ((u : World) → on_pipe_opened proto net s' eid u ≡ ok (s', u))
  unfolding on_pipe_opened
  on_pipe_opened-once s eid pipe p w w' held taken =
      let gone = get-remove_self s.pipes eid in
      (
        record s { pipes = Pipes.remove s.pipes eid; protocol = p },
        rw (held, on_pipe_opened) (rw taken refl),
        refl,
        gone,
        get-remove_ne s.pipes eid,
        λ u. rw (gone, on_pipe_opened) refl,
      )

  -- What the timer of a reconnection does to a socket whose pipes were those of `before`: where the
  -- network takes the endpoint back, the pipes are those of `before` and the endpoint is opened; where
  -- it does not, the socket stays as it is and the same timer is armed again.
  abbrev pub Retried : Socket P → Socket P → ℕ → EndpointSpec → World → Socket P × World → Type 0
  Retried before s eid spec v (r, v') =
      ((net.reconnect v.log eid (template proto net spec) ≡ true)
        × ((k : ℕ) → Pipes.get r.pipes k ≡ Pipes.get before.pipes k)
        × (v'.log
            ≡ Action.open_endpoint eid true
              ∷ Action.reconnect s.id eid (template proto net spec)
              ∷ v.log))
      ⊎ ((net.reconnect v.log eid (template proto net spec) ≡ false)
          × (r ≡ s)
          × (v'.log
              ≡ Action.arm (Schedulable.reconnect eid spec) s.config.retry_ivl
                ∷ Action.reconnect s.id eid (template proto net spec)
                ∷ v.log))
