-- ===== src/Proto/Publ/Examples.antt =====
-- A publisher with two pipes, of which the first is ready.
use scaproust.Prelude.{zero, suc, ◌≡◌, refl, none, [], ◌∷◌, arith, if◌then◌else◌}
use scaproust.Core.Endpoint.{new_accepted}
use scaproust.Core.Context.{World}
use scaproust.Proto.Call.{Call}
use scaproust.Proto.Ids.{contains}
use scaproust.Proto.Pipes
use scaproust.Proto.Policy.Broadcast.{send_to_all, sent_to, one_more, IsNamed, send_to_all-once}
use scaproust.Proto.Publ.{Pub, step, is_send_ready}
use scaproust.Proto.Publ.Announced.{announced, Run, Run-announced}
use scaproust.Proto.Fixtures.{desc, hello, world}

abbrev pipes : Pipes.PipeCollection
pipes = (1, new_accepted 1 desc) ∷ (2, new_accepted 2 desc) ∷ []

abbrev quiet : Pub
quiet = record { pipes = pipes; bc = [] }

abbrev ready : Pub
ready = (step quiet (Call.on_send_ready 1) world).0

abbrev ready_world : World
ready_world = (step quiet (Call.on_send_ready 1) world).1

abbrev after : Pub
after = (step ready (Call.send hello none) ready_world).0

abbrev after_world : World
after_world = (step ready (Call.send hello none) ready_world).1

Run-announced_example : announced after_world.log ≡ is_send_ready after
unfolding is_send_ready
Run-announced_example = Run-announced quiet after world after_world refl (
    Run.next quiet ready world ready_world (Call.send hello none)
      (Run.next quiet quiet world world (Call.on_send_ready 1) (Run.here quiet world)))

pipes-IsNamed : IsNamed pipes
unfolding Pipes.get
pipes-IsNamed zero p e = absurd (cc e)
pipes-IsNamed (suc zero) p e = ground arith
pipes-IsNamed (suc (suc zero)) p e = ground arith
pipes-IsNamed (suc (suc (suc k))) p e = ground arith

send_to_all-once_example :
    (sent_to 1 (send_to_all (1 ∷ []) pipes hello world).1.log ≡ (
      if contains (1 ∷ []) 1
      then one_more (Pipes.get pipes 1) hello (sent_to 1 world.log)
      else sent_to 1 world.log))
    × ((send_to_all (1 ∷ []) pipes hello world).0 ≡ [])
unfolding contains
send_to_all-once_example = send_to_all-once (1 ∷ []) pipes hello 1 world (refl, tt) pipes-IsNamed
