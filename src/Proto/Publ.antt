-- ===== src/Proto/Publ.antt =====
-- src/proto/publ.rs: the publisher, which sends each message to all pipes that are ready.
pub mod Announced
mod Examples
use scaproust.Prelude.{
  ℕ, zero, suc, ◌+◌, ◌*◌, ◌/◌, ◌-◌, ◌%◌, ◌^◌, ◌≡◌, ◌≢◌, ◌≤◌, ◌<◌, ◌↔◌, ◌⊎◌, refl, sym, ap, subst,
  ◌∙◌, inl, inr, Bool, true, false, not, ◌&&◌, ◌||◌, Option, none, some, List, [], ◌∷◌, ◌++◌, map,
  length, take, drop, get_elem?, String, Outcome, ok, panic, ◌>>=◌, arith, ltb, leb, ◌==◌, ==_iff,
  ==_refl, Bool-cases, Option-cases, if◌then◌else◌, length-append,
}
use scaproust.Core.Message.{Message}
use scaproust.Core.Endpoint.{Pipe}
use scaproust.Core.Context.{
  World, Reply, Action, Event, other, act, send_reply, fail, Timeout, cancel_timeout,
}
use scaproust.Proto.Pipes
use scaproust.Proto.Pipes.{PipeCollection}
use scaproust.Proto.Ids
use scaproust.Proto.Ids.{IdSet}
use scaproust.Proto.Policy.Broadcast.{send_to_all}
use scaproust.Proto.Call.{Call}

pub record Pub : Type 0 where
  pub pipes : PipeCollection
  pub bc : IdSet

unfoldable pub new : Pub
new = record { pipes = []; bc = [] }

abbrev pub is_empty : IdSet → Bool
is_empty [] = true
is_empty (_ ∷ _) = false

abbrev pub raise_can_send : Bool → World → World
raise_can_send ready w = act (Action.raise (Event.can_send ready)) w

unfoldable pub remove_pipe : Pub → ℕ → World → Option Pipe × Pub × World
remove_pipe p eid w =
    let bc = Ids.remove p.bc eid in
    (
      Pipes.get p.pipes eid,
      record { pipes = Pipes.remove p.pipes eid; bc = bc },
      if is_empty bc then raise_can_send false w else w,
    )

unfoldable pub send : Pub → Message → Timeout → World → Pub × World
send p msg timeout w =
    let (bc, w') = send_to_all p.bc p.pipes msg w in
    (record p { bc = bc }, cancel_timeout timeout (send_reply Reply.send (raise_can_send false w')))

unfoldable pub on_send_ready : Pub → ℕ → World → Pub × World
on_send_ready p eid w =
    (record p { bc = Ids.insert p.bc eid }, if is_empty p.bc then raise_can_send true w else w)

-- `was_empty ^ is_empty`
unfoldable pub on_send_not_ready : Pub → ℕ → World → Pub × World
on_send_not_ready p eid w =
    let bc = Ids.remove p.bc eid in
    let was_empty = is_empty p.bc in
    let now_empty = is_empty bc in
    (
      record p { bc = bc },
      if (was_empty && not now_empty) || (not was_empty && now_empty)
          then raise_can_send false w
          else w,
    )

unfoldable pub recv : Timeout → World → World
recv timeout w = cancel_timeout timeout (fail other "Recv is not supported by pub protocol" w)

unfoldable pub is_send_ready : Pub → Bool
is_send_ready p = not (is_empty p.bc)

unfoldable pub close : Pub → World → Pub × World
close p w = let (pipes, w') = Pipes.close_all p.pipes w in (record p { pipes = pipes }, w')

-- A call of the trait; options, timer ticks and devices are the trait's, which do nothing here.
unfoldable pub step : Pub → Call → World → Pub × World
step p (Call.add_pipe eid pipe) w = (record p { pipes = Pipes.insert p.pipes eid pipe }, w)
step p (Call.remove_pipe eid) w = let (_, p', w') = remove_pipe p eid w in (p', w')
step p (Call.send msg timeout) w = send p msg timeout w
step p (Call.on_send_ready eid) w = on_send_ready p eid w
step p (Call.on_send_not_ready eid) w = on_send_not_ready p eid w
step p (Call.recv timeout) w = (p, recv timeout w)
step p Call.close w = close p w
step p _ w = (p, w)
