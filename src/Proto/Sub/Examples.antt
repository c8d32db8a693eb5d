-- ===== src/Proto/Sub/Examples.antt =====
-- A subscriber over three pipes, to the topics that start with the byte 104.
use scaproust.Prelude.{
  ℕ, suc, ◌+◌, ◌≡◌, ◌≢◌, ◌↔◌, ◌⊎◌, refl, true, false, none, some, List, [], ◌∷◌, ◌++◌, String, ok,
}
use scaproust.Core.Context.{World, Action, act, check_recv_ready_change}
use scaproust.Core.Config.{ConfigOption}
use scaproust.Core.Log.{replies}
use scaproust.Proto.Call.{Call}
use scaproust.Proto.Answering.{here, next}
use scaproust.Proto.Pipes
use scaproust.Proto.Policy.{fair_recv}
use scaproust.Proto.Priolist
use scaproust.Proto.Sub.{Sub, step, apply}
use scaproust.Proto.Sub.Inner
use scaproust.Proto.Sub.Inner.{Inner, accept}
use scaproust.Proto.Sub.State
use scaproust.Proto.Sub.State.{State, idle, receiving}
use scaproust.Proto.Sub.History.{Sub-Run_answered}
use scaproust.Proto.Sub.Keeping.{IsValid, waiting_in}
use scaproust.Proto.Sub.Topics.{
  IsTopic, Matches, HandsOver, AsksNext, accept_iff, on_recv_ack-topics,
}
use scaproust.Proto.Sub.Subscribing.{set_option-accepts}
use scaproust.Proto.Fixtures.{ready_list, ready_pipes, ready_list-IsCovered, hello, world}

abbrev inner : Inner
inner = record { pipes = ready_pipes; fq = ready_list; subscriptions = (104 ∷ []) ∷ [] }

abbrev socket : Sub
socket = record { inner = inner; state = some idle }

socket-IsValid : IsValid socket
socket-IsValid = record {
  state = idle;
  present = refl;
  sound = record { covered = ready_list-IsCovered; held = tt };
}

abbrev asking : Sub
asking = record {
  inner = record inner {
    fq = record {
      items =
          record { value = 1; priority = 8; active = false }
          ∷ record { value = 2; priority = 8; active = true }
          ∷ record { value = 3; priority = 9; active = false }
          ∷ [];
      current = some (1, 8);
    };
  };
  state = some (receiving 1 none);
}

abbrev asking_world : World
asking_world = record world { log = Action.recv 1 ∷ [] }

-- No text is met in this history.
abbrev no_bytes : String → List ℕ
no_bytes x = []

receives : step no_bytes socket (Call.recv none) world ≡ ok (asking, asking_world)
unfolding step apply State.recv Inner.recv fair_recv Priolist.pop Pipes.recv_from Pipes.get act
    check_recv_ready_change Inner.is_recv_ready Priolist.peek
receives = refl

Sub-Run_answered_example :
    IsValid asking
    × (replies asking_world.log + waiting_in asking ≡ replies world.log + waiting_in socket + 1)
Sub-Run_answered_example =
    Sub-Run_answered no_bytes socket-IsValid (next (Call.recv none) here refl receives)

accept_iff_example : accept inner hello ≡ true ↔ (
    (topic : List ℕ) × (rest : List ℕ) × IsTopic topic inner.subscriptions
    × (hello.body ≡ topic ++ rest))
accept_iff_example = accept_iff inner hello

-- The bytes of the text "i".
abbrev topic : List ℕ
topic = 105 ∷ []

abbrev into_topic : String → List ℕ
into_topic x = topic

set_option-accepts_example :
    ((q : Sub) × (step into_topic socket (Call.set_option (ConfigOption.subscribe "i")) world
        ≡ ok (q, world))
      × (accept q.inner hello ≡ true
          ↔ ((accept inner hello ≡ true) ⊎ ((rest : List ℕ) × (hello.body ≡ topic ++ rest)))))
    × ((q : Sub) × (step into_topic socket (Call.set_option (ConfigOption.unsubscribe "i")) world
          ≡ ok (q, world))
        × (accept q.inner hello ≡ true ↔ (
            (t : List ℕ) × (rest : List ℕ) × IsTopic t inner.subscriptions
            × (topic ≢ t)
            × (hello.body ≡ t ++ rest))))
set_option-accepts_example = set_option-accepts into_topic socket "i" hello world

on_recv_ack-topics_example :
    ((1 ≡ suc 0)
      × Matches inner hello
      × HandsOver
          (some 3)
          hello
          inner
          world
          (State.on_recv_ack (receiving 1 (some 3)) 1 hello inner world))
    ⊎ ((1 ≡ suc 0)
        × (¬ Matches inner hello)
        × AsksNext
            (some 3)
            inner
            world
            (State.on_recv_ack (receiving 1 (some 3)) 1 hello inner world))
    ⊎ ((1 ≢ suc 0)
        × (State.on_recv_ack (receiving 1 (some 3)) 1 hello inner world
            ≡ ok (receiving 1 (some 3), inner, world)))
on_recv_ack-topics_example = on_recv_ack-topics 1 1 (some 3) hello inner world ready_list-IsCovered
