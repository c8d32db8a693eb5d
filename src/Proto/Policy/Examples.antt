-- ===== src/Proto/Policy/Examples.antt =====
-- The policies over three pipes.
use scaproust.Core.Context.{Action}
use scaproust.Proto.Policy.{balanced_send}
use scaproust.Proto.Policy.Covered.{Chosen, balanced_send-Chosen}
use scaproust.Proto.Fixtures.{ready_list, ready_pipes, ready_list-IsCovered, hello, world}

balanced_send-Chosen_example :
    Chosen ready_list ready_pipes world
      (λ id. Action.send id hello)
      (balanced_send ready_list ready_pipes hello world)
balanced_send-Chosen_example =
    balanced_send-Chosen ready_list ready_pipes hello world ready_list-IsCovered
