-- ===== src/Core/Log.antt =====
-- What the log of actions tells: how many replies the facade has been sent.
use scaproust.Prelude.{ℕ, suc, ◌≡◌, ◌∙◌, refl, Bool, none, some, List, [], ◌∷◌, arith}
use scaproust.Core.Context.{
  Action, World, Timeout, act, cancel_timeout, check_send_ready_change, check_recv_ready_change,
  check_changes,
}

-- How many replies have been sent.
abbrev pub replies : List Action → ℕ
replies [] = 0
replies (Action.reply r ∷ log) = suc (replies log)
replies (_ ∷ log) = replies log

-- The log after a timer has been cancelled, where there is one.
abbrev pub cancelled : Timeout → List Action → List Action
cancelled none log = log
cancelled (some sched) log = Action.cancel sched ∷ log

pub replies-cancel_timeout :
    (t : Timeout) (w : World) → replies (cancel_timeout t w).log ≡ replies w.log
unfolding cancel_timeout act
replies-cancel_timeout none w = refl
replies-cancel_timeout (some s) w = refl

pub replies-check_send_ready_change :
    (a b : Bool) (w : World) → replies (check_send_ready_change a b w).log ≡ replies w.log
unfolding check_send_ready_change act
replies-check_send_ready_change a b w = ground arith

pub replies-check_recv_ready_change :
    (a b : Bool) (w : World) → replies (check_recv_ready_change a b w).log ≡ replies w.log
unfolding check_recv_ready_change act
replies-check_recv_ready_change a b w = ground arith

pub replies-check_changes :
    (a b c d : Bool) (w : World) → replies (check_changes a b c d w).log ≡ replies w.log
replies-check_changes a b c d w =
    replies-check_recv_ready_change c d (check_send_ready_change a b w)
    ∙ replies-check_send_ready_change a b w
