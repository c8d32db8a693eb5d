-- ===== src/Proto/Publ/Announced.antt =====
-- src/proto/publ.rs: what the publisher has told of its readiness.
use scaproust.Prelude.{
  ℕ, ◌≡◌, refl, ap, ◌∙◌, inl, inr, Bool, false, not, none, some, List, [], ◌∷◌, Bool-cases,
}
use scaproust.Core.Context.{World, Action, Event, act, Timeout, cancel_timeout, close_pipe}
use scaproust.Proto.Pipes
use scaproust.Proto.Pipes.{PipeCollection, send_to}
use scaproust.Proto.Ids
use scaproust.Proto.Ids.{IdSet}
use scaproust.Proto.Policy.Broadcast.{send_to_all}
use scaproust.Proto.Call.{Call}
use scaproust.Proto.Publ.{
  Pub, is_empty, remove_pipe, send, on_send_ready, on_send_not_ready, recv, is_send_ready, close,
  step,
}

-- The latest `CanSend` of a log; at first a socket is not ready.
abbrev pub announced : List Action → Bool
announced [] = false
announced (Action.raise (Event.can_send ready) ∷ log) = ready
announced (_ ∷ log) = announced log

-- A sequence of calls of any kind.
pub data Run : Pub → World → Pub → World → Type 0 where
  here : (p : Pub) (w : World) → Run p w p w
  next : (p q : Pub) (w u : World) (c : Call) → Run p w q u → Run p w (step q c u).0 (step q c u).1

announced-cancel_timeout :
    (t : Timeout) (w : World) → announced (cancel_timeout t w).log ≡ announced w.log
unfolding cancel_timeout act
announced-cancel_timeout none w = refl
announced-cancel_timeout (some sched) w = refl

announced-close_all :
    (ps : PipeCollection) (w : World) → announced (Pipes.close_all ps w).1.log ≡ announced w.log
unfolding Pipes.close_all close_pipe act
announced-close_all [] w = refl
announced-close_all ((k, p) ∷ ps) w = announced-close_all ps (close_pipe p w).1

is_empty-insert : (xs : IdSet) (id : ℕ) → is_empty (Ids.insert xs id) ≡ false
unfolding Ids.insert Ids.contains
is_empty-insert [] id = refl
is_empty-insert (x ∷ xs) id = elim (Bool-cases (Ids.contains (x ∷ xs) id)) [
  | inl there ↦ rw (there, Ids.insert) refl
  | inr absent ↦ rw (absent, Ids.insert) refl
]

is_empty-before : (xs : IdSet) (id : ℕ) → is_empty (Ids.remove xs id) ≡ false → is_empty xs ≡ false
unfolding Ids.remove
is_empty-before [] id e = e
is_empty-before (x ∷ xs) id e = refl

-- Whatever the call, what is announced stays what is the case.
step-announced :
    (p : Pub) (c : Call) (w : World)
    → announced w.log ≡ is_send_ready p
    → announced (step p c w).1.log ≡ is_send_ready (step p c w).0
unfolding step remove_pipe send on_send_ready on_send_not_ready recv close is_send_ready act
    send_to_all
step-announced p (Call.add_pipe eid pipe) w h = h
step-announced p (Call.remove_pipe eid) w h = elim (Bool-cases (is_empty (Ids.remove p.bc eid))) [
  | inl none_left ↦ rw none_left refl
  | inr some_left ↦ rw some_left (h ∙ ap not (is_empty-before p.bc eid some_left))
]
step-announced p (Call.send msg timeout) w h = announced-cancel_timeout timeout _
step-announced p (Call.on_send_ready eid) w h = elim (Bool-cases (is_empty p.bc)) [
  | inl empty ↦ rw (empty, is_empty-insert p.bc eid) refl
  | inr ready ↦ rw (ready, is_empty-insert p.bc eid) (rw ready at h)
]
step-announced p (Call.on_send_not_ready eid) w h =
    elim (Bool-cases (is_empty (Ids.remove p.bc eid))) [
      | inl none_left ↦ elim (Bool-cases (is_empty p.bc)) [
        | inl empty ↦ rw (empty, none_left) (rw empty at h)
        | inr ready ↦ rw (ready, none_left) refl
      ]
      | inr some_left ↦
          (let before = is_empty-before p.bc eid some_left in
            rw (before, some_left) (rw before at h))
    ]
step-announced p (Call.recv timeout) w h = announced-cancel_timeout timeout _ ∙ h
step-announced p Call.close w h = announced-close_all p.pipes w ∙ h
step-announced p (Call.on_send_ack eid) w h = h
step-announced p Call.on_send_timeout w h = h
step-announced p (Call.on_recv_ack eid msg) w h = h
step-announced p (Call.on_recv_ready eid) w h = h
step-announced p (Call.on_recv_not_ready eid) w h = h
step-announced p Call.on_recv_timeout w h = h
step-announced p (Call.set_option opt) w h = h
step-announced p (Call.on_timer_tick task) w h = h
step-announced p Call.on_device_plugged w h = h

-- Over any history of calls on a publisher that has announced whether it is ready to send, the latest
-- `CanSend` that it has raised, or none at first, tells whether it is ready.
pub Run-announced :
    (p q : Pub) (w u : World)
    → announced w.log ≡ is_send_ready p
    → Run p w q u
    → announced u.log ≡ is_send_ready q
Run-announced p _ w _ h (here _ _) = h
Run-announced p _ w _ h (next _ q _ u c run) = step-announced q c u (Run-announced p q w u h run)
