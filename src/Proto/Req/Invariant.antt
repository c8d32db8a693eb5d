-- ===== src/Proto/Req/Invariant.antt =====
-- src/proto/req.rs: the sound states of a request socket, and its sending transitions.
use scaproust.Prelude.{
  ℕ, ◌+◌, ◌≡◌, refl, inl, inr, Bool, true, false, Option, none, some, Outcome, ok, arith, ◌==◌,
  Bool-cases, if◌then◌else◌,
}
use scaproust.Core.Message.{Message}
use scaproust.Core.Context.{World, Action, Timeout, act, schedule}
use scaproust.Core.Log.{replies, replies-cancel_timeout}
use scaproust.Proto.Priolist.{Priolist, peek}
use scaproust.Proto.Policy.{balanced_send}
use scaproust.Proto.Policy.Covered.{IsCovered, Chosen, nothing, chosen, balanced_send-Chosen}
use scaproust.Proto.Policy.Upkeep.{StaysUnready, activate-IsCovered, deactivate-IsCovered}
use scaproust.Proto.Req.Inner
use scaproust.Proto.Req.Inner.{Inner, PendingRequest}
use scaproust.Proto.Req.State
use scaproust.Proto.Req.State.{
  State, idle, sending, send_on_hold, active, receiving, recv_on_hold, Step, cancel_active,
  recv_any, recv_active, recv_reply_for, send_held, recv_held,
}

-- A message is held back only while no pipe can take it, and a receive from any pipe only while
-- none has a message; a receive that waits for a pipe has a request pending there.
abbrev pub Held : State → Inner → Type 0
Held (send_on_hold msg timeout retry) inner = peek inner.lb ≡ false
Held (recv_on_hold none none timeout) inner = peek inner.fq ≡ false
Held (recv_on_hold none (some p) timeout) inner = ⊥
Held (recv_on_hold (some id) none timeout) inner = ⊥
Held _ inner = Unit {0}

-- The requests of the user that are not answered yet: a send that is no retry, and a receive.
abbrev pub unless : Bool → ℕ
unless true = 0
unless false = 1

abbrev pub waiting : State → ℕ
waiting idle = 0
waiting (sending id msg timeout retry) = unless retry
waiting (send_on_hold msg timeout retry) = unless retry
waiting (active id p) = 0
waiting (receiving id p timeout) = 1
waiting (recv_on_hold id p timeout) = 1

pub record IsSound (s : State) (inner : Inner) : Type 0 where
  pub lb_covered : IsCovered inner.lb inner.pipes
  pub fq_covered : IsCovered inner.fq inner.pipes
  pub held : Held s inner

-- A transition does not panic, ends in a sound state, and leaves `owed` requests answered or waiting.
abbrev pub Ends : World → ℕ → Step → Type 0
Ends w owed r =
    (s : State) × (inner : Inner) × (w' : World) × (r ≡ ok (s, inner, w'))
    × IsSound s inner
    × (replies w'.log + waiting s ≡ replies w.log + owed)

-- The soundness of a state that holds nothing back.
pub free : (s s' : State) (inner : Inner) → IsSound s inner → Held s' inner → IsSound s' inner
free s s' inner h held = record {
  lb_covered = h.lb_covered;
  fq_covered = h.fq_covered;
  held = held;
}

replies-cancel_active : (s : State) (w : World) → replies (cancel_active s w).log ≡ replies w.log
unfolding cancel_active Inner.cancel
replies-cancel_active (active id p) w = replies-cancel_timeout p.retry_timeout w
replies-cancel_active idle w = refl
replies-cancel_active (sending _ _ _ _) w = refl
replies-cancel_active (send_on_hold _ _ _) w = refl
replies-cancel_active (receiving _ _ _) w = refl
replies-cancel_active (recv_on_hold _ _ _) w = refl

pub send-Ends :
    (s s' : State) (msg : Message) (timeout : Timeout) (retry : Bool) (inner : Inner) (w : World)
    → IsSound s' inner
    → Ends w (unless retry) (State.send s msg timeout retry inner w)
unfolding State.send Inner.send act
send-Ends s s' msg timeout retry inner w h =
    go (balanced_send inner.lb inner.pipes msg (cancel_active s w)) refl
      (balanced_send-Chosen inner.lb inner.pipes msg (cancel_active s w) h.lb_covered)
  where
    go :
        (o : Outcome (Option ℕ × Priolist × World))
        → balanced_send inner.lb inner.pipes msg (cancel_active s w) ≡ o
        → Chosen inner.lb inner.pipes (cancel_active s w) (λ id. Action.send id msg) o
        → Ends w (unless retry) (State.send s msg timeout retry inner w)
    go _ e (nothing off) = (
      send_on_hold msg timeout retry,
      inner,
      cancel_active s w,
      rw (e, State.send, Inner.send),
      free s' _ inner h off,
      omega (arith, replies-cancel_active s w),
    )
    go _ e (chosen id lb best c') = (
      sending id msg timeout retry,
      record inner { lb = lb },
      act (Action.send id msg) (cancel_active s w),
      rw (e, State.send, Inner.send),
      record { lb_covered = c'; fq_covered = h.fq_covered; held = tt },
      omega (arith, replies-cancel_active s w),
    )

-- What `Inner::on_send_ack` adds to the log: one reply unless the message was sent again.
replies-on_send_ack :
    (inner : Inner) (t : Timeout) (retry : Bool) (w : World)
    → replies (Inner.on_send_ack inner t retry w).1.log ≡ replies w.log + unless retry
unfolding Inner.on_send_ack schedule act
replies-on_send_ack inner t true w = ground (arith, replies-cancel_timeout t w)
replies-on_send_ack inner t false w =
    ground (arith, replies-cancel_timeout t (Inner.reply_sent false w))

pub on_send_ack-Ends :
    (s : State) (eid : ℕ) (inner : Inner) (w : World)
    → IsSound s inner
    → Ends w (waiting s) (State.on_send_ack s eid inner w)
unfolding State.on_send_ack
on_send_ack-Ends (sending id msg t retry) eid inner w h = elim (Bool-cases (id == eid)) [
  | inl same ↦ rw same (
    _,
    inner,
    (Inner.on_send_ack inner t retry w).1,
    refl,
    free _ _ inner h (after-Held inner.is_device_item),
    after-waiting inner.is_device_item,
  )
  | inr other ↦ rw other (sending id msg t retry, inner, w, refl, h, refl)
]
  where
    after : Bool → State
    after b =
        if b
        then idle
        else active eid
            (record { req = msg; retry_timeout = (Inner.on_send_ack inner t retry w).0 })

    after-Held : (b : Bool) → Held (after b) inner
    after-Held true = tt
    after-Held false = tt

    after-waiting :
        (b : Bool)
        → replies (Inner.on_send_ack inner t retry w).1.log + waiting (after b)
          ≡ replies w.log + unless retry
    after-waiting true = omega (arith, replies-on_send_ack inner t retry w)
    after-waiting false = omega (arith, replies-on_send_ack inner t retry w)
on_send_ack-Ends idle eid inner w h = (_, inner, w, refl, h, refl)
on_send_ack-Ends (send_on_hold _ _ _) eid inner w h = (_, inner, w, refl, h, refl)
on_send_ack-Ends (active _ _) eid inner w h = (_, inner, w, refl, h, refl)
on_send_ack-Ends (receiving _ _ _) eid inner w h = (_, inner, w, refl, h, refl)
on_send_ack-Ends (recv_on_hold _ _ _) eid inner w h = (_, inner, w, refl, h, refl)

pub on_send_timeout-Ends :
    (s : State) (inner : Inner) (w : World)
    → IsSound s inner
    → Ends w 1 (State.on_send_timeout inner w)
unfolding State.on_send_timeout Inner.on_send_timeout act
on_send_timeout-Ends s inner w h = (idle, inner, _, refl, free s idle inner h tt, omega arith)

send_held-Ends :
    (s : State) (inner : Inner) (lb : Priolist) (w : World)
    → IsSound s inner
    → IsCovered lb inner.pipes
    → Ends w (waiting s) (send_held s (record inner { lb = lb }) w)
unfolding send_held
send_held-Ends s inner lb w h c = go s h.held
  where
    inner' : Inner
    inner' = record inner { lb = lb }

    sound : (r : State) → Held r inner' → IsSound r inner'
    sound r held = record { lb_covered = c; fq_covered = h.fq_covered; held = held }

    go : (r : State) → Held r inner → Ends w (waiting r) (send_held r inner' w)
    go (send_on_hold msg t retry) held = send-Ends idle idle msg t retry inner' w (sound idle tt)
    go idle held = (idle, inner', w, refl, sound idle tt, refl)
    go (sending i m t r) held = (sending i m t r, inner', w, refl, sound (sending i m t r) tt, refl)
    go (active i p) held = (active i p, inner', w, refl, sound (active i p) tt, refl)
    go (receiving i p t) held = (receiving i p t, inner', w, refl, sound (receiving i p t) tt, refl)
    go (recv_on_hold i p t) held =
        (recv_on_hold i p t, inner', w, refl, sound (recv_on_hold i p t) (same i p held), refl)
      where
        same :
            (j : Option ℕ) (q : Option PendingRequest)
            → Held (recv_on_hold j q t) inner
            → Held (recv_on_hold j q t) inner'
        same none none k = k
        same (some j) (some q) k = k
        same none (some q) k = k
        same (some j) none k = k

pub on_send_ready-Ends :
    (s : State) (eid : ℕ) (inner : Inner) (w : World)
    → IsSound s inner
    → Ends w (waiting s) (State.on_send_ready s eid inner w)
unfolding State.on_send_ready Inner.on_send_ready
on_send_ready-Ends s eid inner w h =
    let (lb, e, c, _) = activate-IsCovered inner.lb eid inner.pipes h.lb_covered in
    rw (e, State.on_send_ready, Inner.on_send_ready) (send_held-Ends s inner lb w h c)

-- A state stays sound where neither list becomes ready.
pub keep-Held :
    (s : State) (inner inner' : Inner)
    → StaysUnready inner.lb inner'.lb
    → StaysUnready inner.fq inner'.fq
    → Held s inner
    → Held s inner'
keep-Held idle inner inner' a b h = tt
keep-Held (sending _ _ _ _) inner inner' a b h = tt
keep-Held (send_on_hold _ _ _) inner inner' a b h = a h
keep-Held (active _ _) inner inner' a b h = tt
keep-Held (receiving _ _ _) inner inner' a b h = tt
keep-Held (recv_on_hold none none _) inner inner' a b h = b h
keep-Held (recv_on_hold (some _) (some _) _) inner inner' a b h = tt
keep-Held (recv_on_hold none (some _) _) inner inner' a b h = h
keep-Held (recv_on_hold (some _) none _) inner inner' a b h = h

pub on_send_not_ready-Ends :
    (s : State) (eid : ℕ) (inner : Inner) (w : World)
    → IsSound s inner
    → Ends w (waiting s) (State.on_send_not_ready s eid inner w)
unfolding State.on_send_not_ready Inner.on_send_not_ready
on_send_not_ready-Ends s eid inner w h =
    let (lb, e, c, stays) = deactivate-IsCovered inner.lb eid inner.pipes h.lb_covered in
    let inner' : Inner = record inner { lb = lb } in
    (
      s,
      inner',
      w,
      rw e,
      record {
        lb_covered = c;
        fq_covered = h.fq_covered;
        held = keep-Held s inner inner' stays (λ off. off) h.held;
      },
      refl,
    )

pub on_retry_timeout-Ends :
    (s : State) (inner : Inner) (w : World)
    → IsSound s inner
    → Ends w (waiting s) (State.on_retry_timeout s inner w)
unfolding State.on_retry_timeout
on_retry_timeout-Ends (active id p) inner w h = send-Ends idle _ p.req none true inner w h
on_retry_timeout-Ends idle inner w h = (_, inner, w, refl, h, refl)
on_retry_timeout-Ends (sending _ _ _ _) inner w h = (_, inner, w, refl, h, refl)
on_retry_timeout-Ends (send_on_hold _ _ _) inner w h = (_, inner, w, refl, h, refl)
on_retry_timeout-Ends (receiving _ _ _) inner w h = (_, inner, w, refl, h, refl)
on_retry_timeout-Ends (recv_on_hold _ _ _) inner w h = (_, inner, w, refl, h, refl)
