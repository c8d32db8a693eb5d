-- ===== src/Proto/Rep/Invariant.antt =====
-- src/proto/rep.rs: the sound states of a reply socket.
use scaproust.Prelude.{ℕ, ◌+◌, ◌≡◌, refl, false, Option, Outcome, ok}
use scaproust.Core.Context.{World, Action, Timeout, act}
use scaproust.Core.Log.{replies}
use scaproust.Proto.Priolist.{Priolist, peek}
use scaproust.Proto.Policy.{fair_recv}
use scaproust.Proto.Policy.Covered.{IsCovered, Chosen, nothing, chosen, fair_recv-Chosen}
use scaproust.Proto.Policy.Upkeep.{StaysUnready}
use scaproust.Proto.Rep.Inner
use scaproust.Proto.Rep.Inner.{Inner}
use scaproust.Proto.Rep.State
use scaproust.Proto.Rep.State.{
  State, idle, receiving, recv_on_hold, active, sending, send_on_hold, Step, send_reply_to,
  send_active, send_held, recv_held,
}

-- A receive is held back only while no pipe has a message.
abbrev pub Held : State → Inner → Type 0
Held (recv_on_hold timeout) inner = peek inner.fq ≡ false
Held _ inner = Unit {0}

-- The requests of the user that are not answered yet.
abbrev pub waiting : State → ℕ
waiting idle = 0
waiting (active _) = 0
waiting _ = 1

pub record IsSound (s : State) (inner : Inner) : Type 0 where
  pub covered : IsCovered inner.fq inner.pipes
  pub held : Held s inner

-- A transition does not panic, ends in a sound state, and leaves `owed` requests answered or waiting.
abbrev pub Ends : World → ℕ → Step → Type 0
Ends w owed r =
    (s : State) × (inner : Inner) × (w' : World) × (r ≡ ok (s, inner, w'))
    × IsSound s inner
    × (replies w'.log + waiting s ≡ replies w.log + owed)

-- Where nothing happens, nothing is owed.
pub stay-Ends :
    (s : State) (inner : Inner) (w : World)
    → IsSound s inner
    → Ends w (waiting s) (ok (s, inner, w))
stay-Ends s inner w h = (s, inner, w, refl, h, refl)

-- A state that holds back no receive needs the covered list alone.
pub free :
    (s : State) (inner : Inner) → Held s inner → IsCovered inner.fq inner.pipes → IsSound s inner
free s inner h c = record { covered = c; held = h }

pub recv-Ends :
    (timeout : Timeout) (inner : Inner) (w : World)
    → IsCovered inner.fq inner.pipes
    → Ends w 1 (State.recv timeout inner w)
unfolding State.recv Inner.recv act
recv-Ends timeout inner w c =
    go (fair_recv inner.fq inner.pipes w) refl (fair_recv-Chosen inner.fq inner.pipes w c)
  where
    go :
        (o : Outcome (Option ℕ × Priolist × World))
        → fair_recv inner.fq inner.pipes w ≡ o
        → Chosen inner.fq inner.pipes w Action.recv o
        → Ends w 1 (State.recv timeout inner w)
    go _ e (nothing off) =
        (recv_on_hold timeout, inner, w, rw (e, State.recv, Inner.recv), free _ _ off c, refl)
    go _ e (chosen id fq best c') = (
      receiving id timeout,
      record inner { fq = fq },
      act (Action.recv id) w,
      rw (e, State.recv, Inner.recv),
      free (receiving id timeout) _ tt c',
      refl,
    )

-- What is held back does not depend on the pipes that can send, nor on the way back.
pub relabel :
    (s : State) (inner : Inner)
    → (inner' : Inner) → inner'.fq ≡ inner.fq
    → Held s inner
    → Held s inner'
relabel (recv_on_hold t) inner inner' same h = rw same h
relabel idle inner inner' same h = tt
relabel (active _) inner inner' same h = tt
relabel (receiving _ _) inner inner' same h = tt
relabel (sending _ _ _) inner inner' same h = tt
relabel (send_on_hold _ _ _) inner inner' same h = tt

-- A state stays sound over a list that is not readier.
pub keep-Held :
    (s : State) (inner inner' : Inner)
    → StaysUnready inner.fq inner'.fq
    → Held s inner
    → Held s inner'
keep-Held (recv_on_hold t) inner inner' stays h = stays h
keep-Held idle inner inner' stays h = tt
keep-Held (active _) inner inner' stays h = tt
keep-Held (receiving _ _) inner inner' stays h = tt
keep-Held (sending _ _ _) inner inner' stays h = tt
keep-Held (send_on_hold _ _ _) inner inner' stays h = tt
