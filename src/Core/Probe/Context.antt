-- ===== src/Core/Probe/Context.antt =====
-- What a probe asks for and reports, and what it does to the outside: the requests, replies and the
-- context of src/core/probe.rs.
use scaproust.Prelude.{ℕ, ◌⊎◌, Bool, List, ◌∷◌}
use scaproust.Core.Context.{IoError}

pub record PollReq : Type 0 where
  pub sid : ℕ
  pub recv : Bool
  pub send : Bool

pub record PollRes : Type 0 where
  pub recv : Bool
  pub send : Bool

pub data Reply : Type 0 where
  err : IoError → Reply
  poll : List PollRes → Reply
  closed : Reply

-- What leaves the probe: a reply to the facade, a call of the scheduler, a poll of a socket.
pub data Action : Type 0 where
  reply : Reply → Action
  schedule : ℕ → Action
  cancel : ℕ → Action
  poll : ℕ → Action

-- The log has the latest action first. The timer answers with an error or with the timer's id.
pub record World : Type 0 where
  pub log : List Action
  pub timer : List Action → ℕ → IoError ⊎ ℕ

unfoldable pub act : Action → World → World
act a w = record w { log = a ∷ w.log }
