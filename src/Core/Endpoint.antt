-- ===== src/Core/Endpoint.antt =====
-- src/core/mod.rs and src/core/endpoint.rs: what describes an endpoint. Identifiers are numbers.
use scaproust.Prelude.{ℕ, Bool, Option, none, some, String}

pub record EndpointDesc : Type 0 where
  pub send_priority : ℕ
  pub recv_priority : ℕ
  pub tcp_no_delay : Bool
  pub recv_max_size : ℕ

pub record EndpointSpec : Type 0 where
  pub url : String
  pub desc : EndpointDesc

pub record EndpointTmpl : Type 0 where
  pub pids : ℕ × ℕ
  pub spec : EndpointSpec

-- A pipe or an acceptor; only one that was created with a url has a url.
pub record Endpoint : Type 0 where
  pub id : ℕ
  pub url : Option String
  pub desc : EndpointDesc

abbrev pub Pipe : Type 0
Pipe = Endpoint

abbrev pub Acceptor : Type 0
Acceptor = Endpoint

abbrev pub new_created : ℕ → String → EndpointDesc → Endpoint
new_created id url desc = record { id = id; url = some url; desc = desc }

abbrev pub new_accepted : ℕ → EndpointDesc → Endpoint
new_accepted id desc = record { id = id; url = none; desc = desc }

abbrev pub from_spec : ℕ → EndpointSpec → Endpoint
from_spec id spec = record { id = id; url = some spec.url; desc = spec.desc }

abbrev pub get_send_priority : Endpoint → ℕ
get_send_priority e = e.desc.send_priority

abbrev pub get_recv_priority : Endpoint → ℕ
get_recv_priority e = e.desc.recv_priority

-- The spec that `close` returns: `self.url.take()` with the description.
unfoldable pub closed_spec : Endpoint → Option EndpointSpec
closed_spec e = elim e.url [ none ↦ none | some url ↦ some (record { url = url; desc = e.desc }) ]
