-- ===== src/Proto/Call.antt =====
-- The trait `Protocol` of src/core/socket.rs: the calls that a socket makes of its protocol.
use scaproust.Prelude.{ℕ}
use scaproust.Core.Message.{Message}
use scaproust.Core.Endpoint.{Pipe}
use scaproust.Core.Config.{ConfigOption}
use scaproust.Core.Context.{Schedulable, Timeout}

pub data Call : Type 0 where
  add_pipe : ℕ → Pipe → Call
  remove_pipe : ℕ → Call
  send : Message → Timeout → Call
  on_send_ack on_send_ready on_send_not_ready : ℕ → Call
  on_send_timeout : Call
  recv : Timeout → Call
  on_recv_ack : ℕ → Message → Call
  on_recv_ready on_recv_not_ready : ℕ → Call
  on_recv_timeout : Call
  set_option : ConfigOption → Call
  on_timer_tick : Schedulable → Call
  on_device_plugged close : Call
