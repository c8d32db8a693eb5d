-- ===== src/Core/Config.antt =====
-- src/core/config.rs: the options of a socket. A duration is a number of milliseconds.
use scaproust.Prelude.{ℕ, ◌*◌, Bool, true, false, Option, none, some, String}

pub record Config : Type 0 where
  pub send_timeout : Option ℕ
  pub send_priority : ℕ
  pub recv_timeout : Option ℕ
  pub recv_priority : ℕ
  pub retry_ivl : ℕ
  pub retry_ivl_max : Option ℕ
  pub tcp_no_delay : Bool
  pub recv_max_size : ℕ

pub data ConfigOption : Type 0 where
  linger : ℕ → ConfigOption
  send_timeout recv_timeout : Option ℕ → ConfigOption
  send_priority recv_priority : ℕ → ConfigOption
  recv_max_size : ℕ → ConfigOption
  retry_ivl : ℕ → ConfigOption
  retry_ivl_max : Option ℕ → ConfigOption
  tcp_no_delay : Bool → ConfigOption
  subscribe unsubscribe : String → ConfigOption
  req_resend_ivl : ℕ → ConfigOption
  survey_deadline : ℕ → ConfigOption

unfoldable pub default : Config
default = record {
  send_timeout = none;
  send_priority = 8;
  recv_timeout = none;
  recv_priority = 8;
  retry_ivl = 100;
  retry_ivl_max = none;
  tcp_no_delay = false;
  recv_max_size = 1024 * 1024;
}

-- `none` is the error "option not supported".
unfoldable pub set : Config → ConfigOption → Option Config
set c (send_timeout t) = some (record c { send_timeout = t })
set c (send_priority p) = some (record c { send_priority = p })
set c (recv_timeout t) = some (record c { recv_timeout = t })
set c (recv_priority p) = some (record c { recv_priority = p })
set c (retry_ivl i) = some (record c { retry_ivl = i })
set c (retry_ivl_max i) = some (record c { retry_ivl_max = i })
set c (recv_max_size n) = some (record c { recv_max_size = n })
set c (tcp_no_delay b) = some (record c { tcp_no_delay = b })
set c _ = none

unfoldable pub is_generic : ConfigOption → Bool
is_generic (linger _) = true
is_generic (send_timeout _) = true
is_generic (send_priority _) = true
is_generic (recv_max_size _) = true
is_generic (recv_timeout _) = true
is_generic (recv_priority _) = true
is_generic (retry_ivl _) = true
is_generic (retry_ivl_max _) = true
is_generic (tcp_no_delay _) = true
is_generic _ = false
