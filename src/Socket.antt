-- ===== src/Socket.antt =====
-- src/rb10_socket_client.cpp and its header: the client of the RB10 controller box. This file has
-- the data that the client's parts share and the operating system as an interface.
pub mod Io
pub mod Payload
pub mod Reader
pub mod Connection
pub mod Command
mod Tests
use rmp_proximity_sensor.Common.{
  ℕ, Bool, true, false, String, Option, none, List, [], ◌∷◌, ◌++◌, if◌then◌else◌,
}
use rmp_proximity_sensor.Common.Words.{ℤ}

-- `errno` after a failed call.
pub data Errno : Type 0 where
  eagain ewouldblock eintr : Errno
  other : ℕ → Errno

-- `received []` is the return value 0 of `recv`: the peer has closed. `failed` is a negative one.
pub data RecvResult : Type 0 where
  received : List ℕ → RecvResult
  failed : Errno → RecvResult

-- The number of bytes that `send` took, or a negative return value.
pub data SendResult : Type 0 where
  sent : ℕ → SendResult
  refused : Errno → SendResult

-- A file descriptor; `none` is -1.
abbrev pub Fd : Type 0
Fd = Option ℕ

-- The calls of the operating system, which act on its state `S`.
pub record Posix (S : Type 0) : Type 0 where
  pub socket : S → S × Fd
  pub inet_pton : String → Bool
  pub connect : S → Fd → String → ℕ → S × Bool
  pub recv : S → Fd → ℕ → S × RecvResult
  pub send : S → Fd → List ℕ → S × SendResult
  pub shutdown : S → Fd → S
  pub close : S → Fd → S
  pub sleep_ms : S → ℕ → S

-- A line for the log callback; a number or an error that it prints stands beside its text. A
-- response of the controller box is logged as it is.
pub data Log : Type 0 where
  message : String → Log
  numbered : String → ℤ → Log
  call_failed : String → Errno → Log
  response : List ℕ → Log

-- `Rb10SystemState`. A `float` is its 32-bit pattern.
pub record SystemState : Type 0 where
  pub controller_time_sec : ℕ
  pub joint_ref_deg : List ℕ
  pub joint_ang_deg : List ℕ
  pub robot_state : ℤ
  pub power_state : ℤ
  pub program_mode : ℤ
  pub collision_detect_onoff : ℤ
  pub init_state_info : ℤ
  pub init_error : ℤ
  pub op_stat_collision_occur : ℤ
  pub op_stat_sos_flag : ℤ
  pub op_stat_self_collision : ℤ
  pub op_stat_soft_estop_occur : ℤ
  pub op_stat_ems_flag : ℤ

-- The client's members, the operating system's state, and what the two callbacks were given so far.
pub record Client (S : Type 0) : Type 0 where
  pub os : S
  pub running : Bool
  pub connected : Bool
  pub threads_joinable : Bool
  pub cmd_sock : Fd
  pub data_sock : Fd
  pub servo_command_response_pending : Bool
  pub warned_invalid_self_collision_word : Bool
  pub log_callback : Bool
  pub state_callback : Bool
  pub logged : List Log
  pub delivered : List SystemState

unfoldable pub is_retryable_errno : Errno → Bool
is_retryable_errno eagain = true
is_retryable_errno ewouldblock = true
is_retryable_errno eintr = true
is_retryable_errno (other n) = false

module _ {S : Type 0} where
  -- `if (log_callback_) { log_callback_(line); }`
  unfoldable pub log : Log → Client S → Client S
  log line c = if c.log_callback then record c { logged = c.logged ++ line ∷ [] } else c

module _ {S : Type 0} (posix : Posix S) where
  -- `if (sock >= 0) { shutdown(sock); close(sock); }` on the operating system's state.
  unfoldable pub close_socket : Fd → S → S
  close_socket none os = os
  close_socket fd os = posix.close (posix.shutdown os fd) fd

  unfoldable pub set_disconnected : Client S → Client S
  unfolding close_socket
  set_disconnected c = record c {
    os = close_socket c.data_sock (close_socket c.cmd_sock c.os);
    connected = false;
    cmd_sock = none;
    data_sock = none;
  }
