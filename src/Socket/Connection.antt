-- ===== src/Socket/Connection.antt =====
-- src/rb10_socket_client.cpp: `connect`, `disconnect`, `open_socket` and the starting and stopping of
-- the threads. The socket options, the address structure and the scheduling priority have no effect
-- on the client's members and are left out, as are the parameters that are only stored.
pub mod Descriptors
use rmp_proximity_sensor.Common.{ℕ, Bool, true, false, String, none, some, if◌then◌else◌}
use rmp_proximity_sensor.Socket.{Posix, Client, Fd, set_disconnected}

abbrev cmd_port : ℕ
cmd_port = 5000

abbrev data_port : ℕ
data_port = 5001

module _ {S : Type 0} (posix : Posix S) where
  -- `if (sock >= 0) { shutdown(sock); }`
  shutdown_socket : Fd → S → S
  shutdown_socket none os = os
  shutdown_socket fd os = posix.shutdown os fd

  -- The descriptor that ends up in `sock_fd`: a socket that is not connected is closed again.
  connect_or_close : String → ℕ → S × Fd → S × Fd × Bool
  connect_or_close robot_ip port (os, none) = (os, none, false)
  connect_or_close robot_ip port (os, some fd) =
      if posix.inet_pton robot_ip
      then (let (os', ok) = posix.connect os (some fd) robot_ip port in
          if ok then (os', some fd, true) else (posix.close os' (some fd), none, false))
      else (posix.close os (some fd), none, false)

  open_socket : String → ℕ → S → S × Fd × Bool
  open_socket robot_ip port os = connect_or_close robot_ip port (posix.socket os)

  -- The second half of `connect`: the data socket, and then the threads.
  open_data : String → Client S → Client S × Bool
  open_data robot_ip c =
      let (os, fd, ok) = open_socket robot_ip data_port c.os in
      let opened = record c { os = os; data_sock = fd } in
      if ok
      then (record opened { connected = true; running = true; threads_joinable = true }, true)
      else (set_disconnected posix opened, false)

  open_both : String → Client S → Client S × Bool
  open_both robot_ip c =
      let (os, fd, ok) = open_socket robot_ip cmd_port c.os in
      let opened = record c { os = os; cmd_sock = fd } in
      if ok then open_data robot_ip opened else (set_disconnected posix opened, false)

  module _ (joined : Client S → Client S) where
    -- `joined` is what the threads still do before they end.
    join_threads : Client S → Client S
    join_threads c =
        if c.threads_joinable then record (joined c) { threads_joinable = false } else c

    pub stop_threads : Client S → Client S
    stop_threads c = join_threads (record c {
      running = false;
      os = shutdown_socket c.data_sock (shutdown_socket c.cmd_sock c.os);
    })

    pub disconnect : Client S → Client S
    disconnect c = set_disconnected posix (stop_threads c)

    -- The two callbacks are given to `connect`; `true` stands for one that is not empty.
    pub connect : String → Bool → Bool → Client S → Client S × Bool
    connect robot_ip on_state on_log c =
        open_both robot_ip
          (record (disconnect c) { state_callback = on_state; log_callback = on_log })
