-- ===== src/Socket/Connection/Descriptors.antt =====
-- src/rb10_socket_client.cpp: the client's descriptors over `connect` and `disconnect`.
use rmp_proximity_sensor.Common.{
  ℕ, refl, ◌∙◌, inl, inr, Option-cases, if◌then◌else◌, ◌+◌, ◌-◌, ◌≤◌, ◌≡◌, Bool, true, false,
  String, none, some, arith,
}
use rmp_proximity_sensor.Socket.{Posix, Client, Fd, set_disconnected, close_socket}
use rmp_proximity_sensor.Socket.Connection.{
  shutdown_socket, cmd_port, data_port, open_data, open_both, join_threads, connect_or_close,
  open_socket, stop_threads, disconnect, connect,
}

abbrev holds : Fd → ℕ
holds none = 0
holds (some fd) = 1

-- How many sockets the client has in its members.
abbrev pub owned : {S : Type 0} → Client S → ℕ
owned c = holds c.cmd_sock + holds c.data_sock

-- What is relied on of the system: `socket` opens one descriptor, if it gives one, `close` closes
-- one, and the other calls neither.
pub record CountsOpen {S : Type 0} (posix : Posix S) (opened : S → ℕ) : Type 0 where
  pub socket_opens : (os : S) → opened (posix.socket os).0 ≡ opened os + holds (posix.socket os).1
  pub close_closes : (os : S) (fd : ℕ) → opened (posix.close os (some fd)) ≡ opened os - 1
  pub shutdown_keeps : (os : S) (fd : Fd) → opened (posix.shutdown os fd) ≡ opened os
  pub connect_keeps :
      (os : S) (fd : Fd) (ip : String) (port : ℕ)
      → opened (posix.connect os fd ip port).0 ≡ opened os

module _ {S : Type 0} (opened : S → ℕ) where
  -- From `c` to `c'` every descriptor that was opened is in a member, or closed.
  abbrev pub Balanced : Client S → Client S → Type 0
  Balanced c c' = opened c'.os + owned c ≡ opened c.os + owned c'

  module _ (posix : Posix S) (counts : CountsOpen posix opened) where
    close_socket-opened :
        (fd : Fd) (os : S) → opened (close_socket posix fd os) ≡ opened os - holds fd
    unfolding close_socket
    close_socket-opened none os = omega arith
    close_socket-opened (some fd) os = omega (
      arith,
      counts.close_closes (posix.shutdown os (some fd)) fd,
      counts.shutdown_keeps os (some fd),
    )

    shutdown_socket-opened : (fd : Fd) (os : S) → opened (shutdown_socket posix fd os) ≡ opened os
    unfolding shutdown_socket
    shutdown_socket-opened none os = refl
    shutdown_socket-opened (some fd) os = counts.shutdown_keeps os (some fd)

    set_disconnected-Balanced :
        (c : Client S) → owned c ≤ opened c.os → Balanced c (set_disconnected posix c)
    unfolding set_disconnected
    set_disconnected-Balanced c h = omega (
      arith,
      close_socket-opened c.data_sock (close_socket posix c.cmd_sock c.os),
      close_socket-opened c.cmd_sock c.os,
    )

    abbrev is_some : Fd → Bool
    is_some none = false
    is_some (some fd) = true

    connect_or_close-opened :
        (ip : String) (port : ℕ) (os : S) (fd : Fd)
        → holds fd ≤ opened os
        → let (os', fd', ok) = connect_or_close posix ip port (os, fd) in
          (opened os' + holds fd ≡ opened os + holds fd') × (ok ≡ is_some fd')
    unfolding connect_or_close
    connect_or_close-opened ip port os none h = (refl, refl)
    connect_or_close-opened ip port os (some fd) h = ground (
      arith,
      counts.close_closes os fd,
      counts.close_closes (posix.connect os (some fd) ip port).0 fd,
      counts.connect_keeps os (some fd) ip port,
    )

    open_socket-opened :
        (ip : String) (port : ℕ) (os : S)
        → let (os', fd, ok) = open_socket posix ip port os in
          (opened os' ≡ opened os + holds fd) × (ok ≡ is_some fd)
    unfolding open_socket
    open_socket-opened ip port os =
        let new = counts.socket_opens os in
        let (sum, ok) =
          connect_or_close-opened ip port (posix.socket os).0 (posix.socket os).1 (omega arith) in
        (omega arith, ok)

    -- How `connect` ends, from a client that holds `before` of the open sockets.
    record Opened (c : Client S) (r : Client S × Bool) : Type 0 where
      balance : Balanced c r.0
      both_or_none : owned r.0 ≡ (if r.1 then 2 else 0)
      connected_is : r.0.connected ≡ r.1
      running_is : r.1 ≡ true → r.0.running ≡ true

    open_data-Opened :
        (ip : String) (c : Client S) (fd : ℕ)
        → c.cmd_sock ≡ some fd
        → c.data_sock ≡ none
        → owned c ≤ opened c.os
        → Opened c (open_data posix ip c)
    unfolding open_data set_disconnected
    open_data-Opened ip c fd cmd data_none h =
        let (os, new, ok) = open_socket posix ip data_port c.os in
        let closed = set_disconnected-Balanced (record c { os = os; data_sock = new }) in
        ground (arith, open_socket-opened ip data_port c.os, closed)

    open_both-Opened :
        (ip : String) (c : Client S)
        → c.cmd_sock ≡ none
        → c.data_sock ≡ none
        → Opened c (open_both posix ip c)
    unfolding open_both set_disconnected
    open_both-Opened ip c cmd_none data_none =
        let (os, new, ok) = open_socket posix ip cmd_port c.os in
        let with_cmd = record c { os = os; cmd_sock = new } in
        let (more, found) = open_socket-opened ip cmd_port c.os in
        elim (Option-cases new) [
          | inl e ↦ ground (arith, set_disconnected-Balanced with_cmd)
          | inr (fd, e) ↦
              let owned_le : owned with_cmd ≤ opened os = ground arith in
              ground (arith, open_data-Opened ip with_cmd fd e data_none owned_le)
        ]

    module _ (joined : Client S → Client S)
        (joined_balanced : (c : Client S) → owned c ≤ opened c.os → Balanced c (joined c)) where
      stop_threads-Balanced :
          (c : Client S)
          → owned c ≤ opened c.os
          → let c' = stop_threads posix joined c in Balanced c c' × (owned c' ≤ opened c'.os)
      unfolding stop_threads join_threads
      stop_threads-Balanced c h =
          let stopping = record c {
            running = false;
            os = shutdown_socket posix c.data_sock (shutdown_socket posix c.cmd_sock c.os);
          } in
          let same : opened stopping.os ≡ opened c.os =
            shutdown_socket-opened c.data_sock (shutdown_socket posix c.cmd_sock c.os)
            ∙ shutdown_socket-opened c.cmd_sock c.os in
          ground (arith, same, joined_balanced stopping)

      pub disconnect-Balanced :
          (c : Client S) → owned c ≤ opened c.os → Balanced c (disconnect posix joined c)
      unfolding disconnect
      disconnect-Balanced c h =
          let (b, fits) = stop_threads-Balanced c h in
          omega (arith, b, set_disconnected-Balanced (stop_threads posix joined c) fits)

      -- For a client that holds no more sockets than are open: `connect` closes what the client had,
      -- and either both sockets are open and in their members and the threads may run, or the client
      -- has neither and is not connected. Every descriptor that it opened is in a member or closed.
      pub connect-Balanced :
          (ip : String) (on_state on_log : Bool) (c : Client S)
          → owned c ≤ opened c.os
          → let (c', ok) = connect posix joined ip on_state on_log c in
            Balanced c c'
            × (owned c' ≡ (if ok then 2 else 0))
            × (c'.connected ≡ ok)
            × (ok ≡ true → c'.running ≡ true)
      unfolding connect disconnect set_disconnected
      connect-Balanced ip on_state on_log c h =
          let idle = record (disconnect posix joined c) {
            state_callback = on_state;
            log_callback = on_log;
          } in
          let o = open_both-Opened ip idle refl refl in
          (
            omega (arith, o.balance, disconnect-Balanced c h),
            o.both_or_none,
            o.connected_is,
            o.running_is,
          )
