-- ===== src/Socket/Command.antt =====
-- src/rb10_socket_client.cpp: the commands to the controller box and the hand-shake of the servo
-- commands with the thread that reads the box's responses. `none` means that the fuel of a send ran
-- out. Command texts are bytes; the printing of a `double` with a given precision is a parameter.
pub mod Wire
pub mod Handshake
pub mod Shutdown
use rmp_proximity_sensor.Common.{
  ℕ, zero, suc, Bool, true, false, not, ◌&&◌, ◌||◌, String, Option, none, some, List, [], ◌∷◌, ◌++◌,
  codes, ◌==◌, if◌then◌else◌, ◌>>=◌,
}
use rmp_proximity_sensor.Socket.{
  Posix, Client, Log, message, call_failed, response, RecvResult, received, failed, log,
  set_disconnected, is_retryable_errno,
}
use rmp_proximity_sensor.Socket.Io.{recv, send_all}

-- What the other threads do while this one sleeps: in a call of the system, until the command mutex
-- is free, and until a response arrives or the wait for it is over.
pub record Others (S : Type 0) : Type 0 where
  pub blocked : Client S → Client S
  pub unlocked : Client S → Client S
  pub responded : Client S → Client S

-- Texts that the two commands with joint angles share.
joined : List (List ℕ) → List ℕ
joined [] = []
joined (x ∷ []) = x
joined (x ∷ y ∷ ys) = x ++ codes "," ++ joined (y ∷ ys)

module _ {Double : Type 0} (print : ℕ → Double → List ℕ) where
  prints : ℕ → List Double → List (List ℕ)
  prints precision [] = []
  prints precision (x ∷ xs) = print precision x ∷ prints precision xs

  pub movej_text : List Double → Double → Double → List ℕ
  unfolding joined prints
  movej_text joint_deg speed acceleration =
      codes "move_j(jnt["
      ++ joined (prints 3 joint_deg)
      ++ codes "],"
      ++ joined (prints 3 (speed ∷ acceleration ∷ []))
      ++ codes ")"

  pub servoj_text : List Double → Double → Double → Double → Double → List ℕ
  unfolding joined prints
  servoj_text joint_deg time1 time2 gain lpf_gain =
      codes "move_servo_j(jnt["
      ++ joined (prints 3 joint_deg)
      ++ codes "],"
      ++ joined (prints 6 (time1 ∷ time2 ∷ gain ∷ lpf_gain ∷ []))
      ++ codes ")"

-- A text without the newline at its end.
pub trim_newline : List ℕ → List ℕ
trim_newline [] = []
trim_newline (b ∷ []) = if b == 10 then [] else b ∷ []
trim_newline (b ∷ x ∷ xs) = b ∷ trim_newline (x ∷ xs)

abbrev receive_side_closed : Log
receive_side_closed =
    message
      "[socket] command socket receive side closed by peer; keeping the session alive until a send fails"

-- `if (running_.load() && log_callback_)`
log_running : {S : Type 0} → Log → Client S → Client S
unfolding log
log_running line c = if c.running then log line c else c

-- The predicate of the wait in `send_servoj_degrees`.
unfoldable pub ready_to_send : {S : Type 0} → Client S → Bool
ready_to_send c = not c.servo_command_response_pending || (not c.running || not c.connected)

-- The end of `send_servoj_degrees`: a command that was not sent waits for no response.
after_servo : {S : Type 0} → Client S × Bool → Option (Client S × Bool)
after_servo (c, ok) =
    some (if ok then (c, true) else (record c { servo_command_response_pending = false }, false))

-- The end of `send_text_command`: the connection is given up if a send failed.
after_send : {S : Type 0} → Posix S → Client S × Bool → Option (Client S × Bool)
after_send posix (c, ok) = some (if ok then (c, true) else (set_disconnected posix c, false))

module _ {S : Type 0} (posix : Posix S) (others : Others S) where
  -- `std::this_thread::sleep_for`
  sleep_ms : ℕ → Client S → Client S
  sleep_ms ms c = others.blocked (record c { os = posix.sleep_ms c.os ms })

  unfoldable pub send_text_command : ℕ → List ℕ → Client S → Option (Client S × Bool)
  unfolding after_send
  send_text_command fuel command_text c =
      if not c.connected
      then some (c, false)
      else (let locked = others.unlocked c in
          send_all posix others.blocked fuel locked locked.cmd_sock (command_text ++ codes " ")
          >>= after_send posix)

  pub send_movej_degrees :
      {Double : Type 0}
      → (ℕ → Double → List ℕ)
      → ℕ
      → List Double
      → Double
      → Double
      → Client S
      → Option (Client S × Bool)
  unfolding movej_text
  send_movej_degrees print fuel joint_deg speed acceleration c =
      send_text_command fuel (movej_text print joint_deg speed acceleration) c

  -- `pgmode simulation` or `pgmode real`
  abbrev mode_text : Bool → List ℕ
  mode_text simulation_mode =
      if simulation_mode then codes "pgmode simulation" else codes "pgmode real"

  pub initialize_robot : ℕ → Bool → Client S → Option (Client S × Bool)
  initialize_robot fuel simulation_mode c =
      if not c.connected
      then some (c, false)
      else (send_text_command fuel (codes "mc jall init") c >>= λ r.
          if not r.1
          then some (r.0, false)
          else (send_text_command fuel (mode_text simulation_mode) (sleep_ms 150 r.0) >>= λ r'.
              if not r'.1 then some (r'.0, false) else some (sleep_ms 150 r'.0, true)))

  unfoldable pub send_servoj_degrees : ℕ → List ℕ → Client S → Option (Client S × Bool)
  unfolding after_servo log
  send_servoj_degrees fuel text c =
      let woken = others.responded c in
      if not (ready_to_send woken)
      then some (
        log
            (message
              "[socket] timed out waiting for an RB10 command response before sending the next move_servo_j")
            (record woken { servo_command_response_pending = false }),
        false,
      )
      else (if not woken.connected
          then some (woken, false)
          else (send_text_command fuel text (record woken { servo_command_response_pending = true })
              >>= after_servo))

  -- The end of `send_shutdown_sequence`: the other stop command, if the first one never went out.
  fallback : ℕ → Bool → Bool → List ℕ → Client S → Option (Client S × Bool)
  fallback fuel stopped cleared second c =
      if stopped
      then some (c, true)
      else (send_text_command fuel second c >>= λ r. some (r.0, r.1 || cleared))

  -- A failed send does not stop the sequence.
  unfoldable pub send_shutdown_sequence : ℕ → Bool → Client S → Option (Client S × Bool)
  unfolding sleep_ms fallback
  send_shutdown_sequence fuel halt_first c =
      let first = if halt_first then codes "task stop" else codes "task pause" in
      let second = if halt_first then codes "task pause" else codes "task stop" in
      send_text_command fuel first c >>= λ r1.
      send_text_command fuel (codes "move_itpl_clear()") (sleep_ms 50 r1.0) >>= λ r2.
      send_text_command fuel (codes "move_pb_clear()") r2.0 >>= λ r3.
      send_text_command fuel (codes "move_jb_clear()") r3.0 >>= λ r4.
      send_text_command fuel first (sleep_ms 50 r4.0) >>= λ r5.
      fallback fuel (r1.1 || r5.1) (r2.1 || (r3.1 || r4.1)) second r5.0

  -- The thread that reads the responses: any of them settles the command that waits for one.
  pub read_cmd_loop : ℕ → Client S → Option (Client S)
  unfolding log trim_newline is_retryable_errno
  read_cmd_loop zero c = none
  read_cmd_loop (suc fuel) c = elim (c.running && c.connected) [
    | false ↦ some c
    | true ↦
        let c' = (recv posix others.blocked c c.cmd_sock 256).0 in
        elim (recv posix others.blocked c c.cmd_sock 256).1 [
          | received (b ∷ bs) ↦ read_cmd_loop fuel (
              log (response (trim_newline (b ∷ bs)))
                (record c' { servo_command_response_pending = false }))
          | received [] ↦ some (log_running receive_side_closed c')
          | failed e ↦ elim (is_retryable_errno e) [
            | true ↦ read_cmd_loop fuel c'
            | false ↦ some (log_running (call_failed "[socket] command socket recv error: " e) c')
          ]
        ]
  ]

  -- The thread that asks for packets; `period` is in milliseconds.
  pub request_data_loop : ℕ → ℕ → ℕ → Client S → Option (Client S)
  unfolding sleep_ms log
  request_data_loop period fuel zero c = none
  request_data_loop period fuel (suc rounds) c = elim (c.running && c.connected) [
    | false ↦ some c
    | true ↦ elim (send_all posix others.blocked fuel c c.data_sock (codes "reqdata")) [
      | none ↦ none
      | some (c', true) ↦ request_data_loop period fuel rounds (sleep_ms period c')
      | some (c', false) ↦ some (
          set_disconnected posix
            (log (message "[socket] failed to send reqdata on the data socket") c'))
    ]
  ]
