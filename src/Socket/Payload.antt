-- ===== src/Socket/Payload.antt =====
-- src/rb10_socket_client.cpp: `parse_state_payload`, which reads the state out of the words of a
-- data packet. Words lie in the packet as in the memory of the (little-endian) host. `none` stands
-- for a read outside the payload, which C++ leaves undefined.
pub mod Layout
use rmp_proximity_sensor.Common.{
  ℕ, zero, suc, ◌+◌, ◌*◌, Bool, true, false, ◌||◌, Option, none, some, List, [], ◌∷◌, ◌++◌, ltb,
  ◌==◌, length, drop, if◌then◌else◌, ◌>>=◌,
}
use rmp_proximity_sensor.Common.Words.{ℤ, pos, signed32, of_bytes}
use rmp_proximity_sensor.Socket.{Client, SystemState, Log, numbered, log}

abbrev pub required_state_words : ℕ
required_state_words = 127

abbrev first_word : List ℕ → Option ℕ
first_word (b0 ∷ b1 ∷ b2 ∷ b3 ∷ bytes) = some (of_bytes b0 b1 b2 b3)
first_word _ = none

-- `memcpy` of four bytes at `word_index * sizeof(std::uint32_t)`, as the pattern of a `float`.
pub read_float : List ℕ → ℕ → Option ℕ
read_float payload word_index = first_word (drop (word_index * 4) payload)

pub read_int : List ℕ → ℕ → Option ℤ
unfolding read_float
read_int payload word_index = do w ← read_float payload word_index; some (signed32 w)

-- The words `first` to `first + count - 1`.
pub read_floats : List ℕ → ℕ → ℕ → Option (List ℕ)
read_floats payload first zero = some []
read_floats payload first (suc count) = do
  w ← read_float payload first
  rest ← read_floats payload (first + 1) count
  some (w ∷ rest)

-- `raw == 0 || raw == 1`
abbrev is_boolean : ℤ → Bool
is_boolean (pos n) = n == 0 || n == 1
is_boolean _ = false

-- All words that `parse_state_payload` reads, with the raw word 112 beside the state.
pub read_state : List ℕ → Option (SystemState × ℤ)
read_state payload = do
  time ← read_float payload 0
  joint_ref ← read_floats payload 1 6
  joint_ang ← read_floats payload 7 6
  robot ← read_int payload 84
  power ← read_int payload 85
  detect ← read_int payload 98
  mode ← read_int payload 100
  init_info ← read_int payload 101
  init_err ← read_int payload 102
  collision ← read_int payload 110
  sos ← read_int payload 111
  raw_self_collision ← read_int payload 112
  soft_estop ← read_int payload 113
  ems ← read_int payload 114
  some (
    record {
      controller_time_sec = time;
      joint_ref_deg = joint_ref;
      joint_ang_deg = joint_ang;
      robot_state = robot;
      power_state = power;
      program_mode = mode;
      collision_detect_onoff = detect;
      init_state_info = init_info;
      init_error = init_err;
      op_stat_collision_occur = collision;
      op_stat_sos_flag = sos;
      op_stat_self_collision = if is_boolean raw_self_collision then raw_self_collision else pos 0;
      op_stat_soft_estop_occur = soft_estop;
      op_stat_ems_flag = ems;
    },
    raw_self_collision,
  )

module _ {S : Type 0} where
  -- `log_callback_ && !warned.exchange(true)`: the first such word is logged, later ones are not.
  pub warn_self_collision : ℤ → Client S → Client S
  unfolding log
  warn_self_collision raw c =
      if is_boolean raw
      then c
      else (if c.log_callback
          then (if c.warned_invalid_self_collision_word
              then c
              else log
                  (numbered
                    "[socket] ignoring non-boolean self_collision word from the RB10 data packet: "
                    raw)
                  (record c { warned_invalid_self_collision_word = true }))
          else c)

  -- `some (c, none)` is the result false.
  pub parse_state_payload : List ℕ → Client S → Option (Client S × Option SystemState)
  unfolding warn_self_collision
  parse_state_payload payload c =
      let read = read_state payload in
      if ltb (length payload) (required_state_words * 4)
      then some (c, none)
      else (read >>= λ r. some (warn_self_collision r.1 c, some r.0))
