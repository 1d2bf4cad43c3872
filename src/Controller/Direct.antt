-- ===== src/Controller/Direct.antt =====
-- src/rmpflow_controller_node.cpp: `DirectRb10Backend`, the backend that has the socket client of
-- Socket. A call of the client is an output, and what it reports is an input. The reader's thread calls
-- `on_state`, the control loop `apply_command`, and a thread of its own sends what the control loop has
-- queued; here are the parts of their code between two accesses to what they share.
pub mod Handler
pub mod Threads
pub mod Startup
mod Tests
use rmp_proximity_sensor.Common.{
  ℕ, ◌≡◌, refl, Bool, true, false, not, ◌&&◌, ◌||◌, String, Option, none, some, List, [], ◌∷◌, ◌++◌,
  map, zip_with, length, ◌==◌, if◌then◌else◌, str_eq, replicate,
}
use rmp_proximity_sensor.Common.Floats.{Floats, zeros}
use rmp_proximity_sensor.Common.Words.{ℤ, pos, negsuc}
use rmp_proximity_sensor.Socket.{SystemState}
use rmp_proximity_sensor.Controller.{RobotState}
use rmp_proximity_sensor.Controller.Filter.{Settings, Filter, reset, update}

-- The members that the constructor sets; `synced_input_velocity_filter` is there if the filter is used.
pub record Config (Double : Type 0) : Type 0 where
  pub simulation_mode : Bool
  pub real_joint_state_source : String
  pub publish_debug_joint_state_sources : Bool
  pub startup_home_joints_deg : List Double
  pub startup_release_tolerance_deg : Double
  pub stop_on_shutdown : Bool
  pub shutdown_action : String
  pub synced_input_velocity_filter : Option (Settings Double)

pub record Backend (Double Time : Type 0) : Type 0 where
  pub state_buffer : RobotState Double
  pub state_received : Bool
  pub startup_waiting_for_home : Bool
  pub startup_release_deadline : Time
  pub command_blocked_due_to_safety : Bool
  pub latest_servo_joint_deg : List Double
  pub servo_command_pending : Bool
  pub servo_command_thread_running : Bool
  pub filter : Filter Double Time

pub data Output (Double : Type 0) : Type 0 where
  debug_joint_states : List Double → List Double → List Double → Output Double
  shutdown_sequence : Bool → Output Double
  disconnect : Output Double

-- What a round of `servo_command_loop` does under the lock.
pub data Round (Double Time : Type 0) : Type 0 where
  waiting returned : Round Double Time
  taken : List Double → Backend Double Time → Round Double Time

abbrev is_set : ℤ → Bool
is_set (pos n) = not (n == 0)
is_set (negsuc n) = true

pub command_blocked_by_robot_safety : SystemState → Bool
command_blocked_by_robot_safety state =
    is_set state.op_stat_soft_estop_occur
    || (is_set state.op_stat_ems_flag
        || (is_set state.op_stat_collision_occur
            || (is_set state.op_stat_self_collision || is_set state.op_stat_sos_flag)))

module _ {Double Time : Type 0} where
  pub ready : Bool → Backend Double Time → Bool
  ready connected b = connected && (b.state_received && not b.startup_waiting_for_home)

  -- The queue of one command, of which the newest counts.
  pub queue_servo_command : List Double → Backend Double Time → Backend Double Time
  queue_servo_command joint_deg b = record b {
    latest_servo_joint_deg = joint_deg;
    servo_command_pending = true;
  }

  pub clear_pending_servo_command : Backend Double Time → Backend Double Time
  clear_pending_servo_command b = record b { servo_command_pending = false }

  pub stop_servo_command_thread : Backend Double Time → Backend Double Time
  stop_servo_command_thread b = record b {
    servo_command_thread_running = false;
    servo_command_pending = false;
  }

  pub take_servo_command : Backend Double Time → Round Double Time
  take_servo_command b =
      if not (not b.servo_command_thread_running || b.servo_command_pending)
      then waiting
      else (if not b.servo_command_thread_running && not b.servo_command_pending
          then returned
          else taken b.latest_servo_joint_deg (record b { servo_command_pending = false }))

  -- The exchange of the flag: whether a stop has just begun.
  pub exchange_blocked : SystemState → Backend Double Time → Backend Double Time × Bool
  exchange_blocked state b =
      let command_blocked = command_blocked_by_robot_safety state in
      (
        record b { command_blocked_due_to_safety = command_blocked },
        command_blocked && not b.command_blocked_due_to_safety,
      )

module _ {Double Time : Type 0} (floats : Floats Double Time) where
  -- The checks of `apply_command`, and the command in degrees if it passes them.
  pub check_command : Bool → RobotState Double → Backend Double Time → Option (List Double)
  check_command connected command_state b =
      if not (ready connected b)
      then none
      else (if b.command_blocked_due_to_safety
          then none
          else some (map floats.radians_to_degrees command_state.q))

  pub apply_command : Bool → RobotState Double → Backend Double Time → Backend Double Time
  unfolding queue_servo_command
  apply_command connected command_state b = elim (check_command connected command_state b) [
    | none ↦ b
    | some joint_deg ↦ queue_servo_command joint_deg b
  ]

module _ {Double Time : Type 0} (floats : Floats Double Time) (cfg : Config Double) where
  select_joint_source_deg : SystemState → List ℕ
  select_joint_source_deg state =
      if cfg.simulation_mode
      then state.joint_ref_deg
      else (if str_eq cfg.real_joint_state_source "reference"
          then state.joint_ref_deg
          else state.joint_ang_deg)

  abbrev radians : List ℕ → List Double
  radians joint_deg = map (λ w. floats.degrees_to_radians (floats.of_float w)) joint_deg

  pub position_of : SystemState → List Double
  unfolding select_joint_source_deg
  position_of state = radians (select_joint_source_deg state)

  -- The velocity of the filter, if it is used, and zero otherwise.
  filter_velocity :
      Option (Settings Double)
      → List Double
      → Time
      → Filter Double Time
      → Filter Double Time × List Double
  filter_velocity none q current_time f = (f, replicate 6 floats.zero_value)
  filter_velocity (some settings) q current_time f = update floats settings q current_time f

  -- The beginning of `on_state`, up to `state_received_.store(true)`.
  pub write_state : Time → SystemState → Backend Double Time → Backend Double Time
  unfolding filter_velocity
  write_state current_time state b =
      let q = position_of state in
      let filtered = filter_velocity cfg.synced_input_velocity_filter q current_time b.filter in
      record b {
        filter = filtered.0;
        state_buffer = record { q = q; qd = filtered.1 };
        state_received = true;
      }

  pub publish_debug_joint_states : SystemState → List (Output Double)
  publish_debug_joint_states state =
      let reference_position_rad = radians state.joint_ref_deg in
      let measured_position_rad = radians state.joint_ang_deg in
      debug_joint_states reference_position_rad measured_position_rad (
        zip_with (λ r m. floats.radians_to_degrees (floats.sub r m)) reference_position_rad
          measured_position_rad)
      ∷ []

  within_tolerance : List ℕ → List Double → Bool
  within_tolerance (a ∷ angles) (h ∷ home) =
      not (
        floats.lt cfg.startup_release_tolerance_deg
          (floats.fabs (floats.sub (floats.of_float a) h)))
      && within_tolerance angles home
  within_tolerance _ _ = true

  pub home_reached : SystemState → Bool
  unfolding within_tolerance
  home_reached state =
      within_tolerance (if cfg.simulation_mode then state.joint_ref_deg else state.joint_ang_deg)
        cfg.startup_home_joints_deg

  -- The filter starts again at rest, if it is used.
  rest_filter :
      Option (Settings Double)
      → List Double
      → Time
      → Filter Double Time × RobotState Double
      → Filter Double Time × RobotState Double
  rest_filter none q current_time kept = kept
  rest_filter (some settings) q current_time kept =
      (reset floats q current_time, record { q = q; qd = zeros floats q })

  -- The end of `on_state`: at home, or too late for it, the backend is released.
  pub release_startup : Time → SystemState → Backend Double Time → Backend Double Time
  unfolding rest_filter
  release_startup current_time state b =
      if not b.startup_waiting_for_home
      then b
      else (if home_reached state || floats.at_or_after current_time b.startup_release_deadline
          then (let rested =
                rest_filter cfg.synced_input_velocity_filter (position_of state) current_time
                  (b.filter, b.state_buffer) in
              record b {
                startup_waiting_for_home = false;
                filter = rested.0;
                state_buffer = rested.1;
              })
          else b)

  -- The whole handler, with nothing in between.
  pub on_state :
      Time → SystemState → Backend Double Time → Backend Double Time × List (Output Double)
  unfolding write_state release_startup publish_debug_joint_states
  on_state current_time state b =
      let (noted, stops) = exchange_blocked state (write_state current_time state b) in
      let cleared = if stops then clear_pending_servo_command noted else noted in
      (
        release_startup current_time state cleared,
        if cfg.publish_debug_joint_state_sources then publish_debug_joint_states state else [],
      )

  -- The destructor, once its own thread has been joined.
  pub destroy : Bool → Backend Double Time → Backend Double Time × List (Output Double)
  unfolding stop_servo_command_thread
  destroy connected b = (
    stop_servo_command_thread b,
    (if cfg.stop_on_shutdown && connected
          then shutdown_sequence (not (str_eq cfg.shutdown_action "pause")) ∷ []
          else [])
        ++ disconnect ∷ [],
  )
