-- ===== src/Controller/Direct/Startup.antt =====
-- src/rmpflow_controller_node.cpp: the constructor of `DirectRb10Backend`. The calls of the socket
-- client are listed; whether each of them succeeds is an input, and so are the states that the reader's
-- thread, which the opening of the sockets starts, hands over before the constructor ends.
pub mod Started
use rmp_proximity_sensor.Common.{
  ◌≡◌, refl, ◌∙◌, ap, ◌&&◌, ◌||◌, Bool, true, false, not, String, Option, none, some, List, [], ◌∷◌,
  arith, ◌==◌, length, if◌then◌else◌, replicate,
}
use rmp_proximity_sensor.Common.Floats.{Floats}
use rmp_proximity_sensor.Controller.Filter.{Settings, Filter, parse_filter_type}
use rmp_proximity_sensor.Controller.Filter
use rmp_proximity_sensor.Socket.{SystemState}
use rmp_proximity_sensor.Controller.Direct.{
  Config, Backend, command_blocked_by_robot_safety, exchange_blocked, clear_pending_servo_command,
  write_state, release_startup, on_state,
}
use rmp_proximity_sensor.Controller.Direct.Handler.{after, released, after-Handled}
use rmp_proximity_sensor.DirectBridge.Startup.{
  Call, Answers, open_sockets, initialize, close_sockets, movej, is_open,
}

-- The arguments that set the filter up.
pub record FilterArguments (Double : Type 0) : Type 0 where
  pub use_synced_input_velocity_filter : Bool
  pub data_request_rate_hz : Double
  pub control_rate_hz : Double
  pub synced_input_velocity_filter_alpha : Double
  pub synced_input_velocity_filter_beta : Double
  pub synced_input_velocity_filter_type : String
  pub synced_input_velocity_ratio_tolerance : Double

-- The arguments that the members below take over.
pub record Arguments (Double : Type 0) : Type 0 where
  pub initial_q : List Double
  pub simulation_mode : Bool
  pub real_joint_state_source : String
  pub publish_debug_joint_state_sources : Bool
  pub startup_move_to_default_pose : Bool
  pub startup_home_joints_deg : List Double
  pub startup_release_tolerance_deg : Double
  pub stop_on_shutdown : Bool
  pub shutdown_action : String
  pub filter : FilterArguments Double

-- The states that the reader's thread hands over while the constructor runs, newest first: from the
-- opening of the sockets to the filter, from there to the flag of the wait, from there to the deadline,
-- and after that. What they publish for debugging is left out.
pub record Arrivals (Time : Type 0) : Type 0 where
  pub opened : List (Time × SystemState)
  pub filtered : List (Time × SystemState)
  pub flagged : List (Time × SystemState)
  pub timed : List (Time × SystemState)

-- `fresh` is a filter's state before its first sample, `no_time` the start of the clock, and
-- `deadline` the time after the initialisation plus the timeout.
module _ {Double Time : Type 0} (floats : Floats Double Time) (fresh : Filter Double Time)
    (no_time : Time) where
  pub make_filter : FilterArguments Double → Option (Settings Double)
  make_filter a =
      if a.use_synced_input_velocity_filter
      then some (
          Filter.construct floats a.data_request_rate_hz a.control_rate_hz
            a.synced_input_velocity_filter_alpha a.synced_input_velocity_ratio_tolerance
            (parse_filter_type a.synced_input_velocity_filter_type)
            a.synced_input_velocity_filter_beta)
      else none

  make_config : Arguments Double → Config Double
  unfolding make_filter
  make_config a = record {
    simulation_mode = a.simulation_mode;
    real_joint_state_source = a.real_joint_state_source;
    publish_debug_joint_state_sources = a.publish_debug_joint_state_sources;
    startup_home_joints_deg = a.startup_home_joints_deg;
    startup_release_tolerance_deg = a.startup_release_tolerance_deg;
    stop_on_shutdown = a.stop_on_shutdown;
    shutdown_action = a.shutdown_action;
    synced_input_velocity_filter = make_filter a.filter;
  }

  initial : List Double → Backend Double Time
  initial initial_q = record {
    state_buffer = record { q = initial_q; qd = replicate 6 floats.zero_value };
    state_received = false;
    startup_waiting_for_home = false;
    startup_release_deadline = no_time;
    command_blocked_due_to_safety = false;
    latest_servo_joint_deg = replicate 6 floats.zero_value;
    servo_command_pending = false;
    servo_command_thread_running = true;
    filter = fresh;
  }

  -- The move to the home pose, if it is wanted, and the states that come in meanwhile.
  start_moving :
      Arguments Double
      → Time
      → Bool
      → Arrivals Time
      → Option (Config Double × Backend Double Time) × List (Call Double)
  unfolding make_config initial
  start_moving a deadline commanded arrivals =
      let cfg = make_config a in
      let bare = record cfg { synced_input_velocity_filter = none } in
      let b =
        after floats cfg (after floats bare (initial a.initial_q) arrivals.opened)
          arrivals.filtered in
      if not a.startup_move_to_default_pose
      then (some (cfg, after floats cfg (after floats cfg b arrivals.flagged) arrivals.timed), [])
      else (if not commanded
          then (none, movej a.startup_home_joints_deg ∷ close_sockets ∷ [])
          else (
            some (
              cfg,
              after floats cfg
                  (record (after floats cfg (record b { startup_waiting_for_home = true })
                    arrivals.flagged) { startup_release_deadline = deadline })
                  arrivals.timed,
            ),
            movej a.startup_home_joints_deg ∷ [],
          ))

  -- `none` is an exception.
  pub construct :
      Arguments Double
      → Time
      → Answers
      → Arrivals Time
      → Option (Config Double × Backend Double Time) × List (Call Double)
  unfolding start_moving
  construct a deadline answers arrivals =
      if not (length a.startup_home_joints_deg == 6)
      then (none, [])
      else (if not answers.connected
          then (none, open_sockets ∷ [])
          else (if not answers.initialized
              then (none, open_sockets ∷ initialize ∷ close_sockets ∷ [])
              else (let moving = start_moving a deadline answers.commanded arrivals in
                  (moving.0, open_sockets ∷ initialize ∷ moving.1))))
