-- ===== src/DirectBridge.antt =====
-- src/rb10_direct_bridge_node.cpp: the node that sends joint commands to the controller box and
-- publishes the joint states that come back. The socket client is the one of Socket: here a call of
-- it is an output, and what it reports is an input. Operations on a `double` and on the clock are a
-- parameter, an array of six numbers is a list; log lines are left out. A command that has passed the
-- checks is taken to be sent before the next state comes in.
pub mod Velocity
pub mod Gate
pub mod Startup
mod Tests
use rmp_proximity_sensor.Common.{
  ℕ, Bool, true, false, not, ◌&&◌, ◌||◌, String, Option, none, some, List, [], ◌∷◌, ◌++◌, ltb, ◌==◌,
  map, zip_with, length, take, if◌then◌else◌, str_eq,
}
use rmp_proximity_sensor.Common.Floats.{Floats}
use rmp_proximity_sensor.Common.Words.{ℤ, pos, negsuc}
use rmp_proximity_sensor.Socket.{SystemState}
use rmp_proximity_sensor.DirectBridge.Velocity.{
  Estimator, Gains, reset_velocity_estimator, estimate_velocity,
}

pub record Config (Double : Type 0) : Type 0 where
  pub simulation_mode : Bool
  pub real_joint_state_source : String
  pub publish_debug_joint_state_sources : Bool
  pub startup_home_joints_deg : List Double
  pub startup_release_tolerance_deg : Double
  pub stop_on_shutdown : Bool
  pub shutdown_action : String
  pub gains : Gains Double

pub record Bridge (Double Time : Type 0) : Type 0 where
  pub command_blocked_due_to_safety : Bool
  pub startup_waiting_for_home : Bool
  pub startup_release_deadline : Time
  pub shutdown_started : Bool
  pub estimator : Estimator Double Time

pub data Output (Double : Type 0) : Type 0 where
  servoj : List Double → Output Double
  joint_state : List Double → List Double → Output Double
  debug_joint_states : List Double → List Double → List Double → Output Double
  shutdown_sequence : Bool → Output Double
  disconnect : Output Double

-- A command comes in while the client is connected or not; a state comes in at a time, while
-- `rclcpp::ok()` holds or not. The constructor, which runs beside the reader's thread, sets the flag
-- and then the deadline of the wait for home.
pub data Event (Double Time : Type 0) : Type 0 where
  set_waiting : Event Double Time
  set_deadline : Time → Event Double Time
  command : Bool → List Double → Event Double Time
  state : Bool → Time → SystemState → Event Double Time
  shutdown : Bool → Event Double Time

abbrev pub is_set : ℤ → Bool
is_set (pos n) = not (n == 0)
is_set (negsuc n) = true

pub command_blocked_by_robot_safety : SystemState → Bool
command_blocked_by_robot_safety s =
    is_set s.op_stat_soft_estop_occur
    || (is_set s.op_stat_ems_flag
        || (is_set s.op_stat_collision_occur
            || (is_set s.op_stat_self_collision || is_set s.op_stat_sos_flag)))

module _ {Double Time : Type 0} where
  -- The members as they are initialised; `no_time` is the start of the clock.
  pub initial : Time → Estimator Double Time → Bridge Double Time
  initial no_time estimator = record {
    command_blocked_due_to_safety = false;
    startup_waiting_for_home = false;
    startup_release_deadline = no_time;
    shutdown_started = false;
    estimator = estimator;
  }

module _ {Double Time : Type 0} (floats : Floats Double Time) (cfg : Config Double) where
  select_joint_source_deg : SystemState → List ℕ
  select_joint_source_deg s =
      if cfg.simulation_mode
      then s.joint_ref_deg
      else (if str_eq cfg.real_joint_state_source "reference"
          then s.joint_ref_deg
          else s.joint_ang_deg)

  radians : List ℕ → List Double
  radians joint_deg = map (λ w. floats.degrees_to_radians (floats.of_float w)) joint_deg

  within_tolerance : List ℕ → List Double → Bool
  within_tolerance (a ∷ angles) (h ∷ home) =
      not (
        floats.lt cfg.startup_release_tolerance_deg
          (floats.fabs (floats.sub (floats.of_float a) h)))
      && within_tolerance angles home
  within_tolerance _ _ = true

  pub home_reached : SystemState → Bool
  unfolding within_tolerance
  home_reached s =
      within_tolerance (if cfg.simulation_mode then s.joint_ref_deg else s.joint_ang_deg)
        cfg.startup_home_joints_deg

  command_callback : Bool → List Double → Bridge Double Time → List (Output Double)
  command_callback connected msg_data b =
      if not connected
      then []
      else (if b.command_blocked_due_to_safety
          then []
          else (if ltb (length msg_data) 6
              then []
              else servoj (map floats.radians_to_degrees (take 6 msg_data)) ∷ []))

  debug_outputs : SystemState → List (Output Double)
  unfolding radians
  debug_outputs s =
      let reference = radians s.joint_ref_deg in
      let measured = radians s.joint_ang_deg in
      if cfg.publish_debug_joint_state_sources
      then debug_joint_states reference measured
          (zip_with (λ r m. floats.radians_to_degrees (floats.sub r m)) reference measured)
        ∷ []
      else []

  -- The end of `handle_robot_state`, where the joint state goes out.
  publish_joint_state :
      Time → SystemState → Bridge Double Time → Bridge Double Time × List (Output Double)
  unfolding select_joint_source_deg radians debug_outputs
  publish_joint_state now s b =
      let position = radians (select_joint_source_deg s) in
      let (estimator, velocity) = estimate_velocity floats cfg.gains position now b.estimator in
      (record b { estimator = estimator }, joint_state position velocity ∷ debug_outputs s)

  -- Home, or too late for it.
  pub is_released : Time → SystemState → Time → Bool
  is_released now s deadline = home_reached s || floats.at_or_after now deadline

  handle_robot_state :
      Bool → Time → SystemState → Bridge Double Time → Bridge Double Time × List (Output Double)
  unfolding publish_joint_state select_joint_source_deg radians is_released
  handle_robot_state ok now s b =
      let position = radians (select_joint_source_deg s) in
      if not ok
      then (b, [])
      else (let noted = record b {
        command_blocked_due_to_safety = command_blocked_by_robot_safety s;
      } in
          if noted.startup_waiting_for_home
          then (if is_released now s noted.startup_release_deadline
              then publish_joint_state now s (record noted {
                startup_waiting_for_home = false;
                estimator = reset_velocity_estimator floats cfg.gains position now noted.estimator;
              })
              else (noted, []))
          else publish_joint_state now s noted)

  shutdown_bridge : Bool → Bridge Double Time → Bridge Double Time × List (Output Double)
  shutdown_bridge connected b = if b.shutdown_started then (b, []) else (
    record b { shutdown_started = true },
    (if cfg.stop_on_shutdown && connected
          then shutdown_sequence (not (str_eq cfg.shutdown_action "pause")) ∷ []
          else [])
        ++ disconnect ∷ [],
  )

  pub step : Bridge Double Time → Event Double Time → Bridge Double Time × List (Output Double)
  unfolding command_callback handle_robot_state shutdown_bridge
  step b set_waiting = (record b { startup_waiting_for_home = true }, [])
  step b (set_deadline deadline) = (record b { startup_release_deadline = deadline }, [])
  step b (command connected msg_data) = (b, command_callback connected msg_data b)
  step b (state ok now s) = handle_robot_state ok now s b
  step b (shutdown connected) = shutdown_bridge connected b

  -- The node's state after a history, which lists the newest call first.
  pub after : Bridge Double Time → List (Event Double Time) → Bridge Double Time
  after b [] = b
  after b (e ∷ older) = (step (after b older) e).0

  -- All outputs of a history, those of the newest call first.
  pub outputs : Bridge Double Time → List (Event Double Time) → List (Output Double)
  outputs b [] = []
  outputs b (e ∷ older) = (step (after b older) e).1 ++ outputs b older
