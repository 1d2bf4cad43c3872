-- ===== src/Controller/Direct/Tests.antt =====
-- src/rmpflow_controller_node.cpp: the theorems on `DirectRb10Backend` at a stop that comes in while the
-- control loop is about to queue a command; whole numbers stand for doubles and for times.
use rmp_proximity_sensor.Common.{
  ℕ, ◌≡◌, ◌≤◌, refl, true, false, none, some, List, [], ◌∷◌, ◌++◌, replicate, length,
}
use rmp_proximity_sensor.Common.Floats.Whole.{floats}
use rmp_proximity_sensor.Common.Words.{ℤ, pos}
use rmp_proximity_sensor.Socket.{SystemState}
use rmp_proximity_sensor.Controller.{RobotState}
use rmp_proximity_sensor.Controller.Filter.{Filter}
use rmp_proximity_sensor.Controller.Direct.{
  Config, Backend, ready, queue_servo_command, clear_pending_servo_command, check_command,
  take_servo_command, exchange_blocked, write_state, command_blocked_by_robot_safety,
  filter_velocity, position_of, select_joint_source_deg, home_reached, within_tolerance,
}
use rmp_proximity_sensor.Controller.Direct.Handler.{after, check_command-after}
use rmp_proximity_sensor.Controller.Direct.Startup.{Arguments, Arrivals}
use rmp_proximity_sensor.Controller.Direct.Startup.Started.{Started}
use rmp_proximity_sensor.Controller.Direct.Threads.{
  Machine, Label, accepted, sent, stop_is, silent, check, queue, write, exchange, clear, take, send,
  Run, here, next, all_sent, all_accepted, on_their_way, kept,
}
use rmp_proximity_sensor.Controller.Direct.Threads.InOrder.{Run-within}
use rmp_proximity_sensor.Controller.Direct.Threads.Bounded.{stopped-at_most_two}
use mathlib.Core.List.{Sublistᴰ}
use rmp_proximity_sensor.DirectBridge.Startup.{Answers}

abbrev cfg : Config ℕ
cfg = record {
  simulation_mode = false;
  real_joint_state_source = "measured";
  publish_debug_joint_state_sources = true;
  startup_home_joints_deg = replicate 6 10;
  startup_release_tolerance_deg = 2;
  stop_on_shutdown = true;
  shutdown_action = "halt";
  synced_input_velocity_filter = none;
}

abbrev fresh : Filter ℕ ℕ
fresh = record {
  alpha_beta_initialized = false;
  alpha_beta_position = replicate 6 0;
  initialized = false;
  output_initialized = false;
  accumulated_samples = 0;
  previous_position = replicate 6 0;
  accumulated_velocity = replicate 6 0;
  filtered_velocity = replicate 6 0;
  previous_time = 0;
  accumulated_time_sec = 0;
}

abbrev start : Backend ℕ ℕ
start = record {
  state_buffer = record { q = replicate 6 0; qd = replicate 6 0 };
  state_received = false;
  startup_waiting_for_home = true;
  startup_release_deadline = 6;
  command_blocked_due_to_safety = false;
  latest_servo_joint_deg = replicate 6 0;
  servo_command_pending = false;
  servo_command_thread_running = true;
  filter = fresh;
}

-- A state with all joints at an angle, and the emergency stop or not.
abbrev at_angle : ℕ → ℤ → SystemState
at_angle angle ems = record {
  controller_time_sec = 0;
  joint_ref_deg = replicate 6 angle;
  joint_ang_deg = replicate 6 angle;
  robot_state = pos 1;
  power_state = pos 1;
  program_mode = pos 0;
  collision_detect_onoff = pos 0;
  init_state_info = pos 6;
  init_error = pos 0;
  op_stat_collision_occur = pos 0;
  op_stat_sos_flag = pos 0;
  op_stat_self_collision = pos 0;
  op_stat_soft_estop_occur = pos 0;
  op_stat_ems_flag = ems;
}

abbrev to_five : RobotState ℕ
to_five = record { q = replicate 6 5; qd = replicate 6 0 }

-- Newest first: at home, on the way.
abbrev homed : List (ℕ × SystemState)
homed = (2, at_angle 11 (pos 0)) ∷ (1, at_angle 30 (pos 0)) ∷ []

check_command-after_example :
    check_command floats true to_five (after floats cfg start homed) ≡ some (replicate 6 5)
unfolding command_blocked_by_robot_safety home_reached within_tolerance
check_command-after_example = check_command-after floats cfg start true to_five homed refl

abbrev arguments : Arguments ℕ
arguments = record {
  initial_q = replicate 6 0;
  simulation_mode = false;
  real_joint_state_source = "measured";
  publish_debug_joint_state_sources = true;
  startup_move_to_default_pose = true;
  startup_home_joints_deg = replicate 6 10;
  startup_release_tolerance_deg = 2;
  stop_on_shutdown = true;
  shutdown_action = "halt";
  filter = record {
    use_synced_input_velocity_filter = false;
    data_request_rate_hz = 500;
    control_rate_hz = 100;
    synced_input_velocity_filter_alpha = 1;
    synced_input_velocity_filter_beta = 0;
    synced_input_velocity_filter_type = "alpha-beta";
    synced_input_velocity_ratio_tolerance = 0;
  };
}

-- States while the sockets are set up, on the way home, and at home.
abbrev arrivals : Arrivals ℕ
arrivals = record {
  opened = (1, at_angle 30 (pos 1)) ∷ [];
  filtered = [];
  flagged = [];
  timed = (3, at_angle 11 (pos 0)) ∷ (2, at_angle 30 (pos 0)) ∷ [];
}

abbrev succeeding : Answers
succeeding = record { connected = true; initialized = true; commanded = true }

-- A backend in use, and the same one after a state that calls for a stop.
abbrev in_use : Backend ℕ ℕ
in_use = record start { state_received = true; startup_waiting_for_home = false }

abbrev stopped : Backend ℕ ℕ
stopped = record in_use {
  state_buffer = record { q = replicate 6 11; qd = replicate 6 0 };
  command_blocked_due_to_safety = true;
  latest_servo_joint_deg = replicate 6 5;
}

abbrev idle : Backend ℕ ℕ → Machine ℕ ℕ
idle b = record { backend = b; checked = none; clearing = false; in_flight = none }

-- A command is sent after the stop has been noted and the queue has been cleared.
abbrev late_command : List (Label ℕ)
late_command =
    accepted (replicate 6 5)
    ∷ silent
    ∷ stop_is true
    ∷ silent
    ∷ silent
    ∷ silent
    ∷ sent (replicate 6 5)
    ∷ []

late_command-Run : Run floats cfg (idle in_use) late_command (idle stopped)
unfolding ready check_command write_state exchange_blocked command_blocked_by_robot_safety
    filter_velocity position_of select_joint_source_deg queue_servo_command
    clear_pending_servo_command take_servo_command
late_command-Run = next (check _ true to_five (replicate 6 5) refl refl) (
    next (write _ 7 (at_angle 11 (pos 1)) refl) (
      next (exchange _ (at_angle 11 (pos 1)) refl) (
        next (clear _ refl) (
          next (queue _ (replicate 6 5) refl) (
            next (take _ (replicate 6 5) _ refl refl) (next (send _ (replicate 6 5) refl) here))))))

Run-within_example :
    Sublistᴰ
      (all_sent late_command ++ on_their_way (idle stopped))
      (on_their_way (idle in_use) ++ all_accepted late_command)
Run-within_example = Run-within floats cfg late_command-Run

-- Two commands are on their way past the queue.
abbrev two_left : Machine ℕ ℕ
two_left = record {
  backend = stopped;
  checked = some (replicate 6 6);
  clearing = false;
  in_flight = some (replicate 6 5);
}

abbrev both_sent : List (Label ℕ)
both_sent = sent (replicate 6 5) ∷ silent ∷ silent ∷ sent (replicate 6 6) ∷ []

abbrev after_both : Machine ℕ ℕ
after_both = idle (record stopped { latest_servo_joint_deg = replicate 6 6 })

both_sent-Run : Run floats cfg two_left both_sent after_both
unfolding queue_servo_command take_servo_command
both_sent-Run = next (send _ (replicate 6 5) refl) (
    next (queue _ (replicate 6 6) refl)
      (next (take _ (replicate 6 6) _ refl refl) (next (send _ (replicate 6 6) refl) here)))

stopped-at_most_two_example :
    Sublistᴰ (all_sent both_sent) (kept two_left.in_flight ++ kept two_left.checked)
    × (length (all_sent both_sent) ≤ 2)
stopped-at_most_two_example =
    stopped-at_most_two floats cfg two_left after_both both_sent both_sent-Run tt refl refl
