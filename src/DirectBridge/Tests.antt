-- ===== src/DirectBridge/Tests.antt =====
-- src/rb10_direct_bridge_node.cpp: the theorems at a run that waits for home, moves and is stopped;
-- numbers stand for doubles, and a time is a number of seconds.
use rmp_proximity_sensor.Common.{ℕ, ◌≡◌, true, false, List, [], ◌∷◌, replicate}
use rmp_proximity_sensor.Common.Words.{ℤ, pos}
use rmp_proximity_sensor.Socket.{SystemState}
use rmp_proximity_sensor.Common.Floats.Whole.{floats}
use rmp_proximity_sensor.DirectBridge.{
  Config, Event, set_waiting, set_deadline, command, state, shutdown, initial, within_tolerance,
  home_reached, is_released, command_blocked_by_robot_safety, step, after, outputs,
}
use rmp_proximity_sensor.DirectBridge.Gate.{
  joint_states, disconnects, step-command, step-joint_states, outputs-disconnects,
}
use rmp_proximity_sensor.DirectBridge.Velocity.{Estimator}
use rmp_proximity_sensor.DirectBridge.Startup.{Answers, Arrivals}

abbrev cfg : Config ℕ
cfg = record {
  simulation_mode = false;
  real_joint_state_source = "measured";
  publish_debug_joint_state_sources = true;
  startup_home_joints_deg = replicate 6 10;
  startup_release_tolerance_deg = 2;
  stop_on_shutdown = true;
  shutdown_action = "halt";
  gains = record { use_velocity_filter = true; alpha = 1; beta = 1; fallback_dt_sec = 1 };
}

abbrev fresh : Estimator ℕ ℕ
fresh = record { initialized = false; position = []; velocity = []; previous_time = 0 }

-- A state with all joints at an angle, and the emergency stop or not.
abbrev at_angle : ℕ → ℤ → SystemState
at_angle angle ems = record {
  controller_time_sec = 0;
  joint_ref_deg = replicate 6 angle;
  joint_ang_deg = replicate 6 angle;
  robot_state = pos 1;
  power_state = pos 1;
  program_mode = pos 0;
  collision_detect_onoff = pos 0;
  init_state_info = pos 6;
  init_error = pos 0;
  op_stat_collision_occur = pos 0;
  op_stat_sos_flag = pos 0;
  op_stat_self_collision = pos 0;
  op_stat_soft_estop_occur = pos 0;
  op_stat_ems_flag = ems;
}

-- Newest first: the constructor begins to wait for home, the robot is on the way, at home, stopped.
abbrev stopped : List (Event ℕ ℕ)
stopped =
    state true 3 (at_angle 11 (pos 1))
    ∷ state true 2 (at_angle 11 (pos 0))
    ∷ state true 1 (at_angle 30 (pos 0))
    ∷ set_deadline 6
    ∷ set_waiting
    ∷ []

step-command_example :
    (step floats cfg (after floats cfg (initial 0 fresh) stopped) (command true (replicate 6 12))).1
    ≡ []
unfolding command_blocked_by_robot_safety
step-command_example = step-command floats cfg 0 fresh stopped true (replicate 6 12)

step-joint_states_example :
    joint_states
      (step floats cfg
        (after floats cfg (initial 0 fresh) stopped)
        (state true 4 (at_angle 40 (pos 0)))).1
    ≡ 1
unfolding is_released home_reached within_tolerance
step-joint_states_example =
    step-joint_states floats cfg 0 fresh stopped true 4 (at_angle 40 (pos 0))

outputs-disconnects_example :
    disconnects (outputs floats cfg (initial 0 fresh) (shutdown true ∷ shutdown true ∷ stopped)) ≡ 1
outputs-disconnects_example =
    outputs-disconnects floats cfg 0 fresh (shutdown true ∷ shutdown true ∷ stopped)

-- A stop while the sockets are set up, and a state far from home between the flag and the deadline.
abbrev arrivals : Arrivals ℕ
arrivals = record {
  opened = (true, (1, at_angle 30 (pos 1))) ∷ [];
  flagged = (true, (2, at_angle 30 (pos 0))) ∷ [];
  timed = [];
}

abbrev succeeding : Answers
succeeding = record { connected = true; initialized = true; commanded = true }
