-- ===== src/Controller/Tests.antt =====
-- src/rmpflow_controller_node.cpp: the theorems on the control loop and its handlers, at runs of a robot
-- with six joints that all move along one line; whole numbers stand for doubles.
use rmp_proximity_sensor.Common.{
  ◌>>=◌, ℕ, ◌≡◌, refl, inl, true, false, none, some, List, [], ◌∷◌, arith, ltb, leb, String,
  replicate, get_elem?,
}
use rmp_proximity_sensor.Common.Floats.{Floats}
use rmp_proximity_sensor.Common.Floats.Whole.{floats}
use rmp_proximity_sensor.Common.Words.{pos}
use rmp_proximity_sensor.Controller.{RobotState}
use rmp_proximity_sensor.Controller.Backends.{simulation}
use rmp_proximity_sensor.Controller.Geometry.{
  Vector, Context, BodyObstacle, FloorLimits, below_limits,
}
use rmp_proximity_sensor.Controller.Geometry.Floor.{IsOrder, too_low, below_limits-too_low}
use rmp_proximity_sensor.Controller.Geometry.Known.{IsFull}
use rmp_proximity_sensor.Controller.Members.{LoopSettings, Members, Model}
use rmp_proximity_sensor.Controller.Handlers.{Marker, on_obstacles}
use rmp_proximity_sensor.Controller.Handlers.Sensors.{added, last_for, on_obstacles-added}
use rmp_proximity_sensor.Controller.Loop.{After, control_round}
use rmp_proximity_sensor.Controller.Loop.Gate.{
  Event, rmp_flag, tick, after, control_round-held_back,
}

abbrev at_height : ℕ → Vector ℕ
at_height h = record { x = 0; y = 0; z = h }

-- All points of the robot are at the height of the first joint.
abbrev context_at : List ℕ → Context ℕ ℕ
context_at [] = record {
  link_positions = replicate 12 (at_height 0);
  link_rotations = replicate 12 0;
  joint_origins = [];
  control_points = [];
  tcp_position = at_height 0;
}
context_at (h ∷ q) = record {
  link_positions = replicate 12 (at_height h);
  link_rotations = replicate 12 0;
  joint_origins = replicate 6 (at_height h);
  control_points = (at_height h, 1) ∷ [];
  tcp_position = at_height h;
}

abbrev ball : BodyObstacle ℕ
ball = record {
  type_name = "ball";
  link_name = "";
  mins = at_height 0;
  maxs = at_height 0;
  center = at_height 9;
  radius = 1;
}

abbrev limits : FloorLimits ℕ
limits = record { workspace_floor_z = 3; min_link6_z = 3; min_tcp_z = 3 }

-- The larger a number, the lower it lies, so that nothing lies above zero.
abbrev depths : Floats ℕ ℕ
depths = record floats { lt = λ a b. ltb b a; le = λ a b. leb b a }

depths-IsOrder : IsOrder depths
depths-IsOrder = record {
  lt_trans = λ a b c h k. ground arith;
  lt_of_not_lt = λ a b c h k. ground arith;
}

below_limits-too_low_example :
    below_limits depths 0 0 (λ r v. v) limits (ball ∷ []) (context_at (replicate 6 2))
    ≡ too_low depths 0 0 (λ r v. v) limits (ball ∷ []) (context_at (replicate 6 2))
below_limits-too_low_example =
    below_limits-too_low depths 0 0 (λ r v. v) depths-IsOrder (λ z. ground arith) limits (ball ∷ [])
      (context_at (replicate 6 2))

abbrev model : Model ℕ ℕ ℕ
model = record {
  infinity = 1000;
  tiny = 0;
  joint_lower_limits = replicate 6 0;
  joint_upper_limits = replicate 6 100;
  default_obstacle = record { center = at_height 100; radius = 1 };
  identity_rotation = 0;
  rotate = λ r v. v;
  identity_orientation = 0;
  all_finite = λ o. true;
  norm = λ o. 1;
  normalized = λ o. o;
  of_rotation = λ r. r;
  axes = λ o. (at_height 1, (at_height 1, at_height 1));
  forward_context = context_at;
  solve = λ state targets obstacles features. some (replicate 6 1);
}

abbrev settings : LoopSettings ℕ
settings = record {
  initialize_goal_from_first_state = true;
  rmp_flag_gate_enabled = true;
  rmp_active_flag_value = pos 1;
  min_goal_z = 1;
  safety_stop_on_min_z = true;
  floor_limits = limits;
  body_obstacles_visual = ball ∷ [];
  body_goal = at_height 5;
  period = 1;
  estimate_velocity_in_controller = false;
  measured_position_feedback_blend = 1;
  measured_velocity_feedback_blend = 1;
  use_velocity_feedback_in_solver = true;
  controller_velocity_filter_alpha = 1;
  max_joint_accel = 5;
  command_guard_max_step_rad = 2;
  command_guard_max_velocity_rad_s = 2;
  publish_joint_states_enabled = true;
  has_joint_state_pub = true;
  has_direct_command_pub = false;
  has_target_q_pub = true;
  has_target_metric_pub = false;
  has_rmp_eef_pose_pub = false;
}

abbrev at_rest : ℕ → RobotState ℕ
at_rest h = record { q = replicate 6 h; qd = replicate 6 0 }

abbrev start : Members ℕ ℕ
start = record {
  rmp_active = false;
  external_goal_received = false;
  startup_goal_synced = false;
  goal_target = record { position = at_height 5; orientation = 0 };
  obstacles = [];
  proximity_sensor_obstacles = replicate 20 none;
  external_rmp_buffers = [];
  state = at_rest 0;
  virtual_velocity_state = at_rest 0;
  last_safe_command_state = at_rest 0;
  controller_velocity_previous_q = replicate 6 0;
  controller_velocity_estimate = replicate 6 0;
  virtual_velocity_state_initialized = false;
  last_safe_command_state_initialized = false;
  controller_velocity_estimator_initialized = false;
  last_min_z_safety_triggered = false;
  visualization_cleared_for_inactive = false;
}

abbrev marker_for : String → ℕ → Marker ℕ
marker_for text h = record {
  ns = "proximity_obstacles";
  text = text;
  is_add = true;
  position = at_height h;
  scale_x = 2;
}

abbrev two_markers : List (Marker ℕ)
two_markers = marker_for "tof_S" 7 ∷ marker_for "tof_S" 8 ∷ []

on_obstacles-added_example :
    ((on_obstacles floats model settings two_markers start).obstacles
      ≡ elim (added floats model settings two_markers) [
        | [] ↦ model.default_obstacle ∷ []
        | first ∷ rest ↦ first ∷ rest
      ])
    × (get_elem? (on_obstacles floats model settings two_markers start).proximity_sensor_obstacles 4
        ≡ some (last_for floats model settings 4 two_markers none))
on_obstacles-added_example =
    on_obstacles-added floats model settings two_markers start 4 (omega arith)

all-IsFull : (q : List ℕ) → IsFull (context_at q)
all-IsFull [] = record { positions_full = refl; rotations_full = refl }
all-IsFull (h ∷ q) = record { positions_full = refl; rotations_full = refl }

abbrev running : Members ℕ ℕ
running = record start { rmp_active = true; external_goal_received = true }

-- The flag has come, a goal has not.
abbrev only_flag : List (Event ℕ ℕ (RobotState ℕ))
only_flag = tick (at_rest 4) ∷ rmp_flag 1 ∷ []

control_round-held_back_example :
    (a : After ℕ ℕ (RobotState ℕ) (List ℕ)) × ((after floats model settings simulation start
          only_flag
        >>= λ m. control_round floats model settings simulation m (at_rest 4))
      ≡ some a)
    × (a.messages ≡ [])
    × (a.backend_state ≡ at_rest 4)
control_round-held_back_example =
    control_round-held_back floats model settings simulation (inl refl, tt) all-IsFull start
      only_flag (at_rest 4) refl refl
