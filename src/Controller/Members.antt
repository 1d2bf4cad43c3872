-- ===== src/Controller/Members.antt =====
-- src/rmpflow_controller_node.cpp: the members of `RmpflowControllerNode` that the control loop and the
-- subscriptions share, its settings, and what it calls of other parts: the forward kinematics, the solver,
-- and the operations on orientations.
use rmp_proximity_sensor.Common.{ℕ, Bool, String, Option, List}
use rmp_proximity_sensor.Common.Words.{ℤ}
use rmp_proximity_sensor.Controller.{RobotState}
use rmp_proximity_sensor.Controller.Geometry.{Vector, Context, BodyObstacle, FloorLimits}

pub record GoalTarget (Double Orientation : Type 0) : Type 0 where
  pub position : Vector Double
  pub orientation : Orientation

pub record ObstacleSphere (Double : Type 0) : Type 0 where
  pub center : Vector Double
  pub radius : Double

-- A matrix is the list of its rows.
pub record ExternalRmpBuffer (Double : Type 0) : Type 0 where
  pub dim : ℕ
  pub metric_sqrt : List (List Double)
  pub acceleration : List Double
  pub has_metric : Bool
  pub has_acceleration : Bool

pub record LoopSettings (Double : Type 0) : Type 0 where
  pub initialize_goal_from_first_state : Bool
  pub rmp_flag_gate_enabled : Bool
  pub rmp_active_flag_value : ℤ
  pub min_goal_z : Double
  pub safety_stop_on_min_z : Bool
  pub floor_limits : FloorLimits Double
  pub body_obstacles_visual : List (BodyObstacle Double)
  pub body_goal : Vector Double
  pub period : Double
  pub estimate_velocity_in_controller : Bool
  pub measured_position_feedback_blend : Double
  pub measured_velocity_feedback_blend : Double
  pub use_velocity_feedback_in_solver : Bool
  pub controller_velocity_filter_alpha : Double
  pub max_joint_accel : Double
  pub command_guard_max_step_rad : Double
  pub command_guard_max_velocity_rad_s : Double
  pub publish_joint_states_enabled : Bool
  pub has_joint_state_pub : Bool
  pub has_direct_command_pub : Bool
  pub has_target_q_pub : Bool
  pub has_target_metric_pub : Bool
  pub has_rmp_eef_pose_pub : Bool

pub record Members (Double Orientation : Type 0) : Type 0 where
  pub rmp_active : Bool
  pub external_goal_received : Bool
  pub startup_goal_synced : Bool
  pub goal_target : GoalTarget Double Orientation
  pub obstacles : List (ObstacleSphere Double)
  pub proximity_sensor_obstacles : List (Option (ObstacleSphere Double))
  pub external_rmp_buffers : List (String × ExternalRmpBuffer Double)
  pub state : RobotState Double
  pub virtual_velocity_state : RobotState Double
  pub last_safe_command_state : RobotState Double
  pub controller_velocity_previous_q : List Double
  pub controller_velocity_estimate : List Double
  pub virtual_velocity_state_initialized : Bool
  pub last_safe_command_state_initialized : Bool
  pub controller_velocity_estimator_initialized : Bool
  pub last_min_z_safety_triggered : Bool
  pub visualization_cleared_for_inactive : Bool

-- Orientations and rotations are those of Eigen, `of_rotation` makes an orientation of a rotation and
-- `axes` are the columns of an orientation's matrix. `solve` throws where it is `none`. `tiny` is 1e-9.
pub record Model (Double Orientation Rotation : Type 0) : Type 0 where
  pub infinity : Double
  pub tiny : Double
  pub joint_lower_limits : List Double
  pub joint_upper_limits : List Double
  pub default_obstacle : ObstacleSphere Double
  pub identity_rotation : Rotation
  pub rotate : Rotation → Vector Double → Vector Double
  pub identity_orientation : Orientation
  pub all_finite : Orientation → Bool
  pub norm : Orientation → Double
  pub normalized : Orientation → Orientation
  pub of_rotation : Rotation → Orientation
  pub axes : Orientation → Vector Double × (Vector Double × Vector Double)
  pub forward_context : List Double → Context Double Rotation
  pub solve :
      RobotState Double
      → List (String × Vector Double)
      → List (ObstacleSphere Double)
      → List (String × (List (List Double) × List Double))
      → Option (List Double)

pub data Output (Double Orientation : Type 0) : Type 0 where
  joint_states : RobotState Double → Output Double Orientation
  direct_command : List Double → Output Double Orientation
  target_q : List Double → Output Double Orientation
  rmp_ee_pose : Vector Double → Orientation → Output Double Orientation
  target_metric : RobotState Double → Vector Double → Output Double Orientation
