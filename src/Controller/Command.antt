-- ===== src/Controller/Command.antt =====
-- src/rmpflow_controller_node.cpp: how the control loop makes a command: the acceleration from the solver,
-- its integration, the limits of the guard, and the velocity estimated from positions.
pub mod Guarded
use rmp_proximity_sensor.Common.{
  ℕ, Bool, true, false, not, ◌&&◌, ◌||◌, String, Option, none, some, List, [], ◌∷◌, ◌++◌, map,
  zip_with, if◌then◌else◌,
}
use rmp_proximity_sensor.Common.Floats.{
  Floats, max_of, clamp, zeros, plus, minus, scaled, divided, blended,
}
use rmp_proximity_sensor.Controller.{RobotState}
use rmp_proximity_sensor.Controller.Geometry.{Vector}
use rmp_proximity_sensor.Controller.Members.{
  ExternalRmpBuffer, LoopSettings, Members, Model, GoalTarget,
}

module _ {Double : Type 0} where
  -- The features for the solver: the buffers that have both parts.
  pub external_features :
      List (String × ExternalRmpBuffer Double) → List (String × (List (List Double) × List Double))
  external_features [] = []
  external_features ((key, buffer) ∷ buffers) =
      let rest = external_features buffers in
      if not buffer.has_metric || not buffer.has_acceleration
      then rest
      else (key, (buffer.metric_sqrt, buffer.acceleration)) ∷ rest

module _ {Double Time Orientation Rotation : Type 0} (floats : Floats Double Time)
    (model : Model Double Orientation Rotation) (settings : LoopSettings Double) where
  vector_targets : GoalTarget Double Orientation → List (String × Vector Double)
  vector_targets goal =
      let goal_rotation = model.axes (model.normalized goal.orientation) in
      ("goal", goal.position)
      ∷ ("body_goal", settings.body_goal)
      ∷ ("orientation_goal_x", goal_rotation.0)
      ∷ ("orientation_goal_y", goal_rotation.1.0)
      ∷ ("orientation_goal_z", goal_rotation.1.1)
      ∷ []

  clamp_accelerations : List Double → List Double
  clamp_accelerations qdd =
      map (λ a. clamp floats a (floats.neg settings.max_joint_accel) settings.max_joint_accel) qdd

  -- `none` is the solver's exception.
  unfoldable pub compute_acceleration :
      RobotState Double → Members Double Orientation → Option (List Double)
  unfolding external_features vector_targets clamp_accelerations
  compute_acceleration state m =
      elim (model.solve state (vector_targets m.goal_target) m.obstacles
        (external_features m.external_rmp_buffers)) [
          | none ↦ none
          | some qdd ↦ some (clamp_accelerations qdd)
        ]

  -- Each joint inside its limits.
  pub clamp_positions : List Double → List Double → List Double → List Double
  clamp_positions (q ∷ qs) (lower ∷ lowers) (upper ∷ uppers) =
      clamp floats q lower upper ∷ clamp_positions qs lowers uppers
  clamp_positions _ _ _ = []

  -- A joint that comes close to a limit and moves on towards it is slowed down.
  slow_at_limits : List Double → List Double → List Double → List Double → List Double
  slow_at_limits (q ∷ qs) (qd ∷ qds) (lower ∷ lowers) (upper ∷ uppers) =
      (if (floats.le q (floats.add lower floats.tenth) && floats.lt qd floats.zero_value)
          || (floats.le (floats.sub upper floats.tenth) q && floats.lt floats.zero_value qd)
        then floats.mul qd floats.half
        else qd)
      ∷ slow_at_limits qs qds lowers uppers
  slow_at_limits _ _ _ _ = []

  pub integrate_command : RobotState Double → List Double → Double → RobotState Double
  unfolding clamp_positions slow_at_limits
  integrate_command state qdd dt =
      let qd = plus floats state.qd (scaled floats dt qdd) in
      let q =
        clamp_positions (plus floats state.q (scaled floats dt qd)) model.joint_lower_limits
          model.joint_upper_limits in
      record { q = q; qd = slow_at_limits q qd model.joint_lower_limits model.joint_upper_limits }

  unfoldable pub reset_controller_velocity_estimator :
      Members Double Orientation → Members Double Orientation
  reset_controller_velocity_estimator m = record m {
    controller_velocity_estimator_initialized = false;
    controller_velocity_previous_q = zeros floats m.controller_velocity_previous_q;
    controller_velocity_estimate = zeros floats m.controller_velocity_estimate;
  }

  unfoldable pub estimate_controller_velocity :
      List Double → Double → Members Double Orientation → Members Double Orientation × List Double
  estimate_controller_velocity q dt m =
      if not m.controller_velocity_estimator_initialized || floats.le dt floats.epsilon
      then (
        record m {
          controller_velocity_previous_q = q;
          controller_velocity_estimate = zeros floats q;
          controller_velocity_estimator_initialized = true;
        },
        zeros floats q,
      )
      else (let raw_qd = divided floats (minus floats q m.controller_velocity_previous_q) dt in
          let estimate =
            blended floats settings.controller_velocity_filter_alpha raw_qd
              m.controller_velocity_estimate in
          (
            record m {
              controller_velocity_previous_q = q;
              controller_velocity_estimate = estimate;
            },
            estimate,
          ))

  -- One joint of the guard: its position and velocity, and whether one of them was limited.
  pub guard_joint : Double → Double → Double → Double → Bool × (Double × Double)
  guard_joint max_step_rad measured q qd =
      let delta = floats.sub q measured in
      let limited_delta = clamp floats delta (floats.neg max_step_rad) max_step_rad in
      let max_velocity = settings.command_guard_max_velocity_rad_s in
      let limited_velocity = clamp floats qd (floats.neg max_velocity) max_velocity in
      (
        floats.lt model.tiny (floats.fabs (floats.sub limited_delta delta))
            || floats.lt model.tiny (floats.fabs (floats.sub limited_velocity qd)),
        (floats.add measured limited_delta, limited_velocity),
      )

  pub guard_joints :
      Double → List Double → List Double → List Double → Bool × (List Double × List Double)
  unfolding guard_joint
  guard_joints max_step_rad (measured ∷ rest) (q ∷ qs) (qd ∷ qds) =
      let first = guard_joint max_step_rad measured q qd in
      let others = guard_joints max_step_rad rest qs qds in
      (first.0 || others.0, (first.1.0 ∷ others.1.0, first.1.1 ∷ others.1.1))
  guard_joints max_step_rad _ _ _ = (false, ([], []))

  unfoldable pub max_step : Double → Double
  max_step dt =
      max_of floats settings.command_guard_max_step_rad
        (floats.mul settings.command_guard_max_velocity_rad_s dt)

  -- Whether the command was limited, and the command.
  pub apply_command_guard :
      RobotState Double → RobotState Double → Double → Bool × RobotState Double
  unfolding guard_joints max_step
  apply_command_guard measured_state command_state dt =
      let guarded = guard_joints (max_step dt) measured_state.q command_state.q command_state.qd in
      (guarded.0, record { q = guarded.1.0; qd = guarded.1.1 })
