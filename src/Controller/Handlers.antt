-- ===== src/Controller/Handlers.antt =====
-- src/rmpflow_controller_node.cpp: what the subscriptions of `RmpflowControllerNode` do with its members.
pub mod Sensors
use rmp_proximity_sensor.Common.{
  ℕ, zero, suc, ◌+◌, ◌*◌, Bool, true, false, not, ◌||◌, ◌==◌, String, Option, none, some, List, [],
  ◌∷◌, ◌++◌, take, drop, length, replicate, if◌then◌else◌, str_eq,
}
use rmp_proximity_sensor.Common.Floats.{Floats, max_of}
use rmp_proximity_sensor.Common.Words.{ℤ, pos, negsuc}
use rmp_proximity_sensor.Controller.{RobotState}
use rmp_proximity_sensor.Controller.Geometry.{Vector}
use rmp_proximity_sensor.Controller.Members.{
  GoalTarget, ObstacleSphere, ExternalRmpBuffer, LoopSettings, Members, Model,
}

pub record Marker (Double : Type 0) : Type 0 where
  pub ns : String
  pub text : String
  pub is_add : Bool
  pub position : Vector Double
  pub scale_x : Double

-- `static_cast<int>(msg->data) == rmp_active_flag_value_`
abbrev pub is_active_flag : ℕ → ℤ → Bool
is_active_flag data_value (pos n) = data_value == n
is_active_flag data_value (negsuc n) = false

-- The names of `RB10Model::sensor_control_points`
abbrev pub sensor_frames : List String
sensor_frames =
    "tof6_1_L" ∷ "tof6_1_F" ∷ "tof6_1_R" ∷ "tof6_1_U" ∷ "tof_S" ∷ "tof_E" ∷ "tof_N" ∷ "tof_W"
    ∷ "tof3_1_S" ∷ "tof3_1_W" ∷ "tof3_1_N" ∷ "tof3_1_E" ∷ "tof2_1_E" ∷ "tof2_1_S" ∷ "tof2_1_W"
    ∷ "tof2_1_N" ∷ "tof2_E" ∷ "tof2_S" ∷ "tof2_W" ∷ "tof2_N" ∷ []

-- The index, from `index` on, of the first frame with this name.
pub frame_from : ℕ → String → List String → Option ℕ
frame_from index text [] = none
frame_from index text (f ∷ frames) =
    let later = frame_from (index + 1) text frames in if str_eq text f then some index else later

pub proximity_marker_control_point_index : {Double : Type 0} → Marker Double → Option ℕ
unfolding frame_from
proximity_marker_control_point_index marker =
    if not (str_eq marker.ns "proximity_obstacles")
    then none
    else (if not (str_eq marker.text "") then frame_from 0 marker.text sensor_frames else none)

-- `values[index] = x`
pub assign_at : {A : Type 0} → ℕ → A → List A → List A
assign_at index x [] = []
assign_at zero x (y ∷ values) = x ∷ values
assign_at (suc index) x (y ∷ values) = y ∷ assign_at index x values

-- The buffer of a key is changed.
pub update_buffer :
    {Double : Type 0}
    → String
    → (ExternalRmpBuffer Double → ExternalRmpBuffer Double)
    → List (String × ExternalRmpBuffer Double)
    → List (String × ExternalRmpBuffer Double)
update_buffer key f [] = []
update_buffer key f ((k, buffer) ∷ buffers) =
    let rest = update_buffer key f buffers in
    if str_eq k key then (k, f buffer) ∷ buffers else (k, buffer) ∷ rest

module _ {Double Orientation : Type 0} (settings : LoopSettings Double) where
  unfoldable pub on_rmp_flag : ℕ → Members Double Orientation → Members Double Orientation
  on_rmp_flag data_value m =
      let requested_active = is_active_flag data_value settings.rmp_active_flag_value in
      let stored = record m { rmp_active = requested_active } in
      if not requested_active
      then record stored {
        virtual_velocity_state_initialized = false;
        last_safe_command_state_initialized = false;
        last_min_z_safety_triggered = false;
        visualization_cleared_for_inactive = false;
      }
      else stored

module _ {Double Time Orientation Rotation : Type 0} (floats : Floats Double Time)
    (model : Model Double Orientation Rotation) (settings : LoopSettings Double) where
  goal_position : Vector Double → Vector Double
  goal_position p = record p { z = max_of floats p.z settings.min_goal_z }

  -- A goal from outside takes the place of the goal.
  abbrev store_goal :
      GoalTarget Double Orientation → Members Double Orientation → Members Double Orientation
  store_goal next_goal m = record m {
    goal_target = next_goal;
    external_goal_received = true;
    startup_goal_synced = true;
  }

  -- The orientation stays as it was.
  unfoldable pub on_goal : Vector Double → Members Double Orientation → Members Double Orientation
  unfolding goal_position
  on_goal point m = store_goal (record m.goal_target { position = goal_position point }) m

  unfoldable pub on_goal_pose :
      Vector Double → Orientation → Members Double Orientation → Members Double Orientation
  unfolding goal_position
  on_goal_pose point goal_orientation m =
      let orientation =
        if not (model.all_finite goal_orientation)
          || floats.lt (model.norm goal_orientation) model.tiny
        then model.identity_orientation
        else model.normalized goal_orientation in
      store_goal (record { position = goal_position point; orientation = orientation }) m

  sphere_of : Marker Double → ObstacleSphere Double
  sphere_of marker = record {
    center = marker.position;
    radius = floats.mul marker.scale_x floats.half;
  }

  -- The loop over the markers: the obstacles, and the obstacle of each sensor.
  pub collect :
      List (Marker Double)
      → List (ObstacleSphere Double) × List (Option (ObstacleSphere Double))
      → List (ObstacleSphere Double) × List (Option (ObstacleSphere Double))
  unfolding assign_at sphere_of
  collect [] so_far = so_far
  collect (marker ∷ markers) so_far =
      if not marker.is_add
      then collect markers so_far
      else collect markers (
        so_far.0 ++ sphere_of marker ∷ [],
        elim (proximity_marker_control_point_index marker) [
          | none ↦ so_far.1
          | some index ↦ assign_at index (some (sphere_of marker)) so_far.1
        ],
      )

  unfoldable pub on_obstacles :
      List (Marker Double) → Members Double Orientation → Members Double Orientation
  unfolding collect
  on_obstacles markers m =
      let collected = collect markers ([], replicate 20 none) in
      record m {
        obstacles = elim collected.0 [
          | [] ↦ model.default_obstacle ∷ []
          | first ∷ rest ↦ first ∷ rest
        ];
        proximity_sensor_obstacles = collected.1;
      }

-- Rows of `dim` numbers.
pub rows : {Double : Type 0} → ℕ → ℕ → List Double → List (List Double)
rows dim zero values = []
rows dim (suc count) values = take dim values ∷ rows dim count (drop dim values)

module _ {Double Orientation : Type 0} where
  unfoldable pub on_metric_sqrt :
      String → ℕ → List Double → Members Double Orientation → Members Double Orientation
  unfolding update_buffer rows
  on_metric_sqrt key dim values m = if not (length values == dim * dim) then m else record m {
    external_rmp_buffers =
        update_buffer key
          (λ buffer. record buffer { metric_sqrt = rows dim dim values; has_metric = true })
          m.external_rmp_buffers;
  }

  unfoldable pub on_acceleration :
      String → ℕ → List Double → Members Double Orientation → Members Double Orientation
  unfolding update_buffer
  on_acceleration key dim values m = if not (length values == dim) then m else record m {
    external_rmp_buffers =
        update_buffer key
          (λ buffer. record buffer { acceleration = values; has_acceleration = true })
          m.external_rmp_buffers;
  }
