-- ===== src/Controller/Loop.antt =====
-- src/rmpflow_controller_node.cpp: a round of `control_loop`, from the check of the backend to the wait for
-- the next tick. The subscriptions' handlers are Handlers; they come in between two rounds. What is drawn
-- in RViz and the log lines are left out; `none` is an exception that ends the thread.
pub mod Outcomes
pub mod Remembered
pub mod Commanded
pub mod Gate
use rmp_proximity_sensor.Common.{
  ◌>>=◌, ℕ, Bool, true, false, not, ◌&&◌, ◌||◌, String, Option, none, some, List, [], ◌∷◌, ◌++◌,
  map, get_elem?, if◌then◌else◌,
}
use rmp_proximity_sensor.Common.Floats.{Floats, zeros, blended}
use rmp_proximity_sensor.Controller.{RobotState, ControllerBackend}
use rmp_proximity_sensor.Controller.Geometry.{Vector, Context, below_limits}
use rmp_proximity_sensor.Controller.Members.{
  GoalTarget, LoopSettings, Members, Model, Output, joint_states, direct_command, target_q,
  rmp_ee_pose, target_metric,
}
use rmp_proximity_sensor.Controller.Command.{
  compute_acceleration, integrate_command, reset_controller_velocity_estimator,
  estimate_controller_velocity, apply_command_guard,
}

-- The members, the backend's state, what was published and what went to the robot.
pub record After (Double Orientation State Message : Type 0) : Type 0 where
  pub members : Members Double Orientation
  pub backend_state : State
  pub published : List (Output Double Orientation)
  pub messages : List Message

module _ {Double Orientation : Type 0} (settings : LoopSettings Double) where
  -- Whether the gate keeps the solver from running.
  pub is_held : Members Double Orientation → Bool
  is_held m = settings.rmp_flag_gate_enabled && (not m.rmp_active || not m.external_goal_received)

  -- Nothing of the earlier commands is used any more.
  pub forget_commands : Members Double Orientation → Members Double Orientation
  forget_commands m = record m {
    virtual_velocity_state_initialized = false;
    last_safe_command_state_initialized = false;
  }

  publish_joint_states : RobotState Double → List (Output Double Orientation)
  publish_joint_states state =
      if not settings.has_joint_state_pub then [] else joint_states state ∷ []

  publish_target_metric : RobotState Double → Vector Double → List (Output Double Orientation)
  publish_target_metric state goal =
      if not settings.has_target_metric_pub then [] else target_metric state goal ∷ []

  publish_direct_command : RobotState Double → List (Output Double Orientation)
  publish_direct_command command_state =
      if not settings.has_direct_command_pub then [] else direct_command command_state.q ∷ []

  publish_target_q : RobotState Double → List (Output Double Orientation)
  publish_target_q command_state =
      if not settings.has_target_q_pub then [] else target_q command_state.q ∷ []

module _ {Double Time Orientation Rotation : Type 0} (floats : Floats Double Time)
    (model : Model Double Orientation Rotation) (settings : LoopSettings Double) where
  publish_rmp_ee_pose : Context Double Rotation → List (Output Double Orientation)
  publish_rmp_ee_pose context =
      if not settings.has_rmp_eef_pose_pub then [] else elim (get_elem? context.link_rotations 10) [
        | none ↦ []
        | some rotation ↦
            rmp_ee_pose context.tcp_position (model.normalized (model.of_rotation rotation)) ∷ []
      ]

  pub violates_min_z_safety : Context Double Rotation → Bool → Option Bool
  violates_min_z_safety context rmp_active =
      if settings.rmp_flag_gate_enabled && not rmp_active
      then some false
      else (if not settings.safety_stop_on_min_z
          then some false
          else below_limits floats model.infinity model.identity_rotation model.rotate
              settings.floor_limits settings.body_obstacles_visual context)

  -- The state that was measured, with the velocity of the controller's own estimate if it is wanted.
  pub measure :
      RobotState Double
      → Members Double Orientation
      → Members Double Orientation × RobotState Double
  measure measured_state m =
      if settings.estimate_velocity_in_controller
      then (let estimated =
            estimate_controller_velocity floats model settings measured_state.q settings.period m in
          (estimated.0, record measured_state { qd = estimated.1 }))
      else (m, measured_state)

  -- The round of a controller that waits for the flag or for a goal.
  pub stand_by :
      RobotState Double
      → Members Double Orientation
      → Members Double Orientation × List (Output Double Orientation)
  unfolding forget_commands publish_joint_states publish_rmp_ee_pose publish_target_metric
  stand_by measured_state m = (
    record (forget_commands settings m) { state = measured_state },
    (if settings.publish_joint_states_enabled
          then publish_joint_states settings measured_state
          else [])
        ++ (publish_rmp_ee_pose (model.forward_context measured_state.q)
            ++ publish_target_metric settings measured_state m.goal_target.position),
  )

  -- Without a goal from outside the first one is where the tool is; the context has the link `TCP_RMP`.
  pub sync_startup_goal :
      Context Double Rotation → Members Double Orientation → Members Double Orientation
  sync_startup_goal context m =
      if settings.initialize_goal_from_first_state
        && (not m.startup_goal_synced && not m.external_goal_received)
      then elim (get_elem? context.link_positions 10) [
        | none ↦ m
        | some startup_goal ↦ elim (get_elem? context.link_rotations 10) [
          | none ↦ m
          | some rotation ↦ record m {
            goal_target = record {
              position = startup_goal;
              orientation = model.normalized (model.of_rotation rotation);
            };
            startup_goal_synced = true;
          }
        ]
      ]
      else m

  -- The measured state becomes the one to fall back to, unless there is one or it is too low.
  pub note_safe_state :
      RobotState Double → Bool → Members Double Orientation → Members Double Orientation
  note_safe_state measured_state violates m =
      if not m.last_safe_command_state_initialized && not violates
      then record m {
        last_safe_command_state = record {
          q = measured_state.q;
          qd = zeros floats measured_state.qd;
        };
        last_safe_command_state_initialized = true;
      }
      else m

  -- The solver's state: the measured one, mixed with the newest command if there is one.
  pub control_state_of : RobotState Double → Members Double Orientation → RobotState Double
  control_state_of measured_state m =
      let mixed =
        if m.virtual_velocity_state_initialized
        then record {
          q =
              blended floats settings.measured_position_feedback_blend measured_state.q
                m.virtual_velocity_state.q;
          qd =
              blended floats settings.measured_velocity_feedback_blend measured_state.qd
                m.virtual_velocity_state.qd;
        }
        else measured_state in
      if not settings.use_velocity_feedback_in_solver
      then record mixed { qd = zeros floats mixed.qd }
      else mixed

  -- The acceleration, which is zero if the solver throws.
  pub solve_or_hold : RobotState Double → Members Double Orientation → List Double
  solve_or_hold control_state m =
      elim (compute_acceleration floats model settings control_state m) [
        | none ↦ zeros floats control_state.q
        | some qdd ↦ qdd
      ]

  -- What to hold if the robot is or would be too low.
  pub hold_command : RobotState Double → Members Double Orientation → RobotState Double
  hold_command measured_state m =
      let held =
        if m.last_safe_command_state_initialized
        then m.last_safe_command_state
        else measured_state in
      record held { qd = zeros floats held.qd }

  -- The command of a round, the positions whose pose is published with it, and the members that remember
  -- it.
  pub choose_command :
      RobotState Double
      → Bool
      → RobotState Double
      → Members Double Orientation
      → RobotState Double × (List Double × Members Double Orientation)
  unfolding hold_command
  choose_command measured_state triggered predicted_state m =
      let chosen = if triggered then hold_command measured_state m else predicted_state in
      let (clamped, guarded) =
        apply_command_guard floats model settings measured_state chosen settings.period in
      (
        guarded,
        (
          if clamped then guarded.q else chosen.q,
          if triggered then record m { last_min_z_safety_triggered = true } else record m {
            last_safe_command_state = guarded;
            last_safe_command_state_initialized = true;
          },
        ),
      )

module _ {Double Time Orientation Rotation State Message : Type 0} (floats : Floats Double Time)
    (model : Model Double Orientation Rotation) (settings : LoopSettings Double)
    (backend : ControllerBackend Double State Message) where
  -- The end of a round: the command goes out.
  pub send_command :
      RobotState Double
      → RobotState Double
      → RobotState Double
      → List Double
      → Members Double Orientation
      → State
      → After Double Orientation State Message
  unfolding publish_rmp_ee_pose publish_target_metric publish_target_q publish_direct_command
      publish_joint_states
  send_command measured_state control_state command_state shown_q m s =
      let applied = backend.apply_command command_state s in
      let read = backend.read_state applied.0 in
      let state =
        if settings.estimate_velocity_in_controller
        then record read { qd = measured_state.qd }
        else read in
      record {
        members = record m {
          virtual_velocity_state = command_state;
          virtual_velocity_state_initialized = true;
          state = state;
        };
        backend_state = applied.0;
        published =
            publish_rmp_ee_pose floats model settings (model.forward_context shown_q)
            ++ (publish_target_metric settings control_state m.goal_target.position
                ++ (publish_target_q settings command_state
                    ++ (publish_direct_command settings command_state
                        ++ (if settings.publish_joint_states_enabled
                            then publish_joint_states settings state
                            else []))));
        messages = applied.1;
      }

  -- A round that runs the solver.
  pub solve_round :
      RobotState Double
      → Members Double Orientation
      → State
      → Option (After Double Orientation State Message)
  unfolding sync_startup_goal note_safe_state control_state_of solve_or_hold choose_command
      send_command
  solve_round measured_state measured_members s =
      let measured_context = model.forward_context measured_state.q in
      let synced = sync_startup_goal floats model settings measured_context measured_members in
      violates_min_z_safety floats model settings measured_context measured_members.rmp_active
      >>= λ measured_violates.
          (let noted =
              note_safe_state floats model settings measured_state measured_violates synced in
            let control_state = control_state_of floats model settings measured_state noted in
            let m = record noted { last_min_z_safety_triggered = false } in
            let predicted_state =
              integrate_command floats model settings control_state
                (solve_or_hold floats model settings control_state m) settings.period in
            (violates_min_z_safety floats model settings (model.forward_context predicted_state.q)
                measured_members.rmp_active
              >>= λ predicted_violates.
                  (let chosen =
                      choose_command floats model settings measured_state
                        (measured_violates || predicted_violates) predicted_state m in
                    some (
                      send_command measured_state control_state chosen.0 chosen.1.0 chosen.1.1 s))))

  pub control_round :
      Members Double Orientation → State → Option (After Double Orientation State Message)
  unfolding is_held forget_commands measure stand_by solve_round
  control_round m s =
      if not (backend.ready s)
      then some (record {
        members =
            reset_controller_velocity_estimator floats model settings (forget_commands settings m);
        backend_state = s;
        published = [];
        messages = [];
      })
      else (let (measured_members, measured_state) =
            measure floats model settings (backend.read_state s) m in
          if is_held settings measured_members
          then (let (members, published) =
                stand_by floats model settings measured_state measured_members in
              some (record {
                members = members;
                backend_state = s;
                published = published;
                messages = [];
              }))
          else solve_round measured_state measured_members s)
