-- ===== src/Controller/Loop/Outcomes.antt =====
-- src/rmpflow_controller_node.cpp: the outcomes of a round of the control loop.
use rmp_proximity_sensor.Common.{◌≡◌, Bool, true, false, not, ◌&&◌, ◌||◌, some, [], if◌then◌else◌}
use rmp_proximity_sensor.Common.Floats.{Floats, zeros}
use rmp_proximity_sensor.Controller.{RobotState, ControllerBackend}
use rmp_proximity_sensor.Controller.Members.{LoopSettings, Members, Model}
use rmp_proximity_sensor.Controller.Command.{integrate_command, apply_command_guard}
use rmp_proximity_sensor.Controller.Loop.{
  After, violates_min_z_safety, measure, sync_startup_goal, note_safe_state, control_state_of,
  solve_or_hold,
}

-- The flag and whether a goal has come.
abbrev pub flags : {Double Orientation : Type 0} → Members Double Orientation → Bool × Bool
flags m = (m.rmp_active, m.external_goal_received)

-- Whether the gate is in use and the active flag or a goal is missing.
abbrev pub gate_closed :
    {Double Orientation : Type 0} → LoopSettings Double → Members Double Orientation → Bool
gate_closed settings m =
    settings.rmp_flag_gate_enabled && not (m.rmp_active && m.external_goal_received)

module _ {Double Time Orientation Rotation : Type 0} (floats : Floats Double Time)
    (model : Model Double Orientation Rotation) (settings : LoopSettings Double) where
  -- The members before the solver runs.
  abbrev pub noted :
      RobotState Double → Bool → Members Double Orientation → Members Double Orientation
  noted measured_state measured_violates m =
      note_safe_state floats model settings measured_state measured_violates
        (sync_startup_goal floats model settings (model.forward_context measured_state.q) m)

  -- Where the joints would be after the solver's acceleration, unlimited.
  abbrev pub predicted : RobotState Double → Members Double Orientation → RobotState Double
  predicted measured_state m =
      let control_state = control_state_of floats model settings measured_state m in
      integrate_command floats model settings control_state
        (solve_or_hold floats model settings control_state
          (record m { last_min_z_safety_triggered = false }))
        settings.period

  -- The same with the goal that the solver works towards: the start's own if none has come in.
  abbrev pub wanted : RobotState Double → Members Double Orientation → RobotState Double
  wanted measured_state m =
      predicted measured_state
        (sync_startup_goal floats model settings (model.forward_context measured_state.q) m)

  -- The joints of the state remembered as safe, or the measured ones if there is none, at rest.
  abbrev pub at_rest : RobotState Double → Members Double Orientation → RobotState Double
  at_rest measured_state m = record {
    q =
        if m.last_safe_command_state_initialized
        then m.last_safe_command_state.q
        else measured_state.q;
    qd = zeros floats (
        if m.last_safe_command_state_initialized
        then m.last_safe_command_state.qd
        else measured_state.qd);
  }

module _ {Double Time Orientation Rotation State Message : Type 0} (floats : Floats Double Time)
    (model : Model Double Orientation Rotation) (settings : LoopSettings Double)
    (backend : ControllerBackend Double State Message) where
  -- A round without a command: the backend is as before, no message goes to the robot, and nothing of the
  -- earlier commands is used any more.
  pub record IsIdle (m : Members Double Orientation) (s : State)
      (a : After Double Orientation State Message) : Type 0 where
    pub idle_flags : flags a.members ≡ flags m
    pub backend_same : a.backend_state ≡ s
    pub no_message : a.messages ≡ []
    pub no_virtual : a.members.virtual_velocity_state_initialized ≡ false
    pub no_safe : a.members.last_safe_command_state_initialized ≡ false

  -- A round with a command.
  pub record Commands (measured_state : RobotState Double) (m : Members Double Orientation)
      (s : State) (a : After Double Orientation State Message) : Type 0 where
    pub flags_are : flags a.members ≡ flags m
    pub measured_violates : Bool
    pub predicted_violates : Bool
    pub measured_is :
        violates_min_z_safety floats model settings
          (model.forward_context measured_state.q)
          m.rmp_active
        ≡ some measured_violates
    pub predicted_is :
        violates_min_z_safety floats model settings
          (model.forward_context (wanted floats model settings measured_state m).q)
          m.rmp_active
        ≡ some predicted_violates
    pub command : RobotState Double
    -- If one of the two is too low, the command is to rest, whatever the solver wants.
    pub command_is :
        command
        ≡ (apply_command_guard floats model settings measured_state
            (if measured_violates || predicted_violates
              then at_rest floats model settings measured_state m
              else wanted floats model settings measured_state m)
            settings.period).1
    pub sent : (a.backend_state, a.messages) ≡ backend.apply_command command s
    pub virtual_is : a.members.virtual_velocity_state ≡ command
    pub virtual_kept : a.members.virtual_velocity_state_initialized ≡ true
    -- What is remembered as safe: this command if nothing was too low, or else what was remembered
    -- before, or else the measured joints at rest if they were not too low.
    pub safe_is : a.members.last_safe_command_state ≡ (
        if not (measured_violates || predicted_violates)
        then command
        else (if m.last_safe_command_state_initialized || measured_violates
            then m.last_safe_command_state
            else at_rest floats model settings measured_state m))
    pub safe_kept :
        a.members.last_safe_command_state_initialized
        ≡ (m.last_safe_command_state_initialized || not measured_violates)

  abbrev pub Outcome :
      Members Double Orientation → State → After Double Orientation State Message → Type 0
  Outcome m s a =
      if not (backend.ready s)
      then IsIdle m s a
      else (let (measured_members, measured_state) =
            measure floats model settings (backend.read_state s) m in
          if gate_closed settings measured_members
          then IsIdle measured_members s a
          else Commands measured_state measured_members s a)
