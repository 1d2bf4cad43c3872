-- ===== src/Controller/Loop/Gate.antt =====
-- src/rmpflow_controller_node.cpp: the rounds of the control loop among the messages that come in.
use rmp_proximity_sensor.Common.{
  ◌>>=◌, ℕ, ◌≡◌, refl, ap, ◌∙◌, inl, inr, Bool, true, false, not, ◌&&◌, ◌||◌, ◌==◌, Option, some,
  List, [], ◌∷◌, arith, All, String, length, ◌*◌, if◌then◌else◌, Bool-cases,
}
use rmp_proximity_sensor.Common.Floats.{Floats}
use rmp_proximity_sensor.Controller.{RobotState, ControllerBackend}
use rmp_proximity_sensor.Controller.Geometry.{Vector}
use rmp_proximity_sensor.Controller.Geometry.Known.{IsFull, IsKnown}
use rmp_proximity_sensor.Controller.Members.{LoopSettings, Members, Model}
use rmp_proximity_sensor.Controller.Command.{estimate_controller_velocity}
use rmp_proximity_sensor.Controller.Loop.{After, measure, control_round}
use rmp_proximity_sensor.Controller.Loop.Outcomes.{flags, gate_closed, IsIdle, Commands, Outcome}
use rmp_proximity_sensor.Controller.Loop.Commanded.{control_round-Outcome}
use rmp_proximity_sensor.Controller.Handlers.{
  Marker, is_active_flag, on_rmp_flag, on_goal, on_goal_pose, on_obstacles, on_metric_sqrt,
  on_acceleration,
}

-- What happens to the members; a round finds the backend in some state.
pub data Event (Double Orientation State : Type 0) : Type 0 where
  rmp_flag : ℕ → Event Double Orientation State
  goal : Vector Double → Event Double Orientation State
  goal_pose : Vector Double → Orientation → Event Double Orientation State
  obstacles : List (Marker Double) → Event Double Orientation State
  metric_sqrt : String → ℕ → List Double → Event Double Orientation State
  acceleration : String → ℕ → List Double → Event Double Orientation State
  tick : State → Event Double Orientation State

module _ {Double Time Orientation Rotation State Message : Type 0} (floats : Floats Double Time)
    (model : Model Double Orientation Rotation) (settings : LoopSettings Double)
    (backend : ControllerBackend Double State Message) where
  pub step :
      Event Double Orientation State
      → Members Double Orientation
      → Option (Members Double Orientation)
  step (rmp_flag data_value) m = some (on_rmp_flag settings data_value m)
  step (goal point) m = some (on_goal floats model settings point m)
  step (goal_pose point orientation) m =
      some (on_goal_pose floats model settings point orientation m)
  step (obstacles markers) m = some (on_obstacles floats model settings markers m)
  step (metric_sqrt key dim values) m = some (on_metric_sqrt key dim values m)
  step (acceleration key dim values) m = some (on_acceleration key dim values m)
  step (tick s) m = control_round floats model settings backend m s >>= λ a. some a.members

  -- The members after a history, newest first.
  pub after :
      Members Double Orientation
      → List (Event Double Orientation State)
      → Option (Members Double Orientation)
  after start [] = some start
  after start (e ∷ older) = (after start older >>= step e)

  -- Whether the newest flag is the active one.
  abbrev pub active_flag : Bool → List (Event Double Orientation State) → Bool
  active_flag start [] = start
  active_flag start (rmp_flag data_value ∷ older) =
      is_active_flag data_value settings.rmp_active_flag_value
  active_flag start (_ ∷ older) = active_flag start older

  abbrev pub goal_seen : Bool → List (Event Double Orientation State) → Bool
  goal_seen start [] = start
  goal_seen start (goal point ∷ older) = true
  goal_seen start (goal_pose point orientation ∷ older) = true
  goal_seen start (_ ∷ older) = goal_seen start older

  estimate-flags :
      (q : List Double) (dt : Double) (m : Members Double Orientation)
      → flags (estimate_controller_velocity floats model settings q dt m).0 ≡ flags m
  unfolding estimate_controller_velocity
  estimate-flags q dt m =
      elim (Bool-cases
        (not m.controller_velocity_estimator_initialized || floats.le dt floats.epsilon)) [
          | inl first ↦ rw first refl
          | inr further ↦ rw further refl
        ]

  measure-flags :
      (measured_state : RobotState Double) (m : Members Double Orientation)
      → flags (measure floats model settings measured_state m).0 ≡ flags m
  unfolding measure
  measure-flags measured_state m =
      chosen settings.estimate_velocity_in_controller _
        (estimate-flags measured_state.q settings.period m)
    where
      chosen :
          (estimates : Bool) (estimated : Members Double Orientation × RobotState Double)
          → flags estimated.0 ≡ flags m
          → flags (if estimates then estimated else (m, measured_state)).0 ≡ flags m
      chosen true estimated e = e
      chosen false estimated e = refl

  Outcome-flags :
      (m : Members Double Orientation) (s : State) (a : After Double Orientation State Message)
      → Outcome floats model settings backend m s a
      → flags a.members ≡ flags m
  Outcome-flags m s a o =
      let (measured_members, measured_state) =
        measure floats model settings (backend.read_state s) m in
      by_cases (backend.ready s) (gate_closed settings measured_members) measured_state
        measured_members (measure-flags (backend.read_state s) m) o
    where
      by_cases :
          (is_ready held : Bool) (measured_state : RobotState Double)
          (measured_members : Members Double Orientation)
          → flags measured_members ≡ flags m
          → (if not is_ready
              then IsIdle floats model settings backend m s a
              else (if held
                  then IsIdle floats model settings backend measured_members s a
                  else Commands floats model settings backend measured_state measured_members s a))
          → flags a.members ≡ flags m
      by_cases false held ms mm e o = o.idle_flags
      by_cases true true ms mm e o = o.idle_flags ∙ e
      by_cases true false ms mm e o = o.flags_are ∙ e

  gate_closed-flags :
      (m : Members Double Orientation) (active seen : Bool)
      → flags m ≡ (active, seen)
      → settings.rmp_flag_gate_enabled ≡ true
      → (active && seen) ≡ false
      → gate_closed settings m ≡ true
  gate_closed-flags m active seen f gated missing = ground (arith, ap (λ p. p.0) f, ap (λ p. p.1) f)

  Outcome-held :
      (m : Members Double Orientation) (s : State) (a : After Double Orientation State Message)
      → gate_closed settings (measure floats model settings (backend.read_state s) m).0 ≡ true
      → Outcome floats model settings backend m s a
      → (a.messages ≡ []) × (a.backend_state ≡ s)
  Outcome-held m s a held o =
      let (measured_members, measured_state) =
        measure floats model settings (backend.read_state s) m in
      by_cases (backend.ready s) (gate_closed settings measured_members) measured_state
        measured_members held o
    where
      by_cases :
          (is_ready held : Bool) (measured_state : RobotState Double)
          (measured_members : Members Double Orientation)
          → held ≡ true
          → (if not is_ready
              then IsIdle floats model settings backend m s a
              else (if held
                  then IsIdle floats model settings backend measured_members s a
                  else Commands floats model settings backend measured_state measured_members s a))
          → (a.messages ≡ []) × (a.backend_state ≡ s)
      by_cases false held ms mm h o = (o.no_message, o.backend_same)
      by_cases true true ms mm h o = (o.no_message, o.backend_same)
      by_cases true false ms mm h o = ground arith

  on_rmp_flag-flags :
      (data_value : ℕ) (m : Members Double Orientation)
      → flags (on_rmp_flag settings data_value m)
        ≡ (is_active_flag data_value settings.rmp_active_flag_value, m.external_goal_received)
  unfolding on_rmp_flag
  on_rmp_flag-flags data_value m =
      elim (Bool-cases (is_active_flag data_value settings.rmp_active_flag_value)) [
        | inl active ↦ rw active refl
        | inr inactive ↦ rw inactive refl
      ]

  on_metric_sqrt-flags :
      (key : String) (dim : ℕ) (values : List Double) (m : Members Double Orientation)
      → flags (on_metric_sqrt key dim values m) ≡ flags m
  unfolding on_metric_sqrt
  on_metric_sqrt-flags key dim values m = elim (Bool-cases (length values == dim * dim)) [
    | inl fits ↦ rw fits refl
    | inr differs ↦ rw differs refl
  ]

  on_acceleration-flags :
      (key : String) (dim : ℕ) (values : List Double) (m : Members Double Orientation)
      → flags (on_acceleration key dim values m) ≡ flags m
  unfolding on_acceleration
  on_acceleration-flags key dim values m = elim (Bool-cases (length values == dim)) [
    | inl fits ↦ rw fits refl
    | inr differs ↦ rw differs refl
  ]

  module _ (known : All IsKnown settings.body_obstacles_visual)
      (full : (q : List Double) → IsFull (model.forward_context q)) where
    -- A history throws nothing, and its flags are those that it tells.
    after-flags :
        (start : Members Double Orientation) (events : List (Event Double Orientation State))
        → (m : Members Double Orientation) × (after start events ≡ some m)
          × (flags m ≡ (
            active_flag start.rmp_active events,
            goal_seen start.external_goal_received events,
          ))
    unfolding after step on_goal on_goal_pose on_obstacles
    after-flags start [] = (start, refl, refl)
    after-flags start (rmp_flag data_value ∷ older) =
        let (m, e, f) = after-flags start older in
        rw e (
          _,
          refl,
          on_rmp_flag-flags data_value m
              ∙ ap (λ p. (is_active_flag data_value settings.rmp_active_flag_value, p.1)) f,
        )
    after-flags start (goal point ∷ older) =
        let (m, e, f) = after-flags start older in rw e (_, refl, ap (λ p. (p.0, true)) f)
    after-flags start (goal_pose point orientation ∷ older) =
        let (m, e, f) = after-flags start older in rw e (_, refl, ap (λ p. (p.0, true)) f)
    after-flags start (obstacles markers ∷ older) =
        let (m, e, f) = after-flags start older in rw e (_, refl, f)
    after-flags start (metric_sqrt key dim values ∷ older) =
        let (m, e, f) = after-flags start older in
        rw e (_, refl, on_metric_sqrt-flags key dim values m ∙ f)
    after-flags start (acceleration key dim values ∷ older) =
        let (m, e, f) = after-flags start older in
        rw e (_, refl, on_acceleration-flags key dim values m ∙ f)
    after-flags start (tick s ∷ older) =
        let (m, e, f) = after-flags start older in
        let (a, r, o) = control_round-Outcome floats model settings backend m s known full in
        rw (e, r) (a.members, refl, Outcome-flags m s a o ∙ f)

    -- With the gate in use, the body obstacles on known links and a place for every link in the kinematics,
    -- after any history of messages and rounds a round does not throw, and sends nothing to the robot and
    -- leaves the backend alone, unless the newest flag is the active one and a goal has come in.
    pub control_round-held_back :
        (start : Members Double Orientation) (events : List (Event Double Orientation State))
        (s : State)
        → settings.rmp_flag_gate_enabled ≡ true
        → (active_flag start.rmp_active events && goal_seen start.external_goal_received events)
          ≡ false
        → (a : After Double Orientation State Message) × ((after start events >>= λ m.
              control_round floats model settings backend m s)
            ≡ some a)
          × (a.messages ≡ [])
          × (a.backend_state ≡ s)
    control_round-held_back start events s gated missing =
        let (m, e, f) = after-flags start events in
        let (a, r, o) = control_round-Outcome floats model settings backend m s known full in
        let held =
          gate_closed-flags (measure floats model settings (backend.read_state s) m).0 _ _
            (measure-flags (backend.read_state s) m ∙ f) gated missing in
        let (none_sent, same) = Outcome-held m s a held o in rw (e, r) (a, refl, none_sent, same)
