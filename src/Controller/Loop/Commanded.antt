-- ===== src/Controller/Loop/Commanded.antt =====
-- src/rmpflow_controller_node.cpp: what a round of the control loop sends to the robot.
use rmp_proximity_sensor.Common.{
  ◌≡◌, refl, sym, ◌∙◌, ap, inl, inr, Bool, true, false, not, ◌&&◌, ◌||◌, some, List, arith, All,
  if◌then◌else◌, Bool-cases,
}
use rmp_proximity_sensor.Common.Floats.{Floats}
use rmp_proximity_sensor.Controller.{RobotState, ControllerBackend}
use rmp_proximity_sensor.Controller.Geometry.{Context, below_limits}
use rmp_proximity_sensor.Controller.Geometry.Known.{IsFull, IsKnown, below_limits-some}
use rmp_proximity_sensor.Controller.Members.{LoopSettings, Members, Model}
use rmp_proximity_sensor.Controller.Command.{
  apply_command_guard, reset_controller_velocity_estimator,
}
use rmp_proximity_sensor.Controller.Loop.{
  After, is_held, forget_commands, violates_min_z_safety, measure, stand_by, sync_startup_goal,
  note_safe_state, choose_command, send_command, solve_round, control_round,
}
use rmp_proximity_sensor.Controller.Loop.Outcomes.{
  flags, gate_closed, Commands, Outcome, noted, wanted,
}
use rmp_proximity_sensor.Controller.Loop.Remembered.{
  predicted-noted, noted-safe, hold_command-at_rest, choose_command-safe, safe_after,
}

is_held-gate_closed :
    {Double Orientation : Type 0} (settings : LoopSettings Double) (m : Members Double Orientation)
    → is_held settings m ≡ gate_closed settings m
unfolding is_held
is_held-gate_closed settings m = ground arith

module _ {Double Time Orientation Rotation State Message : Type 0} (floats : Floats Double Time)
    (model : Model Double Orientation Rotation) (settings : LoopSettings Double)
    (backend : ControllerBackend Double State Message) where
  violates-watched :
      (context : Context Double Rotation) (rmp_active : Bool)
      → violates_min_z_safety floats model settings context rmp_active ≡ (
          if (settings.rmp_flag_gate_enabled && not rmp_active) || not settings.safety_stop_on_min_z
          then some false
          else below_limits floats model.infinity model.identity_rotation model.rotate
              settings.floor_limits settings.body_obstacles_visual context)
  unfolding violates_min_z_safety
  violates-watched context rmp_active = ground arith

  violates-some :
      (context : Context Double Rotation) (rmp_active : Bool)
      → All IsKnown settings.body_obstacles_visual
      → IsFull context
      → (b : Bool) × (violates_min_z_safety floats model settings context rmp_active ≡ some b)
  violates-some context rmp_active known full =
      let (b, e) =
        below_limits-some floats model.infinity model.identity_rotation model.rotate
          settings.floor_limits settings.body_obstacles_visual context known full in
      rw (violates-watched context rmp_active, e)
        (decided
          ((settings.rmp_flag_gate_enabled && not rmp_active) || not settings.safety_stop_on_min_z)
          b)
    where
      decided : (c b : Bool) → (r : Bool) × ((if c then some false else some b) ≡ some r)
      decided true b = (false, refl)
      decided false b = (b, refl)

  choose_command-flags :
      (measured_state : RobotState Double) (triggered : Bool) (predicted_state : RobotState Double)
      (m : Members Double Orientation)
      → flags (choose_command floats model settings measured_state triggered predicted_state m).1.1
        ≡ flags m
  unfolding choose_command
  choose_command-flags measured_state true predicted_state m = refl
  choose_command-flags measured_state false predicted_state m = refl

  sync_startup_goal-flags :
      (context : Context Double Rotation) (m : Members Double Orientation)
      → flags (sync_startup_goal floats model settings context m) ≡ flags m
  unfolding sync_startup_goal
  sync_startup_goal-flags context m = ground arith

  noted-flags :
      (measured_state : RobotState Double) (measured_violates : Bool)
      (m : Members Double Orientation)
      → flags (noted floats model settings measured_state measured_violates m) ≡ flags m
  unfolding note_safe_state
  noted-flags measured_state measured_violates m =
      let synced =
        sync_startup_goal floats model settings (model.forward_context measured_state.q) m in
      elim (Bool-cases (not synced.last_safe_command_state_initialized && not measured_violates)) [
        | inl first ↦ rw first (sync_startup_goal-flags (model.forward_context measured_state.q) m)
        | inr known ↦ rw known (sync_startup_goal-flags (model.forward_context measured_state.q) m)
      ]

  solve_round-Commands :
      (measured_state : RobotState Double) (m : Members Double Orientation) (s : State)
      → All IsKnown settings.body_obstacles_visual
      → ((q : List Double) → IsFull (model.forward_context q))
      → (a : After Double Orientation State Message) × (solve_round floats model settings backend
            measured_state m s
          ≡ some a)
        × Commands floats model settings backend measured_state m s a
  unfolding solve_round choose_command send_command
  solve_round-Commands measured_state m s known full =
      let (mv, mv_is) =
        violates-some (model.forward_context measured_state.q) m.rmp_active known
          (full measured_state.q) in
      let p = wanted floats model settings measured_state m in
      let (pv, pv_is) = violates-some (model.forward_context p.q) m.rmp_active known (full p.q) in
      let n = record (noted floats model settings measured_state mv m) {
        last_min_z_safety_triggered = false;
      } in
      let same =
        predicted-noted floats model settings measured_state mv
          (sync_startup_goal floats model settings (model.forward_context measured_state.q) m) in
      let chosen = choose_command floats model settings measured_state (mv || pv) p n in
      let remembers =
        choose_command-safe floats model settings measured_state (mv || pv) p n
        ∙ ap (λ r. if not (mv || pv) then (chosen.0, true) else r)
            (noted-safe floats model settings measured_state mv m)
        ∙ safe_after floats model settings mv pv m.last_safe_command_state_initialized
            measured_state m.last_safe_command_state chosen.0 in
      rw (mv_is, same, pv_is)
        (
          _,
          refl,
          record {
            flags_are =
                choose_command-flags measured_state (mv || pv) p n
                ∙ noted-flags measured_state mv m;
            measured_violates = mv;
            predicted_violates = pv;
            measured_is = mv_is;
            predicted_is = pv_is;
            command = chosen.0;
            command_is =
                ap
                  (λ rest.
                    (apply_command_guard floats model settings measured_state
                      (if mv || pv then rest else p) settings.period).1)
                  (hold_command-at_rest floats model settings measured_state mv m);
            sent = refl;
            virtual_is = refl;
            virtual_kept = refl;
            safe_is = ap (λ r. r.0) remembers;
            safe_kept = ap (λ r. r.1) remembers;
          },
        )

  pub control_round-Outcome :
      (m : Members Double Orientation) (s : State)
      → All IsKnown settings.body_obstacles_visual
      → ((q : List Double) → IsFull (model.forward_context q))
      → (a : After Double Orientation State Message) × (control_round floats model settings backend
            m s
          ≡ some a)
        × Outcome floats model settings backend m s a
  unfolding control_round forget_commands stand_by reset_controller_velocity_estimator
  control_round-Outcome m s known full = elim (Bool-cases (backend.ready s)) [
    | inl is_ready ↦
        let measured = measure floats model settings (backend.read_state s) m in
        elim (Bool-cases (is_held settings measured.0)) [
          | inl held ↦
              rw (is_ready, held, sym (is_held-gate_closed settings measured.0) ∙ held)
                (
                  _,
                  refl,
                  record {
                    idle_flags = refl;
                    backend_same = refl;
                    no_message = refl;
                    no_virtual = refl;
                    no_safe = refl;
                  },
                )
          | inr runs ↦
              rw (is_ready, runs, sym (is_held-gate_closed settings measured.0) ∙ runs)
                (solve_round-Commands measured.1 measured.0 s known full)
        ]
    | inr unready ↦ rw unready (
      _,
      refl,
      record {
        idle_flags = refl;
        backend_same = refl;
        no_message = refl;
        no_virtual = refl;
        no_safe = refl;
      },
    )
  ]
