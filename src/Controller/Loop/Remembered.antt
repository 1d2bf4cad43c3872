-- ===== src/Controller/Loop/Remembered.antt =====
-- src/rmpflow_controller_node.cpp: the state that the control loop remembers as safe.
use rmp_proximity_sensor.Common.{
  ◌≡◌, refl, ◌∙◌, ap, inl, inr, Bool, true, false, not, ◌&&◌, ◌||◌, List, [], ◌∷◌, arith,
  if◌then◌else◌, Bool-cases,
}
use rmp_proximity_sensor.Common.Floats.{Floats, zeros}
use rmp_proximity_sensor.Controller.{RobotState}
use rmp_proximity_sensor.Controller.Geometry.{Context}
use rmp_proximity_sensor.Controller.Members.{LoopSettings, Members, Model}
use rmp_proximity_sensor.Controller.Command.{compute_acceleration}
use rmp_proximity_sensor.Controller.Loop.{
  sync_startup_goal, note_safe_state, control_state_of, solve_or_hold, hold_command, choose_command,
}
use rmp_proximity_sensor.Controller.Loop.Outcomes.{noted, predicted, at_rest}

module _ {Double Time Orientation Rotation : Type 0} (floats : Floats Double Time)
    (model : Model Double Orientation Rotation) (settings : LoopSettings Double) where
  zeros-zeros : (xs : List Double) → zeros floats (zeros floats xs) ≡ zeros floats xs
  zeros-zeros [] = refl
  zeros-zeros (x ∷ xs) = ap (λ ys. floats.zero_value ∷ ys) (zeros-zeros xs)

  -- The safe state that is remembered, and whether there is one.
  abbrev pub safe : Members Double Orientation → RobotState Double × Bool
  safe m = (m.last_safe_command_state, m.last_safe_command_state_initialized)

  sync_startup_goal-safe :
      (context : Context Double Rotation) (m : Members Double Orientation)
      → safe (sync_startup_goal floats model settings context m) ≡ safe m
  unfolding sync_startup_goal
  sync_startup_goal-safe context m = ground arith

  note_safe_state-safe :
      (measured_state : RobotState Double) (measured_violates : Bool)
      (m : Members Double Orientation)
      → safe (note_safe_state floats model settings measured_state measured_violates m) ≡ (
        if m.last_safe_command_state_initialized || measured_violates
            then m.last_safe_command_state
            else record { q = measured_state.q; qd = zeros floats measured_state.qd },
        m.last_safe_command_state_initialized || not measured_violates,
      )
  unfolding note_safe_state
  note_safe_state-safe measured_state measured_violates m = ground arith

  pub predicted-noted :
      (measured_state : RobotState Double) (measured_violates : Bool)
      (m : Members Double Orientation)
      → predicted floats model settings measured_state
          (note_safe_state floats model settings measured_state measured_violates m)
        ≡ predicted floats model settings measured_state m
  unfolding note_safe_state control_state_of solve_or_hold compute_acceleration
  predicted-noted measured_state measured_violates m =
      elim (Bool-cases (not m.last_safe_command_state_initialized && not measured_violates)) [
        | inl first ↦ rw first refl
        | inr known ↦ rw known refl
      ]

  -- `note_safe_state` on what is remembered, with the goal set or not.
  pub remembered : RobotState Double → Bool → RobotState Double × Bool → RobotState Double × Bool
  remembered measured_state measured_violates (s, initialized) = (
    if initialized || measured_violates
        then s
        else record { q = measured_state.q; qd = zeros floats measured_state.qd },
    initialized || not measured_violates,
  )

  pub noted-safe :
      (measured_state : RobotState Double) (measured_violates : Bool)
      (m : Members Double Orientation)
      → safe (noted floats model settings measured_state measured_violates m)
        ≡ remembered measured_state measured_violates (safe m)
  unfolding remembered
  noted-safe measured_state measured_violates m =
      let context = model.forward_context measured_state.q in
      note_safe_state-safe measured_state measured_violates
        (sync_startup_goal floats model settings context m)
      ∙ ap (remembered measured_state measured_violates) (sync_startup_goal-safe context m)

  -- `hold_command` on what is remembered.
  held_of : RobotState Double → RobotState Double × Bool → RobotState Double
  held_of measured_state (s, initialized) =
      let held = if initialized then s else measured_state in
      record held { qd = zeros floats held.qd }

  held_of-remembered :
      (measured_state s : RobotState Double) (initialized measured_violates : Bool)
      → held_of measured_state (remembered measured_state measured_violates (s, initialized))
        ≡ record {
          q = if initialized then s.q else measured_state.q;
          qd = zeros floats (if initialized then s.qd else measured_state.qd);
        }
  unfolding held_of remembered
  held_of-remembered measured_state s true measured_violates = refl
  held_of-remembered measured_state s false true = refl
  held_of-remembered measured_state s false false =
      ap (λ qd. record { q = measured_state.q; qd = qd }) (zeros-zeros measured_state.qd)

  pub hold_command-at_rest :
      (measured_state : RobotState Double) (measured_violates : Bool)
      (m : Members Double Orientation)
      → hold_command floats model settings measured_state
          (noted floats model settings measured_state measured_violates m)
        ≡ at_rest floats model settings measured_state m
  unfolding hold_command held_of
  hold_command-at_rest measured_state measured_violates m =
      ap (held_of measured_state) (noted-safe measured_state measured_violates m)
      ∙ held_of-remembered measured_state m.last_safe_command_state
          m.last_safe_command_state_initialized measured_violates

  pub choose_command-safe :
      (measured_state : RobotState Double) (triggered : Bool) (predicted_state : RobotState Double)
      (m : Members Double Orientation)
      → let chosen =
          choose_command floats model settings measured_state triggered predicted_state m in
        safe chosen.1.1 ≡ (if not triggered then (chosen.0, true) else safe m)
  unfolding choose_command
  choose_command-safe measured_state true predicted_state m = refl
  choose_command-safe measured_state false predicted_state m = refl

  -- What is remembered after a round.
  pub safe_after :
      (mv pv initialized : Bool) (measured_state s command : RobotState Double)
      → (if not (mv || pv) then (command, true) else remembered measured_state mv (s, initialized))
        ≡ (
          if not (mv || pv)
              then command
              else (if initialized || mv then s else record {
                q = if initialized then s.q else measured_state.q;
                qd = zeros floats (if initialized then s.qd else measured_state.qd);
              }),
          initialized || not mv,
        )
  unfolding remembered
  safe_after true pv true ms s command = refl
  safe_after true pv false ms s command = refl
  safe_after false true true ms s command = refl
  safe_after false true false ms s command = refl
  safe_after false false true ms s command = refl
  safe_after false false false ms s command = refl
