-- ===== src/Controller/Direct/Startup/Started.antt =====
-- src/rmpflow_controller_node.cpp: what the constructor of `DirectRb10Backend` leaves behind.
use rmp_proximity_sensor.Common.{
  ◌≡◌, ◌&&◌, ◌||◌, Bool, true, false, not, Option, none, some, List, [], ◌∷◌, length,
}
use rmp_proximity_sensor.Common.Floats.{Floats}
use rmp_proximity_sensor.Controller.Filter.{Filter}
use rmp_proximity_sensor.Socket.{SystemState}
use rmp_proximity_sensor.Controller.Direct.{Config, Backend, command_blocked_by_robot_safety}
use rmp_proximity_sensor.Controller.Direct.Handler.{released}
use rmp_proximity_sensor.DirectBridge.Startup.{Call, is_open}
use rmp_proximity_sensor.Controller.Direct.Startup.{Arguments, Arrivals}

module _ {Double Time : Type 0} (floats : Floats Double Time) (fresh : Filter Double Time)
    (no_time : Time) where
  -- Whether the newest of these states calls for a stop, or else what was so before.
  abbrev pub stop_from : Bool → List (Time × SystemState) → Bool
  stop_from before [] = before
  stop_from before ((now, state) ∷ older) = command_blocked_by_robot_safety state

  abbrev pub is_some : List (Time × SystemState) → Bool
  is_some [] = false
  is_some (_ ∷ _) = true

  -- A backend after states that have come in.
  record Follows (cfg : Config Double) (start : Backend Double Time)
      (states : List (Time × SystemState)) (b : Backend Double Time) : Type 0 where
    received_is : b.state_received ≡ (is_some states || start.state_received)
    blocked_is :
        b.command_blocked_due_to_safety ≡ stop_from start.command_blocked_due_to_safety states
    waiting_is : b.startup_waiting_for_home ≡ (
        start.startup_waiting_for_home
        && not (released floats cfg start.startup_release_deadline states))
    deadline_is : b.startup_release_deadline ≡ start.startup_release_deadline
    not_pending : b.servo_command_pending ≡ false

  -- The backend that a constructor leaves behind, from the states that came in.
  abbrev Left : Bool → Time → Arrivals Time → Config Double → Backend Double Time → Type 0
  Left to_move deadline arrivals cfg b =
      (b.startup_waiting_for_home ≡ (
        to_move
        && not (
            released floats cfg no_time arrivals.flagged
            || released floats cfg deadline arrivals.timed)))
      × (b.command_blocked_due_to_safety
          ≡ stop_from
              (stop_from (stop_from (stop_from false arrivals.opened) arrivals.filtered)
                arrivals.flagged)
              arrivals.timed)
      × (b.state_received ≡ (
          is_some arrivals.timed
          || (is_some arrivals.flagged || (is_some arrivals.filtered || is_some arrivals.opened))))
      × (b.servo_command_pending ≡ false)

  -- What the constructor leaves behind, the client being connected or not.
  abbrev pub Started :
      Arguments Double
      → Time
      → Bool
      → Arrivals Time
      → Option (Config Double × Backend Double Time) × List (Call Double)
      → Type 0
  Started a deadline connected arrivals (none, calls) = is_open connected false calls ≡ false
  Started a deadline connected arrivals (some (cfg, b), calls) =
      (is_open connected false calls ≡ true)
      × (length cfg.startup_home_joints_deg ≡ 6)
      × Left a.startup_move_to_default_pose deadline arrivals cfg b
