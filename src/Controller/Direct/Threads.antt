-- ===== src/Controller/Direct/Threads.antt =====
-- src/rmpflow_controller_node.cpp: `DirectRb10Backend` with its three threads, each of which may be
-- interrupted between two accesses to what they share. The check of a command is one step, at its load of
-- the flag of a stop: of what `ready` loads before that, the two members never go back once they let a
-- command pass, and whether the client is connected is any value at each step.
pub mod Bounded
pub mod InOrder
use rmp_proximity_sensor.Common.{
  ℕ, ◌+◌, ◌≡◌, Bool, true, false, Option, none, some, List, [], ◌∷◌, ◌++◌, if◌then◌else◌,
}
use rmp_proximity_sensor.Common.Floats.{Floats}
use rmp_proximity_sensor.Socket.{SystemState}
use rmp_proximity_sensor.Controller.{RobotState}
use rmp_proximity_sensor.Controller.Direct.{
  Config, Backend, Round, taken, queue_servo_command, clear_pending_servo_command,
  stop_servo_command_thread, take_servo_command, exchange_blocked, check_command, write_state,
  release_startup,
}

-- `checked` is a command that the control loop has checked and not yet queued, `clearing` tells that the
-- reader is about to clear the queue, `in_flight` is a command that has been taken and not yet sent.
pub record Machine (Double Time : Type 0) : Type 0 where
  pub backend : Backend Double Time
  pub checked : Option (List Double)
  pub clearing : Bool
  pub in_flight : Option (List Double)

pub data Label (Double : Type 0) : Type 0 where
  accepted sent : List Double → Label Double
  stop_is : Bool → Label Double
  silent : Label Double

module _ {Double Time : Type 0} (floats : Floats Double Time) (cfg : Config Double) where
  pub data Step : Machine Double Time → Label Double → Machine Double Time → Type 0 where
    check :
        (m : Machine Double Time) (connected : Bool) (command_state : RobotState Double)
        (joint_deg : List Double)
        → m.checked ≡ none
        → check_command floats connected command_state m.backend ≡ some joint_deg
        → Step m (accepted joint_deg) (record m { checked = some joint_deg })
    queue :
        (m : Machine Double Time) (joint_deg : List Double)
        → m.checked ≡ some joint_deg
        → Step m silent
            (record m { checked = none; backend = queue_servo_command joint_deg m.backend })
    write :
        (m : Machine Double Time) (current_time : Time) (state : SystemState)
        → m.clearing ≡ false
        → Step m silent (record m { backend = write_state floats cfg current_time state m.backend })
    exchange :
        (m : Machine Double Time) (state : SystemState)
        → m.clearing ≡ false
        → Step m
            (stop_is (exchange_blocked state m.backend).0.command_blocked_due_to_safety)
            (record m {
              backend = (exchange_blocked state m.backend).0;
              clearing = (exchange_blocked state m.backend).1;
            })
    clear :
        (m : Machine Double Time)
        → m.clearing ≡ true
        → Step m silent
            (record m { backend = clear_pending_servo_command m.backend; clearing = false })
    release :
        (m : Machine Double Time) (current_time : Time) (state : SystemState)
        → m.clearing ≡ false
        → Step m silent
            (record m { backend = release_startup floats cfg current_time state m.backend })
    take :
        (m : Machine Double Time) (joint_deg : List Double) (b : Backend Double Time)
        → m.in_flight ≡ none
        → take_servo_command m.backend ≡ taken joint_deg b
        → Step m silent (record m { backend = b; in_flight = some joint_deg })
    send :
        (m : Machine Double Time) (joint_deg : List Double)
        → m.in_flight ≡ some joint_deg
        → Step m (sent joint_deg) (record m { in_flight = none })
    stop :
        (m : Machine Double Time)
        → m.checked ≡ none
        → Step m silent (record m { backend = stop_servo_command_thread m.backend })

  -- The oldest step first.
  pub data Run : Machine Double Time → List (Label Double) → Machine Double Time → Type 0 where
    here : {m : Machine Double Time} → Run m [] m
    next :
        {m n o : Machine Double Time} {label : Label Double} {labels : List (Label Double)}
        → Step m label n
        → Run n labels o
        → Run m (label ∷ labels) o

module _ {Double : Type 0} where
  abbrev pub sent_by : Label Double → List (List Double)
  sent_by (sent joint_deg) = joint_deg ∷ []
  sent_by _ = []

  abbrev pub accepted_by : Label Double → List (List Double)
  accepted_by (accepted joint_deg) = joint_deg ∷ []
  accepted_by _ = []

  abbrev pub all_sent : List (Label Double) → List (List Double)
  all_sent [] = []
  all_sent (label ∷ labels) = sent_by label ++ all_sent labels

  abbrev pub all_accepted : List (Label Double) → List (List Double)
  all_accepted [] = []
  all_accepted (label ∷ labels) = accepted_by label ++ all_accepted labels

  -- Whether no state came in that calls for no stop.
  abbrev pub IsStopped : List (Label Double) → Type 0
  IsStopped [] = Unit
  IsStopped (stop_is command_blocked ∷ labels) = (command_blocked ≡ true) × IsStopped labels
  IsStopped (_ ∷ labels) = IsStopped labels

  abbrev pub kept : Option (List Double) → List (List Double)
  kept none = []
  kept (some joint_deg) = joint_deg ∷ []

-- The commands that are still on their way, the oldest first.
abbrev pub on_their_way : {Double Time : Type 0} → Machine Double Time → List (List Double)
on_their_way m =
    kept m.in_flight
    ++ (kept
          (if m.backend.servo_command_pending then some m.backend.latest_servo_joint_deg else none)
        ++ kept m.checked)
