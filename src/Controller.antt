-- ===== src/Controller.antt =====
-- src/rmpflow_controller_node.cpp: the node that runs the RMPflow control loop, and what its parts
-- share. Vectors of joints are lists of doubles.
pub mod Filter
pub mod Backends
pub mod Direct
pub mod Geometry
pub mod Members
pub mod Command
pub mod Loop
pub mod Handlers
mod Tests
use rmp_proximity_sensor.Common.{String, List, [], ◌∷◌, Bool, true, false, ◌≡◌}

pub record RobotState (Double : Type 0) : Type 0 where
  pub q : List Double
  pub qd : List Double

-- `RB10Model::joint_names`
abbrev pub joint_names : List String
joint_names = "base" ∷ "shoulder" ∷ "elbow" ∷ "wrist1" ∷ "wrist2" ∷ "wrist3" ∷ []

-- What the control loop calls, on the backend's state: a command changes the state and has messages
-- to the robot; a backend that is not ready takes no command.
pub record ControllerBackend (Double State Message : Type 0) : Type 0 where
  pub read_state : State → RobotState Double
  pub ready : State → Bool
  pub apply_command : RobotState Double → State → State × List Message
  pub apply_command-held :
      (command_state : RobotState Double) (s : State)
      → ready s ≡ false
      → apply_command command_state s ≡ (s, [])
