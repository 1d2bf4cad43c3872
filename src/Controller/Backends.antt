-- ===== src/Controller/Backends.antt =====
-- src/rmpflow_controller_node.cpp: `joint_state_to_robot_state` and the backends that reach the robot
-- through topics or simulate it. `none` stands for a read outside an array.
pub mod Converted
pub mod Newest
mod Tests
use rmp_proximity_sensor.Common.{
  ◌>>=◌, ℕ, zero, suc, ◌+◌, Bool, true, false, not, String, Option, none, some, List, [], ◌∷◌, ltb,
  leb, length, get_elem?, get_or, if◌then◌else◌, ◌≡◌, refl, replicate, arith,
}
use rmp_proximity_sensor.JointStateAdapter.{JointState, Indices, find, index_names}
use rmp_proximity_sensor.Controller.{RobotState, ControllerBackend, joint_names}

module _ {Double : Type 0} where
  -- `values[index] = x`, inside the vector.
  pub set_at : ℕ → Double → List Double → List Double
  set_at index x [] = []
  set_at zero x (y ∷ values) = x ∷ values
  set_at (suc index) x (y ∷ values) = y ∷ set_at index x values

  pub set_joint : ℕ → Double → Double → RobotState Double → RobotState Double
  set_joint index x v state = record { q = set_at index x state.q; qd = set_at index v state.qd }

module _ {Header Double : Type 0} (zero_value : Double) (msg : JointState Header Double) where
  -- The value of a velocity that may be missing is `zero_value`.
  abbrev pub velocity_at : ℕ → Double
  velocity_at index = get_or msg.velocity index zero_value

  -- The loop over the joints' names from `index` on, with its `matched_all`.
  pub assign_named :
      Indices → ℕ → List String → RobotState Double → Option (Bool × RobotState Double)
  unfolding set_joint
  assign_named name_to_index index [] state = some (true, state)
  assign_named name_to_index index (key ∷ keys) state = elim (find key name_to_index) [
    | none ↦ some (false, state)
    | some at_name ↦ elim (leb (length msg.position) at_name) [
      | true ↦ some (false, state)
      | false ↦
          (get_elem? msg.position at_name >>= λ x.
          assign_named name_to_index (index + 1) keys
            (set_joint index x (velocity_at at_name) state))
    ]
  ]

  -- The loop over the positions from `index` on.
  pub assign_in_order : ℕ → List String → RobotState Double → Option (RobotState Double)
  unfolding set_joint
  assign_in_order index [] state = some state
  assign_in_order index (key ∷ keys) state = do
    x ← get_elem? msg.position index
    assign_in_order (index + 1) keys (set_joint index x (velocity_at index) state)

  fall_back : Bool × RobotState Double → Option (Bool × RobotState Double)
  unfolding assign_in_order
  fall_back (true, state) = some (true, state)
  fall_back (false, state) = do
    assigned ← assign_in_order 0 joint_names state
    some (true, assigned)

  -- The result and the state that is written through the reference.
  pub joint_state_to_robot_state : RobotState Double → Option (Bool × RobotState Double)
  unfolding assign_named fall_back
  joint_state_to_robot_state state =
      if ltb (length msg.position) (length joint_names)
      then some (false, state)
      else (if leb (length joint_names) (length msg.name)
          then (assign_named (index_names 0 msg.name []) 0 joint_names state >>= fall_back)
          else fall_back (false, state))

-- `SimulationBackend`: the robot is where the newest command put it. There are no messages.
abbrev pub simulation :
    {Double : Type 0} → ControllerBackend Double (RobotState Double) (List Double)
simulation = record {
  read_state = λ state. state;
  ready = λ state. true;
  apply_command = λ command_state state. (command_state, []);
  apply_command-held = λ command_state state unready. ground arith;
}

-- `HardwareBridgeBackend` and `JointCommandTopicsBackend`: the buffer of the newest state.
pub record Subscriber (Double : Type 0) : Type 0 where
  pub state_buffer : RobotState Double
  pub state_received : Bool

pub initial_state : {Double : Type 0} → Double → List Double → Subscriber Double
initial_state zero_value initial_q = record {
  state_buffer = record { q = initial_q; qd = replicate 6 zero_value };
  state_received = false;
}

module _ {Header Double : Type 0} (zero_value : Double) where
  -- A state is written if the message converts. Only `JointCommandTopicsBackend` keeps the flag, which
  -- nothing of the other one reads.
  pub on_state : JointState Header Double → Subscriber Double → Option (Subscriber Double)
  unfolding joint_state_to_robot_state
  on_state msg s = do
    converted ←
        joint_state_to_robot_state zero_value msg
          (record { q = replicate 6 zero_value; qd = replicate 6 zero_value })
    some (
        if not converted.0
        then s
        else record s { state_buffer = converted.1; state_received = true })

module _ {Header Double : Type 0} (stamp : Header) where
  -- The command as a joint state.
  pub apply_command_hardware :
      RobotState Double → Subscriber Double → Subscriber Double × List (JointState Header Double)
  apply_command_hardware command_state s = (
    s,
    record {
      header = stamp;
      name = joint_names;
      position = command_state.q;
      velocity = command_state.qd;
      effort = [];
    }
        ∷ [],
  )

  pub hardware_bridge : ControllerBackend Double (Subscriber Double) (JointState Header Double)
  hardware_bridge = record {
    read_state = λ s. s.state_buffer;
    ready = λ s. true;
    apply_command = apply_command_hardware;
    apply_command-held = λ command_state s unready. ground arith;
  }

module _ {Double : Type 0} where
  pub apply_command_topics :
      RobotState Double → Subscriber Double → Subscriber Double × List (List Double)
  apply_command_topics command_state s =
      if not s.state_received then (s, []) else (s, command_state.q ∷ [])

  apply_command_topics-held :
      (command_state : RobotState Double) (s : Subscriber Double)
      → s.state_received ≡ false
      → apply_command_topics command_state s ≡ (s, [])
  unfolding apply_command_topics
  apply_command_topics-held command_state s unready = rw unready refl

  pub joint_command_topics : ControllerBackend Double (Subscriber Double) (List Double)
  joint_command_topics = record {
    read_state = λ s. s.state_buffer;
    ready = λ s. s.state_received;
    apply_command = apply_command_topics;
    apply_command-held = apply_command_topics-held;
  }
